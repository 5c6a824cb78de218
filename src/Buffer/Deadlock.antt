-- ===== src/Buffer/Deadlock.antt =====
-- How the programs cw09/zad1/zad1.c and cw09/zad2/zad2.c can hang: a consumer that starts to wait
-- after the last producer has told it of the end of the file, and before `end_time` is set.
pub mod Quiet
pub mod Runs
pub mod Stuck
pub mod CondHangs
pub mod SemHangs
