-- ===== src/Buffer.antt =====
-- cw09/zad1/zad1.c and cw09/zad2/zad2.c: threads that read lines of a file into a ring buffer and
-- threads that take them out. The two programs differ in how a thread waits for another: `Cond` and
-- `Sem`. The moves of both are here; the lines named are those of cw09/zad1/zad1.c.
pub mod Ring
pub mod Thread
pub mod Cond
pub mod Sem
pub mod Lines
pub mod Moves
pub mod Invariant
pub mod Deadlock
mod Tests
