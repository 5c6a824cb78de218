-- ===== src/Barber.antt =====
-- The sleeping barber: cw07/zad1/barber.c and client.c (System V), cw07/zad2/barber.c and client.c
-- (POSIX). The two pairs go through the same steps; what differs is the message queue, in `Systems`.
pub mod Shop
pub mod Moves
pub mod Systems
pub mod Lock
pub mod Seats
pub mod Bounds
mod Tests
