-- ===== src/Blocks.antt =====
-- cw01/zad1/library.c: blocks of characters, in one static array and in an array of pointers.
pub mod Bytes
pub mod Static
pub mod Dynamic
pub mod Nearest
mod Tests
mod NearestTests
