-- ===== src/Blocks/Static.antt =====
-- cw01/zad1/library.c: the operations on `StaticArray` but the search for the nearest sum.
pub mod Write
pub mod Create
use agh_so.Prelude.{
  ℕ, zero, suc, ◌+◌, ◌-◌, ◌*◌, Option, none, some, ltb, leb, if◌then◌else◌, ◌>>=◌, length,
}
use agh_so.Prelude.Int.{ℤ, pos, negsuc}
use agh_so.CText.{Text}
use agh_so.Blocks.Bytes.{
  Memory, no_blocks, so_blocks, total_bytes, store, copy_chars, strcpy, memset,
}

-- One block of `createArrayStatic`.
unfoldable pub create_row : Memory → ℕ → Option Memory
create_row m i = do
  m' ← memset (so_blocks - 1) m (i * so_blocks) b'A'
  store m' (i * so_blocks + (so_blocks - 1)) 0

-- The outer loop of `createArrayStatic` from block `i` on, with the rounds that are left.
unfoldable pub create_from : ℕ → Memory → ℕ → Option Memory
create_from zero m i = some m
create_from (suc rounds) m i = do m' ← create_row m i; create_from rounds m' (i + 1)

unfoldable pub create_array_static : Memory → Option Memory
create_array_static m = create_from no_blocks m 0

unfoldable pub delete_array_static : Memory → Option Memory
delete_array_static m = memset total_bytes m 0 0

-- The writes of `insertBlockStatic`: `strcpy`, the copy once more, and the rest of the block.
unfoldable pub write_block : Memory → ℕ → Text → Option Memory
write_block m n s = do
  m1 ← strcpy m (n * so_blocks) s
  m2 ← copy_chars m1 (n * so_blocks) s
  memset (so_blocks - length s) m2 (n * so_blocks + length s) 0

unfoldable pub insert_block_static : Memory → ℤ → Text → Option Memory
insert_block_static m (negsuc _) s = some m
insert_block_static m (pos n) s =
    if leb no_blocks n
    then some m
    else if ltb so_blocks (length s)
    then some m
    else write_block m n s

unfoldable pub delete_block_static : Memory → ℤ → Option Memory
delete_block_static m (negsuc _) = some m
delete_block_static m (pos n) =
    if leb no_blocks n then some m else memset so_blocks m (n * so_blocks) 0
