-- ===== src/Blocks/Bytes.antt =====
-- The memory of the static array of cw01/zad1/library.c: one run of bytes, so that a write behind a
-- block lands in the next one. `none` is an access outside the array.
pub mod Copy
use agh_so.Prelude.{
  ℕ, zero, suc, ◌+◌, ◌*◌, List, [], ◌∷◌, Option, none, some, ltb, ◌==◌, if◌then◌else◌, ◌>>=◌, ◌>>◌,
  guard, length,
}
use agh_so.CText.{Text}

abbrev pub no_blocks : ℕ
no_blocks = 1000000

abbrev pub so_blocks : ℕ
so_blocks = 100

abbrev pub total_bytes : ℕ
total_bytes = no_blocks * so_blocks

-- The byte at `StaticArray[n][i]` is at `n * so_blocks + i`.
abbrev pub Memory : Type 0
Memory = ℕ → ℕ

abbrev pub update : Memory → ℕ → ℕ → Memory
update m i v j = if i == j then v else m j

unfoldable pub store : Memory → ℕ → ℕ → Option Memory
store m i v = do guard (ltb i total_bytes); some (update m i v)

-- Characters copied one after the other, as by `strcpy` before its NUL.
unfoldable pub copy_chars : Memory → ℕ → Text → Option Memory
copy_chars m i [] = some m
copy_chars m i (c ∷ s) = do m' ← store m i c; copy_chars m' (i + 1) s

unfoldable pub strcpy : Memory → ℕ → Text → Option Memory
strcpy m i s = do m' ← copy_chars m i s; store m' (i + length s) 0

-- `count` bytes set to `v`: `memset`, and the loops that fill a block.
unfoldable pub memset : ℕ → Memory → ℕ → ℕ → Option Memory
memset zero m i v = some m
memset (suc count) m i v = do m' ← store m i v; memset count m' (i + 1) v
