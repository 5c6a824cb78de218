-- ===== src/Blocks/Nearest.antt =====
-- cw01/zad1/library.c: `nearestDynamicSum` and `nearestStaticSum`. The two loops differ in what they
-- keep of a difference. `none` is a read outside a block or an overflow of `int`.
pub mod Loop
pub mod Found
use agh_so.Prelude.{
  ℕ, zero, suc, ◌+◌, ◌-◌, ◌*◌, Bool, not, ◌&&◌, List, [], ◌∷◌, Option, none, some, ltb, leb, ◌==◌,
  if◌then◌else◌, ◌>>=◌, ◌>>◌, guard, length, get_elem?,
}
use agh_so.Prelude.Int.{ℤ, pos, negsuc, pos_part, neg_part, ◌+ℤ◌, ◌-ℤ◌, ltb_ℤ}
use agh_so.CText.{c_string, Text, char_val, int_of}
use agh_so.Blocks.Bytes.{Memory, no_blocks, so_blocks, total_bytes}
use agh_so.Blocks.Dynamic.{Heap}

unfoldable pub abs_ℤ : ℤ → ℤ
abs_ℤ z = pos (pos_part z + neg_part z)

-- `sum += ...` over some characters.
unfoldable pub char_sum : ℤ → Text → Option ℤ
char_sum sum [] = some sum
char_sum sum (c ∷ s) = do sum' ← int_of (sum +ℤ char_val c); char_sum sum' s

-- The loop over the blocks, from block `i` on with the rounds that are left: `block_sum i` is the
-- `tmpsum` of block `i`, and `kept` what `sumdiff` keeps of a difference.
module _ (block_sum : ℕ → Option ℤ) (kept : ℤ → ℤ) (sum : ℤ) (n : ℕ) where
  unfoldable pub nearest_from : ℕ → ℕ → ℕ → ℤ → Option ℕ
  nearest_from zero i at diff = some at
  nearest_from (suc rounds) i at diff = do
    tmp ← block_sum i
    d ← int_of (tmp -ℤ sum)
    let nearer = ltb_ℤ (abs_ℤ d) diff && not (i == n)
    nearest_from rounds (i + 1) (if nearer then i else at) (if nearer then kept d else diff)

unfoldable pub row_sum : Heap → List ℕ → ℕ → Option ℤ
row_sum h ar i = do p ← get_elem? ar i; c ← h.block p; s ← c_string c; char_sum (pos 0) s

unfoldable pub nearest_dynamic_sum : Heap → ℤ → ℕ → List ℕ → Option ℤ
nearest_dynamic_sum h (negsuc _) al ar = some (negsuc 0)
nearest_dynamic_sum h (pos n) al ar =
    let found = do
      sum ← row_sum h ar n
      at ← nearest_from (row_sum h ar) abs_ℤ sum n al 0 0 sum
      some (pos at)
    in if leb al n then some (negsuc 0) else found

-- The bytes from `i` on, as many as are left.
unfoldable pub bytes : ℕ → Memory → ℕ → Text
bytes zero m i = []
bytes (suc left) m i = m i ∷ bytes left m (i + 1)

-- `strlen` reads on into the blocks that follow; the other sum takes the whole block.
unfoldable pub text_sum : Memory → ℕ → Option ℤ
text_sum m n = do
  s ← c_string (bytes (total_bytes - n * so_blocks) m (n * so_blocks))
  char_sum (pos 0) s

unfoldable pub block_sum : Memory → ℕ → Option ℤ
block_sum m i = char_sum (pos 0) (bytes so_blocks m (i * so_blocks))

unfoldable pub nearest_static_sum : Memory → ℤ → Option ℤ
nearest_static_sum m (negsuc _) = some (negsuc 0)
nearest_static_sum m (pos n) =
    let found = do
      sum ← text_sum m n
      at ← nearest_from (block_sum m) (λ d. d) sum n no_blocks 0 0 sum
      some (pos at)
    in if leb no_blocks n then some (negsuc 0) else found
