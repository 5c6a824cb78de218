-- ===== src/Blocks/Dynamic/Overwrite.antt =====
-- The tests of `addBlockDynamic`, `deleteBlockDynamic` and `insertBlockDynamic` of
-- cw01/zad1/library.c.
use agh_so.Prelude.{
  ℕ, zero, suc, ◌+◌, ◌-◌, ◌%◌, ◌^◌, ◌≤◌, ◌<◌, ◌≡◌, refl, true, List, [], ◌∷◌, some, none, arith,
  length, get_elem?, leb, >>=-eq-some,
}
use agh_so.Prelude.Int.{pos}
use agh_so.CText.{Text}
use agh_so.Blocks.Dynamic.{
  Heap, put_block, put_text, put_zeros, too_long, add_block_dynamic, delete_block_dynamic,
  insert_block_dynamic,
}
use agh_so.Blocks.Dynamic.Chars.{padded, fill_old, put_text-overrun}
use agh_so.Blocks.Dynamic.Array.{IsArray, Rows-get}

get_elem?-outside : (ar : List ℕ) (n : ℕ) → length ar ≤ n → get_elem? ar n ≡ none
get_elem?-outside [] n h = refl
get_elem?-outside (x ∷ ar) zero h = absurd (omega arith)
get_elem?-outside (x ∷ ar) (suc n) h = get_elem?-outside ar n (omega arith)

is_too_long : (bl : ℕ) (s : Text) → bl ≤ length s → 0 < bl → bl < 2 ^ 31 → too_long bl s ≡ true
is_too_long bl s h some_size small =
    let wrapped : (bl + (2 ^ 64 - 1)) % 2 ^ 64 ≡ bl - 1 = omega arith in rw wrapped (ground arith)

-- An index outside the array, or for adding a text that does not fit, is refused: nothing changes.
refused :
    (junk : ℕ → ℕ → Text) (h : Heap) (n bl : ℕ) (s : Text) (ar : List ℕ)
    → 0 < bl
    → bl < 2 ^ 31
    → (length ar ≤ n
        → (add_block_dynamic junk h (pos n) (length ar) bl s ar ≡ some (h, ar))
          × (delete_block_dynamic h (pos n) (length ar) ar ≡ some (h, ar)))
      × (bl ≤ length s → add_block_dynamic junk h (pos n) (length ar) bl s ar ≡ some (h, ar))
unfolding add_block_dynamic delete_block_dynamic
refused junk h n bl s ar some_size small = (
  λ out. let outside : leb (length ar) n ≡ true = ground arith in (rw outside, rw outside),
  λ long.
      let over : too_long bl s ≡ true = is_too_long bl s long some_size small in
      rw over (ground arith),
)

-- `insertBlockDynamic` overwrites the block at an index of the array with a fitting text. It tests the
-- index and the length but goes on after the message: outside the array it reads a row that is not
-- there, and a text that is too long is written past the end of the block.
pub insert_block_dynamic_lem :
    (h : Heap) (n bl : ℕ) (s : Text) (ar : List ℕ)
    → IsArray h bl ar
    → (n < length ar
        → length s < bl
        → (p : ℕ) × (get_elem? ar n ≡ some p)
          × (insert_block_dynamic h (pos n) (length ar) bl s ar
              ≡ some (record h { block = put_block h.block p (some (padded bl s)) })))
      × (length ar ≤ n → insert_block_dynamic h (pos n) (length ar) bl s ar ≡ none)
      × (n < length ar → bl ≤ length s → insert_block_dynamic h (pos n) (length ar) bl s ar ≡ none)
unfolding insert_block_dynamic
insert_block_dynamic_lem h n bl s ar v = (
  λ hn hs.
      let (p, c, row, block, size) = Rows-get h.block bl ar n v.rows hn in
      let (c1, zeros, text) =
        >>=-eq-some (put_zeros (bl - length s) c (length s)) (λ c1. put_text c1 s)
          (fill_old c s bl size hs) in
      (p, row, rw (row, block, zeros, text)),
  λ out. rw (get_elem?-outside ar n out),
  λ hn long.
      let (p, c, row, block, size) = Rows-get h.block bl ar n v.rows hn in
      let none_left : bl - length s ≡ 0 = omega arith in
      rw (row, block, none_left) (unfold put_zeros in rw (put_text-overrun c s (omega arith))),
)
