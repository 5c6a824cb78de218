-- ===== src/Blocks/Tests.antt =====
-- Runs of cw01/zad1/library.c on small arrays.
use agh_so.Prelude.{
  ℕ, ◌+◌, ◌*◌, ◌≤◌, ◌<◌, ◌≡◌, refl, List, [], ◌∷◌, Option, some, none, arith, length, replicate,
  length-replicate, ◌==◌, if◌then◌else◌,
}
use agh_so.Prelude.Int.{pos}
use agh_so.CText.{Text, codes}
use agh_so.Blocks.Bytes.{Memory, no_blocks, so_blocks}
use agh_so.Blocks.Static.{insert_block_static}
use agh_so.Blocks.Static.Write.{insert_block_static_overrun}
use agh_so.Blocks.Dynamic.{Heap, put_block, insert_block_dynamic}
use agh_so.Blocks.Dynamic.Chars.{padded}
use agh_so.Blocks.Dynamic.Array.{IsArray}
use agh_so.Blocks.Dynamic.Insert.{Added, add_block_dynamic_lem}
use agh_so.Blocks.Dynamic.Remove.{Deleted, delete_block_dynamic_lem}
use agh_so.Blocks.Dynamic.Overwrite.{insert_block_dynamic_lem}

abbrev garbage : ℕ → ℕ → Text
garbage p k = replicate k 205

length-garbage : (p k : ℕ) → length (garbage p k) ≡ k
length-garbage p k = length-replicate {A = ℕ} k 205

-- Blocks 0 and 1, of four characters.
abbrev two_blocks : Heap
two_blocks = record {
  block = λ p.
      if p == 0
      then some (b'a' ∷ 0 ∷ 0 ∷ 0 ∷ [])
      else if p == 1
      then some (b'b' ∷ b'c' ∷ 0 ∷ 0 ∷ [])
      else none;
  next = 2;
}

abbrev rows : List ℕ
rows = 1 ∷ 0 ∷ []

two_blocks-IsArray : IsArray two_blocks 4 rows
two_blocks-IsArray = record {
  rows = (
    (b'b' ∷ b'c' ∷ 0 ∷ 0 ∷ [], refl, refl),
    ((λ e. absurd (omega arith)), tt),
    ((b'a' ∷ 0 ∷ 0 ∷ 0 ∷ [], refl, refl), tt, tt),
  );
  fresh = λ p ge. ground arith;
}

add_block_dynamic_lem_example : Added garbage two_blocks 1 4 (codes "xyz") rows
add_block_dynamic_lem_example =
    add_block_dynamic_lem garbage two_blocks 1 4 (codes "xyz") rows length-garbage
      two_blocks-IsArray (omega arith) (omega arith) (omega arith)

delete_block_dynamic_lem_example : Deleted two_blocks 0 4 rows
delete_block_dynamic_lem_example =
    delete_block_dynamic_lem two_blocks 0 4 rows two_blocks-IsArray (omega arith)

insert_block_dynamic_lem_example :
    (1 < 2
      → 2 < 4
      → (p : ℕ) × (◌≡◌ {A = Option ℕ} (some 0) (some p))
        × (insert_block_dynamic two_blocks (pos 1) 2 4 (codes "zz") rows
            ≡ some (record two_blocks {
              block = put_block two_blocks.block p (some (padded 4 (codes "zz")));
            })))
    × (2 ≤ 1 → insert_block_dynamic two_blocks (pos 1) 2 4 (codes "zz") rows ≡ none)
    × (1 < 2 → 4 ≤ 2 → insert_block_dynamic two_blocks (pos 1) 2 4 (codes "zz") rows ≡ none)
insert_block_dynamic_lem_example =
    insert_block_dynamic_lem two_blocks 1 4 (codes "zz") rows two_blocks-IsArray

abbrev blank : Memory
blank j = 7

insert_block_static_overrun_example :
    (3 + 1 < no_blocks
      → (m' : Memory) × (insert_block_static blank (pos 3) (replicate 100 90) ≡ some m')
        × (m' ((3 + 1) * so_blocks) ≡ 0))
    × (3 + 1 ≡ no_blocks → insert_block_static blank (pos 3) (replicate 100 90) ≡ none)
insert_block_static_overrun_example =
    insert_block_static_overrun blank 3 (replicate 100 90) (length-replicate {A = ℕ} 100 90)
