-- ===== src/Blocks/NearestTests.antt =====
-- Runs of the searches for the nearest sum of cw01/zad1/library.c.
use agh_so.Prelude.{
  ℕ, zero, suc, ◌+◌, ◌*◌, ◌-◌, ◌≤◌, ◌<◌, ◌≡◌, refl, List, [], ◌∷◌, some, none, arith, ◌==◌,
  if◌then◌else◌, ◌∙◌,
}
use agh_so.Prelude.Int.{ℤ, pos, negsuc, ◌+ℤ◌}
use agh_so.CText.{c_string, int_of}
use agh_so.Blocks.Bytes.{Memory, no_blocks, so_blocks, total_bytes}
use agh_so.Blocks.Dynamic.{Heap}
use agh_so.Blocks.Nearest.{row_sum, char_sum, nearest_dynamic_sum, bytes, block_sum, text_sum}
use agh_so.Blocks.Nearest.Loop.{AreSums}
use agh_so.Blocks.Nearest.Found.{IsNearest, nearest_dynamic_sum_lem}

abbrev two_blocks : Heap
two_blocks = record {
  block =
      λ p. if p == 0 then some (97 ∷ 0 ∷ []) else if p == 1 then some (98 ∷ 99 ∷ 0 ∷ []) else none;
  next = 2;
}

abbrev rows : List ℕ
rows = 1 ∷ 0 ∷ []

abbrev row_sums : ℕ → ℤ
row_sums i = if i == 0 then pos 197 else pos 97

sum_0 : row_sum two_blocks rows 0 ≡ some (pos 197)
unfolding row_sum c_string char_sum int_of ◌+ℤ◌
sum_0 = refl

sum_1 : row_sum two_blocks rows 1 ≡ some (pos 97)
unfolding row_sum c_string char_sum int_of ◌+ℤ◌
sum_1 = refl

row_sums_here : (i : ℕ) → i < 2 → row_sum two_blocks rows i ≡ some (row_sums i)
row_sums_here zero lt = sum_0
row_sums_here (suc zero) lt = sum_1
row_sums_here (suc (suc i)) lt = absurd (omega arith)

row_sums-AreSums : AreSums (row_sum two_blocks rows) row_sums 2
row_sums-AreSums = record { here = row_sums_here; small = λ i lt. ground arith }

nearest_dynamic_sum_lem_example :
    (2 ≤ 0 → nearest_dynamic_sum two_blocks (pos 0) 2 rows ≡ some (negsuc 0))
    × (0 < 2
        → (at : ℕ) × (diff : ℤ) × (nearest_dynamic_sum two_blocks (pos 0) 2 rows ≡ some (pos at))
          × IsNearest row_sums 0 2 at diff)
nearest_dynamic_sum_lem_example =
    nearest_dynamic_sum_lem two_blocks rows 2 0 row_sums row_sums-AreSums

-- "d" in block 0, "<" in block 1 and "c" in block 2.
abbrev three_texts : Memory
three_texts j = if j == 0 then 100 else if j == 100 then 60 else if j == 200 then 99 else 0

abbrev three_sums : ℕ → ℤ
three_sums i =
    if i == 0 then pos 100 else if i == 1 then pos 60 else if i == 2 then pos 99 else pos 0

zeros_sum :
    (k : ℕ) (m : Memory) (i : ℕ)
    → ((j : ℕ) → i ≤ j → m j ≡ 0)
    → char_sum (pos 0) (bytes k m i) ≡ some (pos 0)
unfolding char_sum bytes int_of ◌+ℤ◌
zeros_sum zero m i zeros = refl
zeros_sum (suc k) m i zeros =
    rw (zeros i (omega arith)) (zeros_sum k m (i + 1) (λ j ge. zeros j (omega arith)))

block_0 : block_sum three_texts 0 ≡ some (pos 100)
unfolding block_sum bytes char_sum int_of ◌+ℤ◌
block_0 = refl

block_1 : block_sum three_texts 1 ≡ some (pos 60)
unfolding block_sum bytes char_sum int_of ◌+ℤ◌
block_1 = refl

block_2 : block_sum three_texts 2 ≡ some (pos 99)
unfolding block_sum bytes char_sum int_of ◌+ℤ◌
block_2 = refl

block_later : (i : ℕ) → block_sum three_texts (suc (suc (suc i))) ≡ some (pos 0)
unfolding block_sum
block_later i =
    zeros_sum so_blocks three_texts (suc (suc (suc i)) * so_blocks) (λ j ge. ground arith)

three_sums_here : (i : ℕ) → i < no_blocks → block_sum three_texts i ≡ some (three_sums i)
three_sums_here zero lt = block_0
three_sums_here (suc zero) lt = block_1
three_sums_here (suc (suc zero)) lt = block_2
three_sums_here (suc (suc (suc i))) lt = block_later i ∙ ground arith

three_sums-AreSums : AreSums (block_sum three_texts) three_sums no_blocks
three_sums-AreSums = record { here = three_sums_here; small = λ i lt. ground arith }

one_char : (k : ℕ) → c_string (bytes (suc (suc k)) three_texts 0) ≡ some (100 ∷ [])
unfolding c_string bytes
one_char k = refl

first_text : (n : ℕ) → 2 ≤ n → c_string (bytes n three_texts 0) ≡ some (100 ∷ [])
first_text zero h = absurd (omega arith)
first_text (suc zero) h = absurd (omega arith)
first_text (suc (suc k)) h = one_char k

sum_100 : char_sum (pos 0) (100 ∷ []) ≡ some (pos 100)
unfolding char_sum int_of ◌+ℤ◌
sum_100 = refl

text_0 : text_sum three_texts 0 ≡ some (pos 100)
unfolding text_sum
text_0 = rw (first_text (total_bytes - 0 * so_blocks) (omega arith)) sum_100
