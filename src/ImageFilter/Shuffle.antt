-- ===== src/ImageFilter/Shuffle.antt =====
-- cw08/zad1/filter.c: a filter with the numbers 0, 1, … in a random order, divided by their sum, and
-- the array of double that is too small for them.
-- `rand k` is what the call number `k` of rand returns, `fraction a n` the text of "%f" for
-- `a / (n * (n - 1) / 2.0)`.
use agh_so.Prelude.{
  count, ℕ, zero, suc, ◌+◌, ◌-◌, ◌*◌, ◌%◌, ◌≡◌, List, [], ◌∷◌, ◌++◌, Option, some, guard, ◌>>◌, leb,
  ◌>>=◌, length, get_elem?, set,
}
use agh_so.Prelude.Int.{pos}
use agh_so.CText.{Text, int_of, print_int}

-- The loop that fills the array, with the rounds that are left.
unfoldable pub fill : ℕ → ℕ → List ℕ
fill zero i = []
fill (suc rounds) i = i ∷ fill rounds (i + 1)

-- The loop that shuffles it; `c` is the number of its cells.
unfoldable pub shuffle : (ℕ → ℕ) → ℕ → ℕ → ℕ → List ℕ → Option (List ℕ)
shuffle rand c zero i array = some array
shuffle rand c (suc rounds) i array = do
  tmp ← get_elem? array (rand i % c)
  other ← get_elem? array i
  shuffle rand c rounds (i + 1) (set (set array (rand i % c) other) i tmp)

-- The loop that writes the numbers. `d_array` has the size of an int, 4 bytes, for each number, and
-- takes a double, 8 bytes, for each.
unfoldable pub write_lines : (ℕ → ℕ → Text) → ℕ → ℕ → ℕ → List ℕ → Option Text
write_lines fraction c zero i array = some []
write_lines fraction c (suc rounds) i array = do
  a ← get_elem? array i
  product ← int_of (pos (c * (c - 1)))
  guard (leb (8 * (i + 1)) (4 * c))
  later ← write_lines fraction c rounds (i + 1) array
  some (fraction a c ++ (10 ∷ later))

-- The file that the program writes for a size of `c`.
unfoldable pub filter_file : (ℕ → ℕ) → (ℕ → ℕ → Text) → ℕ → Option Text
filter_file rand fraction c = do
  square ← int_of (pos (c * c))
  array ← shuffle rand (c * c) (c * c) 0 (fill (c * c) 0)
  lines ← write_lines fraction (c * c) (c * c) 0 array
  some (print_int (pos c) ++ (10 ∷ lines))

abbrev pub sum : List ℕ → ℕ
sum [] = 0
sum (x ∷ xs) = x + sum xs

-- An array with the same numbers as another, each as often.
pub record IsShuffled (before after : List ℕ) : Type 0 where
  pub size : length after ≡ length before
  pub total : sum after ≡ sum before
  pub same : (v : ℕ) → count v after ≡ count v before
