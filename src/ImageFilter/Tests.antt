-- ===== src/ImageFilter/Tests.antt =====
-- An image of two rows, two threads, and a filter of one number; and a shuffled filter.
use mathlib.Core.List.{cons≢nil}
use agh_so.Prelude.{
  some_inj, ◌≤◌, ◌≢◌, true, Option, ℕ, zero, suc, ◌*◌, ◌≡◌, refl, sym, ap, get_elem?, length, List,
  [], ◌∷◌, ◌++◌, none, some, arith, if◌then◌else◌,
}
use agh_so.Prelude.Int.{ℤ, pos, ◌+ℤ◌, ◌-ℤ◌, ◌*ℤ◌}
use agh_so.CText.{Text, codes, print_int, string_to_int, int_of, int_max}
use agh_so.CText.Decimal.{string_to_int-print_int}
use agh_so.ImageFilter.{
  Double, Grid, Input, clamp, sum_columns, sum_rows, pixel, fill_row, fill_rows, start_routine,
  start_of, end_of,
}
use agh_so.ImageFilter.Threads.{State, Step, Reach, AreDone}
use agh_so.ImageFilter.Cells.{IsGrid}
use agh_so.ImageFilter.Pixel.{IsSized}
use agh_so.ImageFilter.Result.{threads_go_on}
use agh_so.ImageFilter.Files.{scan, read_row, read_rows, Image, read_image, read_filter, load, save}
use agh_so.ImageFilter.Loaded.{loaded_threads}
use agh_so.ImageFilter.Saved.{is_space, HasNoSpace, header_of, grid_of, saved_file_lem}

-- Whole numbers in place of double.
abbrev whole : Double
whole = record {
  Real = ℤ;
  nought = pos 0;
  add = λ a b. a +ℤ b;
  mul = λ a b. a *ℤ b;
  of_int = λ n. n;
  round = λ s. s;
}

abbrev column : ℤ → ℤ → Grid ℤ
column a b = (a ∷ []) ∷ (b ∷ []) ∷ []

abbrev input : Input whole
input = record {
  height = 2;
  width = 1;
  c = 1;
  img_in = column (pos 4) (pos 5);
  filter = (pos 3 ∷ []) ∷ [];
}

column-IsGrid : (a b : ℤ) → IsGrid 2 1 (column a b)
column-IsGrid a b = record { high = refl; wide = wide }
  where
    wide : (i : ℕ) (row : List ℤ) → get_elem? (column a b) i ≡ some row → length row ≡ 1
    wide zero row e = ap length (sym (some_inj e))
    wide (suc zero) row e = ap length (sym (some_inj e))
    wide (suc (suc i)) row e = absurd (cc)

sized : IsSized input
sized = record {
  image = column-IsGrid (pos 4) (pos 5);
  square = record { high = refl; wide = λ i row e. one_wide i row e };
}
  where
    one_wide : (i : ℕ) (row : List ℤ) → get_elem? ((pos 3 ∷ []) ∷ []) i ≡ some row → length row ≡ 1
    one_wide zero row e = ap length (sym (some_inj e))
    one_wide (suc i) row e = absurd (cc)

filled : (s : State) × Reach input 2 (column (pos 0) (pos 0)) s × AreDone input 2 s
unfolding start_of end_of pixel sum_rows sum_columns clamp ◌+ℤ◌ ◌*ℤ◌
filled =
    let r1 = Reach.later Reach.begin (
      Step.write 1 (pos 12) (column (pos 0) (pos 12)) (omega arith) (omega arith) (omega arith) refl
        refl) in
    let r2 = Reach.later r1 (
      Step.write 0 (pos 12) (column (pos 12) (pos 12)) (omega arith) (omega arith) (omega arith)
        refl refl) in
    let r3 = Reach.later r2 (Step.next_row 0 (omega arith) (omega arith) (omega arith)) in
    let r4 = Reach.later r3 (Step.next_row 1 (omega arith) (omega arith) (omega arith)) in
    (_, r4, λ i h. ground arith)

-- Stand for strtol and strtod, on numbers from 0.
abbrev or_nought : Option ℤ → ℤ
or_nought none = pos 0
or_nought (some n) = n

abbrev number_of : Text → ℤ
number_of t = or_nought (string_to_int t)

abbrev image_words : List Text
image_words = codes "P2" ∷ codes "1" ∷ codes "2" ∷ codes "9" ∷ codes "4" ∷ codes "5" ∷ []

loaded_threads_example : start_routine input 0 2 (column (pos 0) (pos 0)) ≡ some filled.0.out
loaded_threads_example =
    loaded_threads whole number_of number_of image_words (codes "1" ∷ codes "3" ∷ []) []
      (codes "P2\n1 2\n9\n") input 2 (column (pos 0) (pos 0)) filled.0
      (unfold load read_image read_filter read_rows read_row scan string_to_int int_of ◌+ℤ◌ ◌-ℤ◌
          ◌*ℤ◌ in
        refl)
      (λ z. omega arith) (column-IsGrid (pos 0) (pos 0)) filled.1 filled.2

-- Before the first step of the second thread.
threads_go_on_example :
    (u : State) × Step input 2
      (record {
        out = column (pos 0) (pos 0);
        places = λ i. record { x = start_of 2 2 (2 * i); y = 0 };
      })
      u
unfolding end_of start_of
threads_go_on_example =
    threads_go_on input 2 (column (pos 0) (pos 0)) _ 1 sized (λ z. omega arith)
      (column-IsGrid (pos 0) (pos 0)) Reach.begin (omega arith) (omega arith)

-- The filtered image.
filters : start_routine input 0 2 (column (pos 0) (pos 0)) ≡ some (column (pos 12) (pos 12))
unfolding start_routine fill_rows fill_row pixel sum_rows sum_columns clamp ◌+ℤ◌ ◌*ℤ◌
filters = refl

-- The words of a text between white space: the one that it starts with, and the others.
abbrev add_word : Text → List Text → List Text
add_word [] ws = ws
add_word (c ∷ w) ws = (c ∷ w) ∷ ws

abbrev pieces : Text → Text × List Text
pieces [] = ([], [])
pieces (c ∷ s) = let (w, ws) = pieces s in if is_space c then ([], add_word w ws) else (c ∷ w, ws)

abbrev words_of : Text → List Text
words_of s = add_word (pieces s).0 (pieces s).1

pieces-append :
    (w : Text) (d : ℕ) (rest : Text)
    → HasNoSpace w
    → is_space d ≡ true
    → pieces (w ++ d ∷ rest) ≡ (w, words_of rest)
pieces-append [] d rest solid h = rw h refl
pieces-append (c ∷ w) d rest (here, solid) h = rw (here, pieces-append w d rest solid h) refl

words_of-append :
    (w : Text) (d : ℕ) (rest : Text)
    → w ≢ []
    → HasNoSpace w
    → is_space d ≡ true
    → words_of (w ++ d ∷ rest) ≡ w ∷ words_of rest
words_of-append [] d rest ne solid h = absurd (ne refl)
words_of-append (c ∷ w) d rest ne solid h = rw (pieces-append (c ∷ w) d rest solid h) refl

number_of-print_int : (n : ℕ) → n ≤ int_max → number_of (print_int (pos n)) ≡ pos n
number_of-print_int n h = ap or_nought (string_to_int-print_int n h)

saved_file_lem_example :
    (file : Text) × (image : Image) × (save
        (header_of (codes "P2") 2 1 9)
        1
        2
        (grid_of ((4 ∷ 5 ∷ []) ∷ []))
      ≡ some file)
    × (read_image number_of (words_of file) [] ≡ some image)
    × (image.header ≡ header_of (codes "P2") 2 1 9)
    × (image.width ≡ 2)
    × (image.height ≡ 1)
    × (image.cells ≡ grid_of ((4 ∷ 5 ∷ []) ∷ []))
saved_file_lem_example =
    saved_file_lem words_of number_of refl words_of-append number_of-print_int (codes "P2") 2 1 9
      ((4 ∷ 5 ∷ []) ∷ []) [] cons≢nil (refl, (refl, tt)) (omega arith) (omega arith) (omega arith)
      (omega arith) refl (refl, (omega arith, (omega arith, tt)), tt)
