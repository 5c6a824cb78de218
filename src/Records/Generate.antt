-- ===== src/Records/Generate.antt =====
-- The records that cw02/zad1/zad1.c generates, and their sort.
use mathlib.Core.Path.{subst}
use mathlib.Core.List.{append_assoc, append-nil}
use agh_so.Prelude.{
  ℕ, zero, suc, ◌*◌, ◌+◌, ◌-◌, ◌≤◌, ◌≡◌, ◌≢◌, refl, sym, ap, ◌∙◌, List, [], ◌∷◌, ◌++◌, some, arith,
  length, length-append,
}
use agh_so.CText.{Text, int_max}
use agh_so.Records.{File, letters, generate_line, generate, sort_records}
use agh_so.Records.Steps.{write-end, bytes_of, HaveSize}
use agh_so.Records.Sort.{IsSortOf, sort_records_lem}

-- Small letters, and a blank behind them.
abbrev pub IsLine : Text → Type 0
IsLine [] = ◌≡◌ {A = ℕ} 0 1
IsLine (c ∷ []) = c ≡ 32
IsLine (c ∷ d ∷ s) = (97 ≤ c) × (c ≤ 122) × IsLine (d ∷ s)

abbrev pub AreLines : List Text → Type 0
AreLines [] = Unit
AreLines (r ∷ rs) = IsLine r × AreLines rs

letters-IsLine : (rand : ℕ → ℕ) (k n : ℕ) → IsLine (letters rand k n ++ 32 ∷ [])
unfolding letters
letters-IsLine rand k zero = refl
letters-IsLine rand k (suc zero) = (omega arith, omega arith, refl)
letters-IsLine rand k (suc (suc n)) =
    (omega arith, omega arith, letters-IsLine rand (k + 1) (suc n))

letters-length : (rand : ℕ → ℕ) (k n : ℕ) → length (letters rand k n ++ 32 ∷ []) ≡ suc n
unfolding letters
letters-length rand k zero = refl
letters-length rand k (suc n) = omega (arith, letters-length rand (k + 1) n)

-- The file of `generate`: records of one size, each of small letters and a blank.
pub record IsGenerated (records size : ℕ) (before : Text) (f : File) : Type 0 where
  pub lines : List Text
  pub as_many : length lines ≡ records
  pub sized : HaveSize size lines
  pub lettered : AreLines lines
  pub holds : f.bytes ≡ before ++ bytes_of lines

generate_from :
    (rand : ℕ → ℕ) (records k n : ℕ) (f : File)
    → f.offset ≡ length f.bytes
    → (g : File) × (generate rand k records (suc n) f ≡ some g)
      × IsGenerated records (suc n) f.bytes g
unfolding generate generate_line
generate_from rand zero k n f e = (
  f,
  refl,
  record {
    lines = [];
    as_many = refl;
    sized = tt;
    lettered = tt;
    holds = sym (append-nil f.bytes);
  },
)
generate_from rand (suc records) k n f e =
    let s = letters rand k n ++ 32 ∷ [] in
    let size = letters-length rand k n in
    let f1 : File = record { bytes = f.bytes ++ s; offset = f.offset + length s } in
    let (g, ran, v) =
      generate_from rand records (k + (suc n - 1)) n f1 (omega (arith, length-append f.bytes s)) in
    (
      g,
      rw (write-end f s e) ran,
      record {
        lines = s ∷ v.lines;
        as_many = omega (arith, v.as_many);
        sized = (sym size, v.sized);
        lettered = (letters-IsLine rand k n, v.lettered);
        holds = v.holds ∙ append_assoc f.bytes s (bytes_of v.lines);
      },
    )

abbrev pub new_file : File
new_file = record { bytes = []; offset = 0 }

-- For a size that is not 0, and if the number times the size is an int, `generate` makes a file of as many records of this size as it is asked
-- for, each of small letters and a blank behind them, and `sort` on this file ends with the same
-- records in order.
pub generate_then_sort :
    (rand : ℕ → ℕ) (records size : ℕ)
    → size ≢ 0
    → records * size ≤ int_max
    → (f g : File) × (generate rand 0 records size new_file ≡ some f)
      × (v : IsGenerated records size [] f) × (sort_records records size f ≡ some g)
      × IsSortOf v.lines [] g
generate_then_sort rand records zero some_size small = absurd (some_size refl)
generate_then_sort rand records (suc n) some_size small =
    let (f, ran, v) = generate_from rand records 0 n new_file refl in
    let (g, ran', sorted) =
      sort_records_lem (suc n) v.lines [] f some_size
        (subst (λ k. k * suc n ≤ int_max) (sym v.as_many) small) v.sized
        (v.holds ∙ sym (append-nil (bytes_of v.lines))) in
    (f, g, ran, v, ap (λ m. sort_records m (suc n) f) (sym v.as_many) ∙ ran', sorted)
