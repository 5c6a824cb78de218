-- ===== src/CText/Strings.antt =====
-- C strings among other bytes, and the length of a printed number.
use agh_so.Prelude.{
  ℕ, zero, suc, ◌+◌, ◌*◌, ◌/◌, ◌%◌, ◌≤◌, ◌<◌, true, Bool-cases, inl, inr, ◌==◌, length, ◌≡◌, ◌≢◌,
  refl, [], ◌∷◌, ◌++◌, some, arith,
}
use agh_so.Prelude.Int.{pos}
use agh_so.CText.{Text, c_string, int_max, digits_from, print_int}

abbrev pub NoNul : Text → Type 0
NoNul [] = Unit
NoNul (c ∷ s) = (c ≢ 0) × NoNul s

-- A text without NUL ends at the NUL behind it.
pub c_string-append : (t rest : Text) → NoNul t → c_string (t ++ 0 ∷ rest) ≡ some t
unfolding c_string
c_string-append [] rest h = refl
c_string-append (c ∷ t) rest (ne, h) = rw (c_string-append t rest h) (ground (arith, ne))

abbrev pow10 : ℕ → ℕ
pow10 zero = 1
pow10 (suc k) = 10 * pow10 k

length-digits_from :
    (k fuel n : ℕ) (out : Text) → n < pow10 k → length (digits_from fuel n out) ≤ suc k + length out
unfolding digits_from
length-digits_from k zero n out h = omega arith
length-digits_from zero (suc fuel) n out h =
    let last : (n / 10 == 0) ≡ true = ground arith in rw last (omega arith)
length-digits_from (suc k) (suc fuel) n out h = elim (Bool-cases (n / 10 == 0)) [
  | inl last ↦ rw last (omega arith)
  | inr more ↦
      rw more
        (omega (arith, length-digits_from k fuel (n / 10) ((48 + n % 10) ∷ out) (omega arith)))
]

-- An int that is no less than 0 has at most eleven digits.
pub length-print_int : (n : ℕ) → n ≤ int_max → length (print_int (pos n)) ≤ 11
unfolding print_int
length-print_int n h = omega (arith, length-digits_from 10 (suc n) n [] (omega arith))
