-- ===== src/CText/Decimal.antt =====
-- `stringToInt` reads back what `sprintf("%d")` prints, without overflow.
use agh_so.Prelude.{
  ℕ, zero, suc, ◌+◌, ◌*◌, ◌/◌, ◌%◌, ◌≤◌, ◌<◌, ◌≡◌, refl, [], ◌∷◌, some, ◌∙◌, ap, arith, ◌==◌,
  Bool-cases, inl, inr,
}
use agh_so.Prelude.Int.{pos, ◌+ℤ◌, ◌-ℤ◌, ◌*ℤ◌}
use agh_so.CText.{
  Text, char_val, int_max, int_of, string_to_int_from, string_to_int, digits_from, print_int,
}

-- Both `int` operations of one round stay in range on a digit, and give the decimal value.
round_of_digit :
    (r d : ℕ)
    → d < 10
    → r * 10 + d ≤ int_max
    → (int_of (pos r *ℤ pos 10) ≡ some (pos (r * 10)))
      × (int_of (pos (r * 10) +ℤ (char_val (48 + d) -ℤ pos 48)) ≡ some (pos (r * 10 + d)))
unfolding int_of ◌*ℤ◌ ◌+ℤ◌ ◌-ℤ◌
round_of_digit r d hd h = (ground arith, ground arith)

pub string_to_int_from-digit :
    (r d : ℕ) (s : Text)
    → d < 10
    → r * 10 + d ≤ int_max
    → string_to_int_from (pos r) ((48 + d) ∷ s) ≡ string_to_int_from (pos (r * 10 + d)) s
unfolding string_to_int_from
string_to_int_from-digit r d s hd h = let (low, high) = round_of_digit r d hd h in rw (low, high)

-- The digits of `n` bring the loop from 0 to `n`.
pub string_to_int_from-digits_from :
    (fuel n : ℕ) (out : Text)
    → n < fuel
    → n ≤ int_max
    → string_to_int_from (pos 0) (digits_from fuel n out) ≡ string_to_int_from (pos n) out
unfolding digits_from
string_to_int_from-digits_from zero n out lt h = absurd (omega arith)
string_to_int_from-digits_from (suc fuel) n out lt h = elim (Bool-cases (n / 10 == 0)) [
  | inl last ↦ rw last (last_digit (ground arith))
  | inr more ↦ rw more (
      string_to_int_from-digits_from fuel (n / 10) ((48 + n % 10) ∷ out) (ground arith)
        (omega arith)
      ∙ next_digit)
]
  where
    next_digit :
        string_to_int_from (pos (n / 10)) ((48 + n % 10) ∷ out) ≡ string_to_int_from (pos n) out
    next_digit =
        string_to_int_from-digit (n / 10) (n % 10) out (omega arith) (omega arith)
        ∙ ap (λ k. string_to_int_from (pos k) out) (omega arith)

    last_digit :
        n < 10 → string_to_int_from (pos 0) ((48 + n % 10) ∷ out) ≡ string_to_int_from (pos n) out
    last_digit small =
        string_to_int_from-digit 0 (n % 10) out (omega arith) (omega arith)
        ∙ ap (λ k. string_to_int_from (pos k) out) (omega arith)

-- `stringToInt` gives back every non-negative `int` that `sprintf("%d")` printed.
pub string_to_int-print_int :
    (n : ℕ) → n ≤ int_max → string_to_int (print_int (pos n)) ≡ some (pos n)
unfolding string_to_int print_int
string_to_int-print_int n h =
    string_to_int_from-digits_from (suc n) n [] (omega arith) h ∙ unfold string_to_int_from in refl
