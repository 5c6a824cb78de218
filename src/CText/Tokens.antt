-- ===== src/CText/Tokens.antt =====
-- `strtok` takes apart a text of printed numbers.
use agh_so.Prelude.{
  ℕ, zero, suc, ◌+◌, ◌/◌, ◌%◌, ◌≡◌, refl, [], ◌∷◌, ◌++◌, some, true, false, arith, ◌==◌, ◌≢◌,
  Bool-cases, inl, inr,
}
use agh_so.Prelude.Int.{pos}
use agh_so.CText.{Text, is_delimiter, cut_token, strtok, digits_from, print_int}

-- A text without a delimiter.
abbrev pub IsSolid : Text → Type 0
IsSolid [] = Unit
IsSolid (c ∷ t) = (is_delimiter c ≡ false) × IsSolid t

-- A token ends at the delimiter behind it.
cut_token-append :
    (t : Text) (d : ℕ) (rest : Text)
    → IsSolid t
    → is_delimiter d ≡ true
    → cut_token (t ++ d ∷ rest) ≡ (t, rest)
unfolding cut_token
cut_token-append [] d rest solid h = rw h
cut_token-append (c ∷ t) d rest (here, solid) h = rw (here, cut_token-append t d rest solid h)

cut_token-IsSolid : (t : Text) → IsSolid t → cut_token t ≡ (t, [])
unfolding cut_token
cut_token-IsSolid [] solid = refl
cut_token-IsSolid (c ∷ t) (here, solid) = rw (here, cut_token-IsSolid t solid)

-- The next token is what stands before the first delimiter.
pub strtok-append :
    (t : Text) (d : ℕ) (rest : Text)
    → t ≢ []
    → IsSolid t
    → is_delimiter d ≡ true
    → strtok (t ++ d ∷ rest) ≡ some (t, rest)
strtok-append [] d rest ne solid h = absurd (ne refl)
strtok-append (c ∷ t) d rest ne (here, solid) h =
    unfold strtok in rw (here, cut_token-append (c ∷ t) d rest (here, solid) h)

-- A text without delimiters is the last token.
pub strtok-IsSolid : (t : Text) → t ≢ [] → IsSolid t → strtok t ≡ some (t, [])
strtok-IsSolid [] ne solid = absurd (ne refl)
strtok-IsSolid (c ∷ t) ne (here, solid) =
    unfold strtok in rw (here, cut_token-IsSolid (c ∷ t) (here, solid))

digit_solid : (d : ℕ) → is_delimiter (48 + d) ≡ false
digit_solid d = ground arith

digits_from-IsSolid : (fuel n : ℕ) (out : Text) → IsSolid out → IsSolid (digits_from fuel n out)
unfolding digits_from
digits_from-IsSolid zero n out solid = solid
digits_from-IsSolid (suc fuel) n out solid = elim (Bool-cases (n / 10 == 0)) [
  | inl last ↦ rw last (digit_solid (n % 10), solid)
  | inr more ↦
      rw more
        (digits_from-IsSolid fuel (n / 10) ((48 + n % 10) ∷ out) (digit_solid (n % 10), solid))
]

digits_from-ne-nil : (fuel n : ℕ) (out : Text) → out ≢ [] → digits_from fuel n out ≢ []
unfolding digits_from
digits_from-ne-nil zero n out ne = ne
digits_from-ne-nil (suc fuel) n out ne = elim (Bool-cases (n / 10 == 0)) [
  | inl last ↦ rw last (λ e. cc)
  | inr more ↦ rw more (digits_from-ne-nil fuel (n / 10) ((48 + n % 10) ∷ out) (λ e. cc))
]

digits-ne-nil : (fuel n : ℕ) → digits_from (suc fuel) n [] ≢ []
unfolding digits_from
digits-ne-nil fuel n = elim (Bool-cases (n / 10 == 0)) [
  | inl last ↦ rw last (λ e. cc)
  | inr more ↦ rw more (digits_from-ne-nil fuel (n / 10) ((48 + n % 10) ∷ []) (λ e. cc))
]

pub print_int-IsSolid : (n : ℕ) → IsSolid (print_int (pos n)) × (print_int (pos n) ≢ [])
unfolding print_int
print_int-IsSolid n = (digits_from-IsSolid (suc n) n [] tt, digits-ne-nil n n)
