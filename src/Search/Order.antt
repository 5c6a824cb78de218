-- ===== src/Search/Order.antt =====
-- `cmpTM` and the permission letters of cw02/zad2a/zad2a.c.
use agh_so.Prelude.{
  ℕ, ◌+◌, ◌*◌, ◌/◌, ◌%◌, ◌≡◌, refl, ap, sym, ◌∙◌, ◌≢◌, ◌⊎◌, inl, inr, true, [], ◌∷◌, ◌==◌, arith,
  if◌then◌else◌,
}
use agh_so.Prelude.Int.{ℤ, pos, negsuc, ltb_ℤ, eq_of_parts}
use agh_so.CText.{Text}
use agh_so.Search.{Tm, cmp_field, cmp_tm, perm_char, perm_text}

-- The three fields as one predicate: the first that differs decides.
abbrev pub Before : Tm → Tm → Type 0
Before a b =
    (ltb_ℤ a.tm_year b.tm_year ≡ true)
    ⊎ ((a.tm_year ≡ b.tm_year)
        × ((ltb_ℤ a.tm_mon b.tm_mon ≡ true)
            ⊎ ((a.tm_mon ≡ b.tm_mon) × (ltb_ℤ a.tm_mday b.tm_mday ≡ true))))

field_cases : (a b : ℤ) → (ltb_ℤ a b ≡ true) ⊎ (ltb_ℤ b a ≡ true) ⊎ (a ≡ b)
field_cases a b = ground (arith, eq_of_parts a b)

cmp_field-less : (a b later : ℤ) → ltb_ℤ a b ≡ true → cmp_field a b later ≡ negsuc 0
cmp_field-less a b later h = ground arith

cmp_field-greater : (a b later : ℤ) → ltb_ℤ b a ≡ true → cmp_field a b later ≡ pos 1
cmp_field-greater a b later h = ground arith

cmp_field-same : (a b later : ℤ) → a ≡ b → cmp_field a b later ≡ later
cmp_field-same a b later h = ground arith

same_tm : (a b : Tm) → a.tm_year ≡ b.tm_year → a.tm_mon ≡ b.tm_mon → a.tm_mday ≡ b.tm_mday → a ≡ b
same_tm a b year mon mday = λ i. record { tm_year = year i; tm_mon = mon i; tm_mday = mday i }

-- `cmpTM` returns -1, 1 or 0 as the first date is before the second, after it or the same.
pub cmp_tm_lem :
    (a b : Tm)
    → ((cmp_tm a b ≡ negsuc 0) × Before a b)
      ⊎ ((cmp_tm a b ≡ pos 1) × Before b a)
      ⊎ ((cmp_tm a b ≡ pos 0) × (a ≡ b))
unfolding cmp_tm
cmp_tm_lem a b = elim (field_cases a.tm_year b.tm_year) [
  | inl less ↦ inl (cmp_field-less a.tm_year b.tm_year _ less, inl less)
  | inr (inl more) ↦ inr (inl (cmp_field-greater a.tm_year b.tm_year _ more, inl more))
  | inr (inr year) ↦ elim (field_cases a.tm_mon b.tm_mon) [
    | inl less ↦
        inl (same_year year ∙ cmp_field-less a.tm_mon b.tm_mon _ less, inr (year, inl less))
    | inr (inl more) ↦ inr (
        inl (same_year year ∙ cmp_field-greater a.tm_mon b.tm_mon _ more, inr (sym year, inl more)))
    | inr (inr mon) ↦ elim (field_cases a.tm_mday b.tm_mday) [
      | inl less ↦ inl (
        same_mon year mon ∙ cmp_field-less a.tm_mday b.tm_mday _ less,
        inr (year, inr (mon, less)),
      )
      | inr (inl more) ↦ inr (
          inl (
            same_mon year mon ∙ cmp_field-greater a.tm_mday b.tm_mday _ more,
            inr (sym year, inr (sym mon, more)),
          ))
      | inr (inr mday) ↦ inr (
          inr (
            same_mon year mon ∙ cmp_field-same a.tm_mday b.tm_mday _ mday,
            same_tm a b year mon mday,
          ))
    ]
  ]
]
  where
    same_year :
        a.tm_year ≡ b.tm_year
        → cmp_tm a b ≡ cmp_field a.tm_mon b.tm_mon (cmp_field a.tm_mday b.tm_mday (pos 0))
    same_year year = cmp_field-same a.tm_year b.tm_year _ year

    same_mon :
        a.tm_year ≡ b.tm_year
        → a.tm_mon ≡ b.tm_mon
        → cmp_tm a b ≡ cmp_field a.tm_mday b.tm_mday (pos 0)
    same_mon year mon = same_year year ∙ cmp_field-same a.tm_mon b.tm_mon _ mon

-- The first date is before the second, or after it.
pub cmp_tm-Before : (a b : Tm) → Before a b → cmp_tm a b ≡ negsuc 0
unfolding cmp_tm
cmp_tm-Before a b (inl year) = cmp_field-less a.tm_year b.tm_year _ year
cmp_tm-Before a b (inr (year, inl mon)) =
    cmp_field-same a.tm_year b.tm_year _ year ∙ cmp_field-less a.tm_mon b.tm_mon _ mon
cmp_tm-Before a b (inr (year, inr (mon, mday))) =
    cmp_field-same a.tm_year b.tm_year _ year
    ∙ cmp_field-same a.tm_mon b.tm_mon _ mon
    ∙ cmp_field-less a.tm_mday b.tm_mday _ mday

pub cmp_tm-After : (a b : Tm) → Before b a → cmp_tm a b ≡ pos 1
unfolding cmp_tm
cmp_tm-After a b (inl year) = cmp_field-greater a.tm_year b.tm_year _ year
cmp_tm-After a b (inr (year, inl mon)) =
    cmp_field-same a.tm_year b.tm_year _ (sym year) ∙ cmp_field-greater a.tm_mon b.tm_mon _ mon
cmp_tm-After a b (inr (year, inr (mon, mday))) =
    cmp_field-same a.tm_year b.tm_year _ (sym year)
    ∙ cmp_field-same a.tm_mon b.tm_mon _ (sym mon)
    ∙ cmp_field-greater a.tm_mday b.tm_mday _ mday

cmp_same : (a : Tm) → cmp_tm a a ≡ pos 0
unfolding cmp_tm
cmp_same a =
    cmp_field-same a.tm_year a.tm_year _ refl
    ∙ cmp_field-same a.tm_mon a.tm_mon _ refl
    ∙ cmp_field-same a.tm_mday a.tm_mday _ refl

pub cmp_tm-eq : (a b : Tm) → a ≡ b → cmp_tm a b ≡ pos 0
cmp_tm-eq a b e = ap (cmp_tm a) (sym e) ∙ cmp_same a

-- The mode bits that some permission letters stand for.
abbrev pub read_perm : ℕ → Text → ℕ
read_perm value [] = value
read_perm value (c ∷ s) = read_perm (2 * value + (if c == b'-' then 0 else 1)) s

bit_back :
    (mode bit letter : ℕ)
    → letter ≢ b'-'
    → (if perm_char mode bit letter == b'-' then 0 else 1) ≡ mode / bit % 2
bit_back mode bit letter ne = ground arith

-- The nine letters give back the nine permission bits of the mode.
read_perm-perm_text : (mode : ℕ) → read_perm 0 (perm_text mode) ≡ mode % 512
unfolding perm_text
read_perm-perm_text mode =
    rw
      (
        bit_back mode 256 b'r' (λ e. absurd (omega arith)),
        bit_back mode 128 b'w' (λ e. absurd (omega arith)),
        bit_back mode 64 b'x' (λ e. absurd (omega arith)),
        bit_back mode 32 b'r' (λ e. absurd (omega arith)),
        bit_back mode 16 b'w' (λ e. absurd (omega arith)),
        bit_back mode 8 b'x' (λ e. absurd (omega arith)),
        bit_back mode 4 b'r' (λ e. absurd (omega arith)),
        bit_back mode 2 b'w' (λ e. absurd (omega arith)),
        bit_back mode 1 b'x' (λ e. absurd (omega arith)),
      )
      (omega arith)
