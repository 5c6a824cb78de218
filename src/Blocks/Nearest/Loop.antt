-- ===== src/Blocks/Nearest/Loop.antt =====
-- What `nearestDynamicSum` and `nearestStaticSum` of cw01/zad1/library.c find.
use agh_so.Prelude.{
  ℕ, zero, suc, ◌+◌, ◌-◌, ◌^◌, ◌≤◌, ◌<◌, ◌≡◌, refl, ◌∙◌, ◌≢◌, ◌⊎◌, inr, true, false, not, ◌&&◌,
  Option, some, arith, ◌==◌,
}
use agh_so.Prelude.Int.{ℤ, pos, negsuc, pos_part, neg_part, ◌-ℤ◌, ltb_ℤ}
use agh_so.CText.{int_of}
use agh_so.Blocks.Nearest.{abs_ℤ, nearest_from}

-- How far two sums are apart.
abbrev pub dist : ℤ → ℤ → ℕ
dist a b =
    (pos_part a + neg_part b - (pos_part b + neg_part a))
    + (pos_part b + neg_part a - (pos_part a + neg_part b))

-- The blocks before `al` have sums, none of which is near the bounds of `int`.
pub record AreSums (block_sum : ℕ → Option ℤ) (sums : ℕ → ℤ) (al : ℕ) : Type 0 where
  pub here : (i : ℕ) → i < al → block_sum i ≡ some (sums i)
  pub small : (i : ℕ) → i < al → pos_part (sums i) + neg_part (sums i) ≤ 2 ^ 29

diff_int :
    (a b : ℤ)
    → pos_part a + neg_part a ≤ 2 ^ 29
    → pos_part b + neg_part b ≤ 2 ^ 29
    → int_of (a -ℤ b) ≡ some (a -ℤ b)
unfolding int_of ◌-ℤ◌
diff_int a b ha hb = ground arith

pub abs-diff : (a b : ℤ) → abs_ℤ (a -ℤ b) ≡ pos (dist a b)
unfolding abs_ℤ ◌-ℤ◌
abs-diff a b = ground arith

module _ (block_sum : ℕ → Option ℤ) (sums : ℕ → ℤ) (al : ℕ) (v : AreSums block_sum sums al) (n : ℕ)
    (in_range : n < al) where
  -- A round that finds nothing nearer.
  pub round_skips :
      (kept : ℤ → ℤ) (rounds i at : ℕ) (diff : ℤ)
      → i < al
      → (i ≡ n) ⊎ (ltb_ℤ (pos (dist (sums i) (sums n))) diff ≡ false)
      → nearest_from block_sum kept (sums n) n (suc rounds) i at diff
        ≡ nearest_from block_sum kept (sums n) n rounds (i + 1) at diff
  unfolding nearest_from
  round_skips kept rounds i at diff hi far =
      let stays : (ltb_ℤ (abs_ℤ (sums i -ℤ sums n)) diff && not (i == n)) ≡ false =
        rw (abs-diff (sums i) (sums n)) (ground arith) in
      rw (v.here i hi, diff_int (sums i) (sums n) (v.small i hi) (v.small n in_range), stays)

  -- A round that finds something nearer.
  pub round_takes :
      (kept : ℤ → ℤ) (rounds i at : ℕ) (diff : ℤ)
      → i < al
      → i ≢ n
      → ltb_ℤ (pos (dist (sums i) (sums n))) diff ≡ true
      → nearest_from block_sum kept (sums n) n (suc rounds) i at diff
        ≡ nearest_from block_sum kept (sums n) n rounds (i + 1) i (kept (sums i -ℤ sums n))
  unfolding nearest_from
  round_takes kept rounds i at diff hi ne near =
      let moves : (ltb_ℤ (abs_ℤ (sums i -ℤ sums n)) diff && not (i == n)) ≡ true =
        rw (abs-diff (sums i) (sums n), near) (ground arith) in
      rw (v.here i hi, diff_int (sums i) (sums n) (v.small i hi) (v.small n in_range), moves)

  -- Once `sumdiff` is negative, nothing is nearer.
  pub stuck :
      (kept : ℤ → ℤ) (rounds i at d : ℕ)
      → i + rounds ≡ al
      → nearest_from block_sum kept (sums n) n rounds i at (negsuc d) ≡ some at
  unfolding nearest_from
  stuck kept zero i at d e = refl
  stuck kept (suc rounds) i at d e =
      round_skips kept rounds i at (negsuc d) (omega arith) (inr (ground arith))
      ∙ stuck kept rounds (i + 1) at d (omega arith)
