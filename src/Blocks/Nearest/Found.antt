-- ===== src/Blocks/Nearest/Found.antt =====
-- What the searches for the nearest sum of cw01/zad1/library.c return.
use mathlib.Core.Path.{subst, subst₂}
use agh_so.Prelude.{
  ◌-◌, ℕ, zero, suc, ◌+◌, ◌≤◌, ◌<◌, ◌≡◌, refl, sym, ◌∙◌, ◌≢◌, ◌⊎◌, inl, inr, ap, true, false,
  Bool-cases, List, Option, some, arith, leb, ℕ_discrete,
}
use agh_so.Prelude.Int.{ℤ, pos, negsuc, pos_part, neg_part, ◌-ℤ◌, ltb_ℤ}
use agh_so.Blocks.Bytes.{Memory, no_blocks}
use agh_so.Blocks.Dynamic.{Heap}
use agh_so.Blocks.Nearest.{
  abs_ℤ, nearest_from, row_sum, nearest_dynamic_sum, text_sum, block_sum, nearest_static_sum,
}
use agh_so.Blocks.Nearest.Loop.{dist, AreSums, abs-diff, round_skips, round_takes, stuck}

-- The index found among the blocks before `i`, with the difference that goes with it: a block other
-- than `n`, nearer than the sum of block `n` itself, or index 0 when there is none.
pub record IsNearest (sums : ℕ → ℤ) (n i at : ℕ) (diff : ℤ) : Type 0 where
  pub found :
      ((at ≡ 0) × (diff ≡ sums n))
      ⊎ ((at < i)
          × (at ≢ n)
          × (diff ≡ pos (dist (sums at) (sums n)))
          × (ltb_ℤ diff (sums n) ≡ true))
  pub best : (j : ℕ) → j < i → j ≢ n → ltb_ℤ (pos (dist (sums j) (sums n))) diff ≡ false

ltb_trans :
    (a b : ℕ) (z : ℤ)
    → ltb_ℤ (pos a) z ≡ true
    → ltb_ℤ (pos b) z ≡ false
    → ltb_ℤ (pos b) (pos a) ≡ false
ltb_trans a b z h k = ground arith

ltb_ℤ-trans : (a b c : ℤ) → ltb_ℤ a b ≡ true → ltb_ℤ b c ≡ true → ltb_ℤ a c ≡ true
ltb_ℤ-trans a b c h k = ground arith

-- What a round tests.
near_cases :
    (sums : ℕ → ℤ) (n i : ℕ) (diff : ℤ)
    → ((i ≡ n) ⊎ (ltb_ℤ (pos (dist (sums i) (sums n))) diff ≡ false))
      ⊎ ((i ≢ n) × (ltb_ℤ (pos (dist (sums i) (sums n))) diff ≡ true))
near_cases sums n i diff = elim (ℕ_discrete i n) [
  | yes here ↦ inl (inl here)
  | no ne ↦ elim (Bool-cases (ltb_ℤ (pos (dist (sums i) (sums n))) diff)) [
    | inl near ↦ inr (ne, near)
    | inr far ↦ inl (inr far)
  ]
]

dist_step :
    (sums : ℕ → ℤ) (n i at : ℕ) (diff : ℤ)
    → IsNearest sums n i at diff
    → (i ≡ n) ⊎ (ltb_ℤ (pos (dist (sums i) (sums n))) diff ≡ false)
    → IsNearest sums n (i + 1) at diff
dist_step sums n i at diff v far = record {
  found = elim v.found [
    | inl none_yet ↦ inl none_yet
    | inr (lt, ne, is, less) ↦ inr (omega arith, ne, is, less)
  ];
  best = λ j hj ne. elim (ℕ_discrete j i) [
    | yes same ↦ elim far [
      | inl here ↦ absurd (ne (same ∙ here))
      | inr ge ↦ subst (λ k. ltb_ℤ (pos (dist (sums k) (sums n))) diff ≡ false) (sym same) ge
    ]
    | no other ↦ v.best j (omega arith) ne
  ];
}

take_step :
    (sums : ℕ → ℤ) (n i at : ℕ) (diff : ℤ)
    → IsNearest sums n i at diff
    → i ≢ n
    → ltb_ℤ (pos (dist (sums i) (sums n))) diff ≡ true
    → IsNearest sums n (i + 1) i (pos (dist (sums i) (sums n)))
take_step sums n i at diff v ne near = record {
  found = inr (omega arith, ne, refl, below);
  best = λ j hj nj. elim (ℕ_discrete j i) [
    | yes same ↦
        subst (λ k. ltb_ℤ (pos (dist (sums k) (sums n))) (pos (dist (sums i) (sums n))) ≡ false)
          (sym same) (ground arith)
    | no other ↦
        ltb_trans (dist (sums i) (sums n)) (dist (sums j) (sums n)) diff near
          (v.best j (omega arith) nj)
  ];
}
  where
    below : ltb_ℤ (pos (dist (sums i) (sums n))) (sums n) ≡ true
    below = elim v.found [
      | inl (_, is) ↦ subst (λ d. ltb_ℤ (pos (dist (sums i) (sums n))) d ≡ true) is near
      | inr (_, _, _, less) ↦ ltb_ℤ-trans (pos (dist (sums i) (sums n))) diff (sums n) near less
    ]

module _ (block_sum : ℕ → Option ℤ) (sums : ℕ → ℤ) (al : ℕ) (v : AreSums block_sum sums al) (n : ℕ)
    (in_range : n < al) where
  pub nearest_from-IsNearest :
      (rounds i at : ℕ) (diff : ℤ)
      → i + rounds ≡ al
      → IsNearest sums n i at diff
      → (found : ℕ) × (end : ℤ) × (nearest_from block_sum abs_ℤ (sums n) n rounds i at diff
          ≡ some found)
        × IsNearest sums n al found end
  unfolding nearest_from
  nearest_from-IsNearest zero i at diff e w =
      (at, diff, refl, subst (λ k. IsNearest sums n k at diff) (omega arith) w)
  nearest_from-IsNearest (suc rounds) i at diff e w = elim (near_cases sums n i diff) [
    | inl far ↦
        let (found, end, run, good) =
          nearest_from-IsNearest rounds (i + 1) at diff (omega arith)
            (dist_step sums n i at diff w far) in
        (
          found,
          end,
          round_skips block_sum sums al v n in_range abs_ℤ rounds i at diff (omega arith) far ∙ run,
          good,
        )
    | inr (ne, near) ↦
        let (found, end, run, good) =
          nearest_from-IsNearest rounds (i + 1) i (pos (dist (sums i) (sums n))) (omega arith)
            (take_step sums n i at diff w ne near) in
        (
          found,
          end,
          round_takes block_sum sums al v n in_range abs_ℤ rounds i at diff (omega arith) ne near
              ∙ ap (nearest_from block_sum abs_ℤ (sums n) n rounds (i + 1) i)
                  (abs-diff (sums i) (sums n))
              ∙ run,
          good,
        )
  ]

-- `nearestDynamicSum` returns a block other than `n` whose sum is nearest to that of `n`, if some
-- block is nearer than the sum of `n` itself, else 0; and -1 outside the array.
pub nearest_dynamic_sum_lem :
    (h : Heap) (ar : List ℕ) (al n : ℕ) (sums : ℕ → ℤ)
    → AreSums (row_sum h ar) sums al
    → (al ≤ n → nearest_dynamic_sum h (pos n) al ar ≡ some (negsuc 0))
      × (n < al
          → (at : ℕ) × (diff : ℤ) × (nearest_dynamic_sum h (pos n) al ar ≡ some (pos at))
            × IsNearest sums n al at diff)
unfolding nearest_dynamic_sum
nearest_dynamic_sum_lem h ar al n sums v = (
  λ out. let outside : leb al n ≡ true = ground arith in rw outside refl,
  λ lt.
      let inside : leb al n ≡ false = ground arith in
      let start : IsNearest sums n 0 0 (sums n) = record {
        found = inl (refl, refl);
        best = λ j hj. absurd (omega arith);
      } in
      let (at, end, run, good) =
        nearest_from-IsNearest (row_sum h ar) sums al v n lt al 0 0 (sums n) (omega arith) start in
      (at, end, rw (inside, v.here n lt, run), good),
)

negative : (a b : ℤ) → ltb_ℤ a b ≡ true → (d : ℕ) × (a -ℤ b ≡ negsuc d)
unfolding ◌-ℤ◌
negative a b h = (pos_part b + neg_part a - (pos_part a + neg_part b) - 1, ground arith)

-- The rounds before the first near block, that block, and the rest of the loop.
first_near :
    (m : Memory) (n i : ℕ) (sums : ℕ → ℤ)
    → AreSums (block_sum m) sums no_blocks
    → n < no_blocks
    → i ≢ n
    → ltb_ℤ (pos (dist (sums i) (sums n))) (sums n) ≡ true
    → ltb_ℤ (sums i) (sums n) ≡ true
    → ((j : ℕ) → j < i → (j ≡ n) ⊎ (ltb_ℤ (pos (dist (sums j) (sums n))) (sums n) ≡ false))
    → (k j rest : ℕ) → j + k ≡ i
    → i + suc rest ≡ no_blocks
    → nearest_from (block_sum m) (λ d. d) (sums n) n (k + suc rest) j 0 (sums n) ≡ some i
first_near m n i sums v lt ne near less before zero j rest e total =
    let at_i : j ≡ i = omega arith in
    let (d, is) = negative (sums i) (sums n) less in
    let rounds : suc rest ≡ 0 + suc rest = omega arith in
    subst₂ (λ r l. nearest_from (block_sum m) (λ d. d) (sums n) n r l 0 (sums n) ≡ some i) rounds
      (sym at_i)
      (round_takes (block_sum m) sums no_blocks v n lt (λ d. d) rest i 0 (sums n) (omega arith) ne
          near
        ∙ ap (nearest_from (block_sum m) (λ d. d) (sums n) n rest (i + 1) i) is
        ∙ stuck (block_sum m) sums no_blocks v n lt (λ d. d) rest (i + 1) i d (omega arith))
first_near m n i sums v lt ne near less before (suc k) j rest e total =
    let rounds : suc (k + suc rest) ≡ suc k + suc rest = omega arith in
    subst (λ r. nearest_from (block_sum m) (λ d. d) (sums n) n r j 0 (sums n) ≡ some i) rounds
      (round_skips (block_sum m) sums no_blocks v n lt (λ d. d) (k + suc rest) j 0 (sums n)
          (omega arith) (before j (omega arith))
        ∙ first_near m n i sums v lt ne near less before k (j + 1) rest (omega arith) total)

-- `nearestStaticSum` keeps a difference with its sign. A first near block `i` whose sum is smaller
-- than that of `n` is returned, however near the blocks after it are.
pub nearest_static_sum_first :
    (m : Memory) (n i : ℕ) (sums : ℕ → ℤ)
    → AreSums (block_sum m) sums no_blocks
    → n < no_blocks
    → text_sum m n ≡ some (sums n)
    → i < no_blocks
    → i ≢ n
    → ltb_ℤ (pos (dist (sums i) (sums n))) (sums n) ≡ true
    → ltb_ℤ (sums i) (sums n) ≡ true
    → ((j : ℕ) → j < i → (j ≡ n) ⊎ (ltb_ℤ (pos (dist (sums j) (sums n))) (sums n) ≡ false))
    → nearest_static_sum m (pos n) ≡ some (pos i)
unfolding nearest_static_sum
nearest_static_sum_first m n i sums v lt text hi ne near less before =
    let inside : leb no_blocks n ≡ false = ground arith in
    let rounds : i + suc (no_blocks - i - 1) ≡ no_blocks = omega arith in
    let run =
      subst (λ r. nearest_from (block_sum m) (λ d. d) (sums n) n r 0 0 (sums n) ≡ some i) rounds
        (first_near m n i sums v lt ne near less before i 0 (no_blocks - i - 1) (omega arith)
          rounds) in
    rw (inside, text, run) refl
