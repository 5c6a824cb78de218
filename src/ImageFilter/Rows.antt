-- ===== src/ImageFilter/Rows.antt =====
-- The rows that the threads of cw08/zad1/zad1.c get.
use native.Mathlib.Nat.{
  mul-le-mul_left, mul-div_cancel_left, mul-div-le, mul_left_comm, div-mul-le_self, lt-mul-div-succ,
  lt_of_mul-lt-mul_left, mul-suc, mul-add,
}
use agh_so.Prelude.{
  ℕ, zero, suc, ◌+◌, ◌-◌, ◌*◌, ◌/◌, ◌<◌, ◌≤◌, ◌≡◌, ◌≢◌, ap, ◌∙◌, arith, dec_lt, ℕ_discrete, none,
}
use agh_so.ImageFilter.{start_of, end_of, create}

-- Row `x` belongs to thread number `i`, the one that is created with `2 * i`.
abbrev pub IsRowOf : ℕ → ℕ → ℕ → ℕ → Type 0
IsRowOf height t x i = (start_of height t (2 * i) ≤ x) × (x < end_of height t (2 * i))

start_lem : (height t i : ℕ) → start_of height t (2 * i) ≡ height / t * i
unfolding start_of
start_lem height t i =
    ap (λ n. n / 2) (mul_left_comm (height / t) 2 i)
    ∙ mul-div_cancel_left (height / t * i) (omega arith)

end_last : (height t i : ℕ) → i + 1 ≡ t → end_of height t (2 * i) ≡ height
unfolding end_of
end_last height t i e = ground arith

end_lem : (height t i : ℕ) → i + 1 < t → end_of height t (2 * i) ≡ height / t * (i + 1)
unfolding end_of
end_lem height t i lt = let half : 2 * i / 2 ≡ i = omega arith in ground (arith, half)

cut : (q x : ℕ) → q ≢ 0 → (q * (x / q) ≤ x) × (x < q * (x / q + 1))
cut q x h = (
  mul-div-le x q,
  omega (arith, lt-mul-div-succ x {b = q} (omega arith), mul-suc q (x / q), mul-add q (x / q) 1),
)

-- Between two multiples of `q`.
below : (q a b x : ℕ) → q * a ≤ x → x < q * (b + 1) → a ≤ b
below q a b x lo hi = elim (dec_lt b a) [
  | no ge ↦ omega arith
  | yes lt ↦ absurd (omega (arith, mul-le-mul_left {m = b + 1} {n = a} q (omega arith)))
]

module _ (height t : ℕ) (some_t : t ≢ 0) where
  -- The last thread's rows begin where those of the last but one end.
  pub start-le : (i : ℕ) → i < t → start_of height t (2 * i) ≤ height
  start-le i lt = omega (
    arith,
    start_lem height t i,
    mul-le-mul_left {m = i} {n = t} (height / t) (omega arith),
    div-mul-le_self height t,
  )

  pub end-le : (i : ℕ) → i < t → end_of height t (2 * i) ≤ height
  end-le i lt = elim (ℕ_discrete (i + 1) t) [
    | yes last ↦ omega (arith, end_last height t i last)
    | no more ↦ omega (
      arith,
      end_lem height t i (omega arith),
      mul-le-mul_left {m = i + 1} {n = t} (height / t) (omega arith),
      div-mul-le_self height t,
    )
  ]

  pub has_thread : (x : ℕ) → x < height → (i : ℕ) × (i < t) × IsRowOf height t x i
  has_thread x hx = elim (dec_lt x (height / t * (t - 1))) [
    | yes early ↦
        let q = height / t in
        let some_q : q ≢ 0 = λ z. omega (arith, early, ap (λ (k : ℕ). k * (t - 1)) z) in
        let (lo, hi) = cut q x some_q in
        let before : x / q + 1 < t =
          omega (arith, lt_of_mul-lt-mul_left q {m = x / q} {n = t - 1} (omega arith)) in
        (
          x / q,
          omega arith,
          (
            omega (arith, start_lem height t (x / q)),
            omega (arith, end_lem height t (x / q) before),
          ),
        )
    | no late ↦ (
      t - 1,
      omega arith,
      (
        omega (arith, start_lem height t (t - 1)),
        omega (arith, end_last height t (t - 1) (omega arith)),
      ),
    )
  ]

  one_thread : (x i j : ℕ) → i < t → j < t → IsRowOf height t x i → IsRowOf height t x j → i ≤ j
  one_thread x i j hi hj (lo, _) (_, up) = elim (ℕ_discrete (j + 1) t) [
    | yes last ↦ omega arith
    | no more ↦
        below (height / t) i j x (omega (arith, start_lem height t i))
          (omega (arith, end_lem height t j (omega arith)))
  ]

  -- Every row belongs to exactly one of the threads.
  pub rows_lem :
      (x : ℕ)
      → x < height
      → (i : ℕ) × (i < t) × IsRowOf height t x i × ((j : ℕ) → j < t → IsRowOf height t x j → j ≡ i)
  rows_lem x hx =
      let (i, hi, own) = has_thread x hx in
      (
        i,
        hi,
        own,
        λ j hj own'.
            omega (arith, one_thread x i j hi hj own own', one_thread x j i hj hi own' own),
      )

create_past : (height t rounds i : ℕ) → t ≤ i + 2 * rounds → create height t (suc rounds) i ≡ none
unfolding create
create_past height t zero i h = ground arith
create_past height t (suc rounds) i h =
    rw (create_past height t rounds (i + 2) (omega arith)) (ground arith)

-- With two or more threads an identifier is stored behind the array of identifiers.
pub create-none : (height t : ℕ) → 2 ≤ t → create height t t 0 ≡ none
create-none height zero h = absurd (omega arith)
create-none height (suc t) h = create_past height (suc t) t 0 (omega arith)
