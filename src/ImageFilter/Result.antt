-- ===== src/ImageFilter/Result.antt =====
-- What the threads of cw08/zad1/zad1.c make of the image.
use mathlib.Core.Path.{subst}
use agh_so.Prelude.{
  ℕ, ◌+◌, ◌*◌, ◌<◌, ◌≤◌, ◌≡◌, ◌≢◌, sym, ap, ◌∙◌, ◌⊎◌, inl, inr, some, arith, ℕ_discrete, dec_lt,
}
use agh_so.Prelude.Int.{ℤ}
use agh_so.ImageFilter.{Double, Grid, at, Input, pixel, start_routine, start_of, end_of}
use agh_so.ImageFilter.Threads.{Place, State, Step, Reach, AreDone, move}
use agh_so.ImageFilter.Cells.{IsGrid, put_lem, grid_ext}
use agh_so.ImageFilter.Pixel.{IsSized, pixel_total}
use agh_so.ImageFilter.Rows.{end-le, has_thread}
use agh_so.ImageFilter.Pass.{start_routine_lem}

-- A thread at `p` has passed the cell.
abbrev IsPast : Place → ℕ → ℕ → Type 0
IsPast p x y = (x < p.x) ⊎ ((x ≡ p.x) × (y < p.y))

move_same : (places : ℕ → Place) (i : ℕ) (p : Place) → move places i p i ≡ p
move_same places i p = ground arith

move_other : (places : ℕ → Place) (i : ℕ) (p : Place) (k : ℕ) → i ≢ k → move places i p k ≡ places k
move_other places i p k ne = ground arith

next_row-IsPast :
    (p : Place) (w x y : ℕ)
    → y < w
    → w ≤ p.y
    → IsPast (record { x = p.x + 1; y = 0 }) x y
    → IsPast p x y
next_row-IsPast p w x y hw wide (inl lt) = elim (dec_lt x p.x) [
  | yes before ↦ inl before
  | no here ↦ inr (omega arith, omega arith)
]
next_row-IsPast p w x y hw wide (inr (same, lt)) = absurd (omega arith)

write-IsPast :
    (p : Place) (x y : ℕ)
    → IsPast (record { x = p.x; y = p.y + 1 }) x y
    → (p.x ≢ x) ⊎ (p.y ≢ y)
    → IsPast p x y
write-IsPast p x y (inl lt) ne = inl lt
write-IsPast p x y (inr (same, lt)) (inl ne) = absurd (ne (sym same))
write-IsPast p x y (inr (same, lt)) (inr ne) = inr (same, omega arith)

module _ {d : Double} (g : Input d) (sized : IsSized g) (t : ℕ) (some_t : t ≢ 0) where
  -- The cells that a thread has passed hold their pixels.
  record IsFilled (s : State) : Type 0 where
    grid : IsGrid g.height g.width s.out
    filled :
        (k x y : ℕ)
        → k < t
        → start_of g.height t (2 * k) ≤ x
        → y < g.width
        → IsPast (s.places k) x y
        → at s.out x y ≡ pixel g x y

  -- A cell that is passed after a thread has moved.
  passes :
      (s : State) (i : ℕ) (p : Place) (k x y : ℕ)
      → IsPast (move s.places i p k) x y
      → ((i ≡ k) × IsPast p x y) ⊎ IsPast (s.places k) x y
  passes s i p k x y past = elim (ℕ_discrete i k) [
    | yes same ↦ inl (
      same,
      subst (λ q. IsPast q x y) (ap (move s.places i p) (sym same) ∙ move_same s.places i p) past,
    )
    | no other ↦ inr (subst (λ q. IsPast q x y) (move_other s.places i p k other) past)
  ]

  -- A cell other than the one that a thread writes.
  earlier :
      {s : State}
      → IsFilled s
      → (i k x y : ℕ) → k < t
      → start_of g.height t (2 * k) ≤ x
      → y < g.width
      → IsPast (move s.places i (record { x = (s.places i).x; y = (s.places i).y + 1 }) k) x y
      → ((s.places i).x ≢ x) ⊎ ((s.places i).y ≢ y)
      → at s.out x y ≡ pixel g x y
  earlier {s} v i k x y hk lo hw past ne =
      elim (passes s i (record { x = (s.places i).x; y = (s.places i).y + 1 }) k x y past) [
        | inr old ↦ v.filled k x y hk lo hw old
        | inl (same, new) ↦
            v.filled k x y hk lo hw
              (subst (λ j. IsPast (s.places j) x y) same (write-IsPast (s.places i) x y new ne))
      ]

  Step-IsFilled : {s u : State} → IsFilled s → Step g t s u → IsFilled u
  Step-IsFilled {s} v (Step.next_row i hi hx hy) = record {
    grid = v.grid;
    filled = λ k x y hk lo hw past.
        elim (passes s i (record { x = (s.places i).x + 1; y = 0 }) k x y past) [
          | inr old ↦ v.filled k x y hk lo hw old
          | inl (same, new) ↦
              v.filled i x y hi (subst (λ n. start_of g.height t (2 * n) ≤ x) (sym same) lo) hw
                (next_row-IsPast (s.places i) g.width x y hw hy new)
        ];
  }
  Step-IsFilled {s} v (Step.write i n out hi hx hy value wrote) =
      let p = s.places i in
      let (out', wrote', grid, here, others) =
        put_lem v.grid p.x p.y n (omega (arith, end-le g.height t some_t i hi)) hy in
      let same_out : out' ≡ out = cc in
      record {
        grid = subst (IsGrid g.height g.width) same_out grid;
        filled = λ k x y hk lo hw past.
            ap (λ o. at o x y) (sym same_out) ∙ elim (ℕ_discrete p.x x) [
              | no ne ↦ others x y (inl ne) ∙ earlier v i k x y hk lo hw past (inl ne)
              | yes same_x ↦ elim (ℕ_discrete p.y y) [
                | no ne ↦ others x y (inr ne) ∙ earlier v i k x y hk lo hw past (inr ne)
                | yes same_y ↦
                    ap (at out' x) (sym same_y)
                    ∙ ap (λ a. at out' a p.y) (sym same_x)
                    ∙ here
                    ∙ sym value
                    ∙ ap (λ a. pixel g a p.y) same_x
                    ∙ ap (pixel g x) same_y
              ]
            ];
      }

  Reach-IsFilled :
      {out : Grid ℤ} {s : State} → IsGrid g.height g.width out → Reach g t out s → IsFilled s
  Reach-IsFilled grid Reach.begin = record {
    grid = grid;
    filled = λ k x y hk lo hw past. elim past [
      | inl lt ↦ absurd (omega arith)
      | inr (same, lt) ↦ absurd (omega arith)
    ];
  }
  Reach-IsFilled grid (Reach.later r m) = Step-IsFilled (Reach-IsFilled grid r) m

-- If the arrays have the sizes that the files give and there is a thread: whatever the order of
-- their steps, when all threads have left their loops `img_out_array` is what a single pass over all
-- rows makes of it.
pub threads_lem :
    {d : Double} (g : Input d) (t : ℕ) (out : Grid ℤ) (s : State)
    → IsSized g
    → t ≢ 0
    → IsGrid g.height g.width out
    → Reach g t out s
    → AreDone g t s
    → start_routine g 0 g.height out ≡ some s.out
threads_lem g t out s sized some_t grid r done =
    let v = Reach-IsFilled g sized t some_t grid r in
    let (out', pass, all) =
      start_routine_lem g sized 0 g.height out (omega arith) (omega arith) grid in
    let same : out' ≡ s.out = grid_ext all.grid v.grid (λ x y hx hy.
      let (k, hk, (lo, hi)) = has_thread g.height t some_t x hx in
      all.filled x y (omega arith) hx hy
      ∙ sym (v.filled k x y hk lo hy (inl (omega (arith, done k hk))))) in
    pass ∙ ap some same

-- In every state that the threads can come to, a thread that has not left its loops can go on: it
-- reads and writes inside the arrays.
pub threads_go_on :
    {d : Double} (g : Input d) (t : ℕ) (out : Grid ℤ) (s : State) (i : ℕ)
    → IsSized g
    → t ≢ 0
    → IsGrid g.height g.width out
    → Reach g t out s
    → i < t
    → (s.places i).x < end_of g.height t (2 * i)
    → (u : State) × Step g t s u
threads_go_on g t out s i sized some_t grid r hi hx = elim (dec_lt (s.places i).y g.width) [
  | no wide ↦ (_, Step.next_row i hi hx (omega arith))
  | yes hy ↦
      let v = Reach-IsFilled g sized t some_t grid r in
      let inside : (s.places i).x < g.height = omega (arith, end-le g.height t some_t i hi) in
      let (n, value) = pixel_total g sized (s.places i).x (s.places i).y inside hy in
      let (out', wrote, _, _, _) = put_lem v.grid (s.places i).x (s.places i).y n inside hy in
      (_, Step.write i n out' hi hx hy value wrote)
]
