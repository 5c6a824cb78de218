-- ===== src/ImageFilter/Pass.antt =====
-- One pass of cw08/zad1/zad1.c over some rows.
use agh_so.Prelude.{
  ℕ, zero, suc, ◌+◌, ◌-◌, ◌<◌, ◌≤◌, ◌≡◌, ◌≢◌, refl, sym, ap, ◌∙◌, ◌⊎◌, inl, inr, some, arith,
  ℕ_discrete,
}
use agh_so.Prelude.Int.{ℤ}
use agh_so.ImageFilter.{Double, Grid, at, Input, pixel, fill_row, fill_rows, start_routine}
use agh_so.ImageFilter.Cells.{IsGrid, put_lem}
use agh_so.ImageFilter.Pixel.{IsSized, pixel_total}

module _ {d : Double} (g : Input d) (sized : IsSized g) where
  -- The cells from `y` on of row `x` are filled, and no others are changed.
  record IsRowDone (x y : ℕ) (out out' : Grid ℤ) : Type 0 where
    grid : IsGrid g.height g.width out'
    filled : (j : ℕ) → y ≤ j → j < g.width → at out' x j ≡ pixel g x j
    kept : (i j : ℕ) → (x ≢ i) ⊎ (j < y) → at out' i j ≡ at out i j

  fill_row_lem :
      (x rounds y : ℕ) (out : Grid ℤ)
      → x < g.height
      → y + rounds ≡ g.width
      → IsGrid g.height g.width out
      → (out' : Grid ℤ) × (fill_row g x rounds y out ≡ some out') × IsRowDone x y out out'
  unfolding fill_row
  fill_row_lem x zero y out hx e grid = (
    out,
    refl,
    record { grid = grid; filled = λ j lo hi. absurd (omega arith); kept = λ i j _. refl },
  )
  fill_row_lem x (suc rounds) y out hx e grid =
      let (n, value) = pixel_total g sized x y hx (omega arith) in
      let (out1, wrote, grid1, here, others) = put_lem grid x y n hx (omega arith) in
      let (out', rest, done) = fill_row_lem x rounds (y + 1) out1 hx (omega arith) grid1 in
      (
        out',
        rw (value, wrote) rest,
        record {
          grid = done.grid;
          filled = λ j lo hi. elim (ℕ_discrete y j) [
            | yes same ↦
                ap (at out' x) (sym same)
                ∙ done.kept x y (inr (omega arith))
                ∙ here
                ∙ sym value
                ∙ ap (pixel g x) same
            | no more ↦ done.filled j (omega arith) hi
          ];
          kept = λ i j other. elim other [
            | inl ne ↦ done.kept i j (inl ne) ∙ others i j (inl ne)
            | inr lt ↦ done.kept i j (inr (omega arith)) ∙ others i j (inr (λ z. omega arith))
          ];
        },
      )

  -- The rows from `x` to `end` are filled, and no others are changed.
  pub record AreRowsDone (x end : ℕ) (out out' : Grid ℤ) : Type 0 where
    pub grid : IsGrid g.height g.width out'
    pub filled : (i j : ℕ) → x ≤ i → i < end → j < g.width → at out' i j ≡ pixel g i j
    pub kept : (i j : ℕ) → (i < x) ⊎ (end ≤ i) → at out' i j ≡ at out i j

  fill_rows_lem :
      (rounds x : ℕ) (out : Grid ℤ)
      → x + rounds ≤ g.height
      → IsGrid g.height g.width out
      → (out' : Grid ℤ) × (fill_rows g rounds x out ≡ some out')
        × AreRowsDone x (x + rounds) out out'
  unfolding fill_rows
  fill_rows_lem zero x out fits grid = (
    out,
    refl,
    record { grid = grid; filled = λ i j lo hi. absurd (omega arith); kept = λ i j _. refl },
  )
  fill_rows_lem (suc rounds) x out fits grid =
      let (out1, row, first) = fill_row_lem x g.width 0 out (omega arith) (omega arith) grid in
      let (out', rest, done) = fill_rows_lem rounds (x + 1) out1 (omega arith) first.grid in
      (
        out',
        rw row rest,
        record {
          grid = done.grid;
          filled = λ i j lo hi hj. elim (ℕ_discrete x i) [
            | yes same ↦
                done.kept i j (inl (omega arith))
                ∙ ap (λ k. at out1 k j) (sym same)
                ∙ first.filled j (omega arith) hj
                ∙ ap (λ k. pixel g k j) same
            | no more ↦ done.filled i j (omega arith) (omega arith) hj
          ];
          kept = λ i j other. elim other [
            | inl lt ↦ done.kept i j (inl (omega arith)) ∙ first.kept i j (inl (λ z. omega arith))
            | inr ge ↦ done.kept i j (inr (omega arith)) ∙ first.kept i j (inl (λ z. omega arith))
          ];
        },
      )

  pub start_routine_lem :
      (start end : ℕ) (out : Grid ℤ)
      → start ≤ end
      → end ≤ g.height
      → IsGrid g.height g.width out
      → (out' : Grid ℤ) × (start_routine g start end out ≡ some out')
        × AreRowsDone start end out out'
  unfolding start_routine
  start_routine_lem start end out lo hi grid =
      let (out', run, done) = fill_rows_lem (end - start) start out (omega arith) grid in
      (
        out',
        run,
        record {
          grid = done.grid;
          filled = λ i j a b. done.filled i j a (omega arith);
          kept = λ i j other.
              done.kept i j (elim other [ inl lt ↦ inl lt | inr ge ↦ inr (omega arith) ]);
        },
      )
