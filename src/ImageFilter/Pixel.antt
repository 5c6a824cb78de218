-- ===== src/ImageFilter/Pixel.antt =====
-- Every pixel of cw08/zad1/zad1.c is computed inside the arrays.
use agh_so.Prelude.{ℕ, zero, suc, ◌+◌, ◌<◌, ◌≡◌, refl, some, arith}
use agh_so.Prelude.Int.{ℤ}
use agh_so.ImageFilter.{Double, Input, clamp, sum_columns, sum_rows, pixel}
use agh_so.ImageFilter.Cells.{IsGrid, at_lem}

-- The arrays have the sizes that the files give.
pub record IsSized {d : Double} (g : Input d) : Type 0 where
  pub image : IsGrid g.height g.width g.img_in
  pub square : IsGrid g.c g.c g.filter

pub clamp-lt : (size c x i : ℕ) → 0 < size → clamp size c x i < size
unfolding clamp
clamp-lt size c x i h = ground arith

module _ {d : Double} (g : Input d) (sized : IsSized g) (x y : ℕ) (hx : x < g.height)
    (hy : y < g.width) where
  sum_columns_total :
      (i rounds j : ℕ) (s : d.Real)
      → i < g.c
      → j + rounds ≡ g.c
      → (r : d.Real) × (sum_columns g x y i rounds j s ≡ some r)
  unfolding sum_columns
  sum_columns_total i zero j s hi e = (s, refl)
  sum_columns_total i (suc rounds) j s hi e =
      let (n, read) =
        at_lem sized.image (clamp g.height g.c x i) (clamp g.width g.c y j)
          (clamp-lt g.height g.c x i (omega arith)) (clamp-lt g.width g.c y j (omega arith)) in
      let (f, read') = at_lem sized.square i j hi (omega arith) in
      let (r, rest) =
        sum_columns_total i rounds (j + 1) (d.add s (d.mul (d.of_int n) f)) hi (omega arith) in
      (r, rw (read, read') rest)

  sum_rows_total :
      (rounds i : ℕ) (s : d.Real)
      → i + rounds ≡ g.c
      → (r : d.Real) × (sum_rows g x y rounds i s ≡ some r)
  unfolding sum_rows
  sum_rows_total zero i s e = (s, refl)
  sum_rows_total (suc rounds) i s e =
      let (r, row) = sum_columns_total i g.c 0 s (omega arith) (omega arith) in
      let (r', rest) = sum_rows_total rounds (i + 1) r (omega arith) in (r', rw row rest)

  pub pixel_total : (n : ℤ) × (pixel g x y ≡ some n)
  unfolding pixel
  pixel_total = let (r, e) = sum_rows_total g.c 0 d.nought (omega arith) in (d.round r, rw e refl)
