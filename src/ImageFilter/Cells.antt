-- ===== src/ImageFilter/Cells.antt =====
-- Reads and writes of the two-dimensional arrays of cw08/zad1/zad1.c.
use agh_so.Prelude.{
  get_elem?-lt, ℕ, suc, ◌<◌, ◌≡◌, ◌≢◌, refl, sym, ap, ◌∙◌, true, List, [], ◌∷◌, some, arith, ltb,
  ◌⊎◌, inl, inr, length, get_elem?, set, length-set, get_elem?-set_self, get_elem?-set_ne,
  ℕ_discrete,
}
use agh_so.ImageFilter.{Grid, at, put}

-- `h` rows of `w`.
pub record IsGrid {A : Type 0} (h w : ℕ) (rows : Grid A) : Type 0 where
  pub high : length rows ≡ h
  pub wide : (i : ℕ) (row : List A) → get_elem? rows i ≡ some row → length row ≡ w

list_ext :
    {A : Type 0} (xs ys : List A)
    → length xs ≡ length ys
    → ((i : ℕ) → i < length xs → get_elem? xs i ≡ get_elem? ys i)
    → xs ≡ ys
list_ext [] [] e same = refl
list_ext [] (y ∷ ys) e same = absurd (omega arith)
list_ext (x ∷ xs) [] e same = absurd (omega arith)
list_ext (x ∷ xs) (y ∷ ys) e same =
    let first : x ≡ y = cc (same 0 (omega arith)) in
    let rest = list_ext xs ys (omega arith) (λ i h. same (suc i) (omega arith)) in cc

module _ {A : Type 0} {h w : ℕ} {rows : Grid A} (g : IsGrid h w rows) where
  row_at : (i : ℕ) → i < h → (row : List A) × (get_elem? rows i ≡ some row) × (length row ≡ w)
  row_at i lt =
      let (row, e) = get_elem?-lt rows i (omega (arith, g.high)) in (row, e, g.wide i row e)

  pub at_lem : (i j : ℕ) → i < h → j < w → (v : A) × (at rows i j ≡ some v)
  at_lem i j hi hj =
      let (row, e, len) = row_at i hi in
      let (v, e') = get_elem?-lt row j (omega (arith, len)) in (v, rw (e, e') refl)

  -- A write to a cell that is there changes this cell only.
  pub put_lem :
      (i j : ℕ) (v : A)
      → i < h
      → j < w
      → (out : Grid A) × (put rows i j v ≡ some out)
        × IsGrid h w out
        × (at out i j ≡ some v)
        × ((i' j' : ℕ) → (i ≢ i') ⊎ (j ≢ j') → at out i' j' ≡ at rows i' j')
  put_lem i j v hi hj =
      let (row, e, len) = row_at i hi in
      let inside : ltb j (length row) ≡ true = ground (arith, len) in
      let here = get_elem?-set_self rows i (set row j v) (omega (arith, g.high)) in
      (
        set rows i (set row j v),
        rw (e, inside) refl,
        record {
          high = length-set rows i (set row j v) ∙ g.high;
          wide = λ i' row' e'. elim (ℕ_discrete i i') [
            | yes same ↦
                let new : row' ≡ set row j v =
                  cc (ap (get_elem? (set rows i (set row j v))) same) in
                ap length new ∙ length-set row j v ∙ len
            | no other ↦ g.wide i' row' (sym (get_elem?-set_ne rows (set row j v) other) ∙ e')
          ];
        },
        rw here (get_elem?-set_self row j v (omega (arith, len))),
        λ i' j' ne. elim (ℕ_discrete i i') [
          | no other ↦ rw (get_elem?-set_ne rows (set row j v) other) refl
          | yes same ↦ elim ne [
            | inl differs ↦ absurd (differs same)
            | inr differs ↦
                ap (λ k. at (set rows i (set row j v)) k j') (sym same)
                ∙ (rw (here, get_elem?-set_ne row v differs) (sym (rw e refl)))
                ∙ ap (λ k. at rows k j') same
          ]
        ],
      )

-- Arrays of one size with the same cells are the same.
pub grid_ext :
    {A : Type 0} {h w : ℕ} {rows rows' : Grid A}
    → IsGrid h w rows
    → IsGrid h w rows'
    → ((i j : ℕ) → i < h → j < w → at rows i j ≡ at rows' i j)
    → rows ≡ rows'
grid_ext {A} {h} {w} {rows} {rows'} g g' same = list_ext rows rows' (g.high ∙ sym g'.high) (λ i hi.
    let (row, e, len) = row_at g i (omega (arith, g.high)) in
    let (row', e', len') = row_at g' i (omega (arith, g.high)) in
    let equal : row ≡ row' = list_ext row row' (len ∙ sym len') (λ j hj.
      sym (rw e refl) ∙ same i j (omega (arith, g.high)) (omega (arith, len)) ∙ (rw e' refl)) in
    e ∙ ap some equal ∙ sym e')
