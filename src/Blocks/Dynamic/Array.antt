-- ===== src/Blocks/Dynamic/Array.antt =====
-- The array of pointers of cw01/zad1/library.c as a list of texts.
use mathlib.Core.Path.{ap₂}
use mathlib.Core.List.{map-append}
use agh_so.Prelude.{
  ℕ, zero, suc, ◌+◌, ◌≤◌, ◌<◌, ◌≡◌, refl, sym, ap, ◌∙◌, ◌≢◌, List, [], ◌∷◌, ◌++◌, map, Option, some,
  none, arith, length, get_elem?,
}
use agh_so.CText.{Text}
use agh_so.Blocks.Dynamic.{Heap, put_block}

-- The texts of the rows.
abbrev pub contents : Heap → List ℕ → List (Option Text)
contents h ar = map h.block ar

abbrev pub Absent : ℕ → List ℕ → Type 0
Absent p [] = Unit
Absent p (q ∷ ar) = (p ≢ q) × Absent p ar

-- The rows are different blocks of `bl` characters.
abbrev pub Rows : (ℕ → Option Text) → ℕ → List ℕ → Type 0
Rows f bl [] = Unit
Rows f bl (p ∷ ar) = ((c : Text) × (f p ≡ some c) × (length c ≡ bl)) × Absent p ar × Rows f bl ar

pub record IsArray (h : Heap) (bl : ℕ) (ar : List ℕ) : Type 0 where
  pub rows : Rows h.block bl ar
  pub fresh : (p : ℕ) → h.next ≤ p → h.block p ≡ none

-- What is not allocated is no row.
pub Absent-free :
    (f : ℕ → Option Text) (bl p : ℕ) (ar : List ℕ) → Rows f bl ar → f p ≡ none → Absent p ar
Absent-free f bl p [] r e = tt
Absent-free f bl p (q ∷ ar) ((c, here, _), _, r) e =
    ((λ same. cc (ap f same)), Absent-free f bl p ar r e)

pub map-put_block :
    (f : ℕ → Option Text) (p : ℕ) (c : Option Text) (ar : List ℕ)
    → Absent p ar
    → map (put_block f p c) ar ≡ map f ar
map-put_block f p c [] a = refl
map-put_block f p c (q ∷ ar) (ne, a) = ground (arith, map-put_block f p c ar a)

Rows-put_block :
    (f : ℕ → Option Text) (bl p : ℕ) (c : Option Text) (ar : List ℕ)
    → Absent p ar
    → Rows f bl ar
    → Rows (put_block f p c) bl ar
Rows-put_block f bl p c [] a r = tt
Rows-put_block f bl p c (q ∷ ar) (ne, a) ((d, here, len), other, r) =
    ((d, ground arith, len), other, Rows-put_block f bl p c ar a r)

Absent-insert : (q p : ℕ) (a b : List ℕ) → q ≢ p → Absent q (a ++ b) → Absent q (a ++ p ∷ b)
Absent-insert q p [] b ne h = (ne, h)
Absent-insert q p (x ∷ a) b ne (here, h) = (here, Absent-insert q p a b ne h)

Rows-insert :
    (f : ℕ → Option Text) (bl p : ℕ) (a b : List ℕ) (c : Text)
    → f p ≡ some c
    → length c ≡ bl
    → Absent p (a ++ b)
    → Rows f bl (a ++ b)
    → Rows f bl (a ++ p ∷ b)
Rows-insert f bl p [] b c e len absent r = ((c, e, len), absent, r)
Rows-insert f bl p (x ∷ a) b c e len (ne, absent) (here, other, r) = (
  here,
  Absent-insert x p a b (λ same. ne (sym same)) other,
  Rows-insert f bl p a b c e len absent r,
)

Absent-remove : (q p : ℕ) (a b : List ℕ) → Absent q (a ++ p ∷ b) → (q ≢ p) × Absent q (a ++ b)
Absent-remove q p [] b h = h
Absent-remove q p (x ∷ a) b (here, h) =
    let (ne, rest) = Absent-remove q p a b h in (ne, (here, rest))

Rows-remove :
    (f : ℕ → Option Text) (bl p : ℕ) (a b : List ℕ)
    → Rows f bl (a ++ p ∷ b)
    → ((c : Text) × (f p ≡ some c)) × Absent p (a ++ b) × Rows f bl (a ++ b)
Rows-remove f bl p [] b ((c, e, _), absent, r) = ((c, e), absent, r)
Rows-remove f bl p (x ∷ a) b (here, other, r) =
    let (found, absent, rest) = Rows-remove f bl p a b r in
    let (ne, other') = Absent-remove x p a b other in
    (found, ((λ same. ne (sym same)), absent), (here, other', rest))

Absent-append : (p : ℕ) (a b : List ℕ) → Absent p (a ++ b) → Absent p a × Absent p b
Absent-append p [] b h = (tt, h)
Absent-append p (x ∷ a) b (ne, h) = let (left, right) = Absent-append p a b h in ((ne, left), right)

-- A new block between two parts of the array.
pub contents-insert :
    (h : Heap) (bl : ℕ) (a b : List ℕ) (c : Text)
    → IsArray h bl (a ++ b)
    → length c ≡ bl
    → let h' : Heap = record h { block = put_block h.block h.next (some c); next = h.next + 1 } in
      (contents h' (a ++ h.next ∷ b) ≡ contents h a ++ some c ∷ contents h b)
      × IsArray h' bl (a ++ h.next ∷ b)
contents-insert h bl a b c v len =
    let absent = Absent-free h.block bl h.next (a ++ b) v.rows (v.fresh h.next (omega arith)) in
    let (absent_a, absent_b) = Absent-append h.next a b absent in
    let f : ℕ → Option Text = put_block h.block h.next (some c) in
    let here : f h.next ≡ some c = ground arith in
    (
      map-append f a (h.next ∷ b)
          ∙ ap₂ ◌++◌ (map-put_block h.block h.next (some c) a absent_a)
              (ap₂ ◌∷◌ here (map-put_block h.block h.next (some c) b absent_b)),
      record {
        rows =
            Rows-insert f bl h.next a b c here len absent
              (Rows-put_block h.block bl h.next (some c) (a ++ b) absent v.rows);
        fresh = λ p ge. ground (arith, v.fresh p);
      },
    )

-- A block of the array freed and left out.
pub contents-remove :
    (h : Heap) (bl p : ℕ) (a b : List ℕ)
    → IsArray h bl (a ++ p ∷ b)
    → let h' : Heap = record h { block = put_block h.block p none } in
      (contents h' (a ++ b) ≡ contents h a ++ contents h b) × IsArray h' bl (a ++ b)
contents-remove h bl p a b v =
    let (found, absent, rest) = Rows-remove h.block bl p a b v.rows in
    (
      map-put_block h.block p none (a ++ b) absent ∙ map-append h.block a b,
      record {
        rows = Rows-put_block h.block bl p none (a ++ b) absent rest;
        fresh = λ q ge. ground (arith, v.fresh q);
      },
    )

-- A row points to a block of `bl` characters.
pub Rows-get :
    (f : ℕ → Option Text) (bl : ℕ) (ar : List ℕ) (n : ℕ)
    → Rows f bl ar
    → n < length ar
    → (p : ℕ) × (c : Text) × (get_elem? ar n ≡ some p) × (f p ≡ some c) × (length c ≡ bl)
Rows-get f bl [] n r h = elim h [ ]
Rows-get f bl (p ∷ ar) zero ((c, e, len), _, _) h = (p, c, refl, e, len)
Rows-get f bl (p ∷ ar) (suc n) (_, _, r) h = Rows-get f bl ar n r (omega arith)

pub row_allocated :
    (f : ℕ → Option Text) (bl p : ℕ) (a b : List ℕ)
    → Rows f bl (a ++ p ∷ b)
    → (c : Text) × (f p ≡ some c)
row_allocated f bl p a b r = (Rows-remove f bl p a b r).0
