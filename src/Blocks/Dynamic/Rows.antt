-- ===== src/Blocks/Dynamic/Rows.antt =====
-- The loops of cw01/zad1/library.c that move a row to its place and to the end.
use mathlib.Core.List.{append_assoc}
use agh_so.Prelude.{
  ℕ, zero, suc, ◌+◌, ◌≡◌, refl, sym, ap, ◌∙◌, List, [], ◌∷◌, ◌++◌, arith, length, length-append,
  split_last,
}
use agh_so.Blocks.Dynamic.{swap_rows, move_back, move_end}

-- Two neighbours change places.
swap_rows-next :
    (a : List ℕ) (x y : ℕ) (b : List ℕ) (i j : ℕ)
    → i ≡ length a
    → j ≡ length a + 1
    → (swap_rows (a ++ x ∷ y ∷ b) i j ≡ a ++ y ∷ x ∷ b)
      × (swap_rows (a ++ x ∷ y ∷ b) j i ≡ a ++ y ∷ x ∷ b)
swap_rows-next [] x y b zero zero ei ej = absurd (omega arith)
swap_rows-next [] x y b zero (suc zero) ei ej = (refl, refl)
swap_rows-next [] x y b zero (suc (suc j)) ei ej = absurd (omega arith)
swap_rows-next [] x y b (suc i) j ei ej = absurd (omega arith)
swap_rows-next (c ∷ a) x y b zero j ei ej = absurd (omega arith)
swap_rows-next (c ∷ a) x y b (suc i) zero ei ej = absurd (omega arith)
swap_rows-next (c ∷ a) x y b (suc i) (suc j) ei ej =
    let (there, back) = swap_rows-next a x y b i j (omega arith) (omega arith) in
    (ap (λ l. c ∷ l) there, ap (λ l. c ∷ l) back)

-- A row moved to the end.
pub move_end-append :
    (b a : List ℕ) (x : ℕ) (at : ℕ)
    → at ≡ length a
    → move_end (length b) at (a ++ x ∷ b) ≡ a ++ (b ++ x ∷ [])
unfolding move_end
move_end-append [] a x at e = refl
move_end-append (y ∷ b) a x at e =
    ap (move_end (length b) (at + 1)) (
      (swap_rows-next a x y b at (at + 1) e (omega arith)).1
      ∙ sym (append_assoc a (y ∷ []) (x ∷ b)))
    ∙ move_end-append b (a ++ y ∷ []) x (at + 1) (omega (arith, length-append a (y ∷ [])))
    ∙ append_assoc a (y ∷ []) (b ++ x ∷ [])

move_back-last :
    (k : ℕ) (a b : List ℕ) (y x : ℕ) (c : List ℕ) (n : ℕ)
    → n ≡ length a
    → k ≡ length b
    → move_back (suc k) n (a ++ ((b ++ y ∷ []) ++ x ∷ c)) ≡ move_back k n (a ++ (b ++ x ∷ y ∷ c))
unfolding move_back
move_back-last k a b y x c n en ek =
    let front : a ++ ((b ++ y ∷ []) ++ x ∷ c) ≡ (a ++ b) ++ y ∷ x ∷ c = simp append_assoc in
    rw (
      front,
      (swap_rows-next (a ++ b) y x c (n + k) (n + k + 1) (omega (arith, length-append a b))
          (omega (arith, length-append a b))).0,
      append_assoc a b (x ∷ y ∷ c),
    )

-- A row moved down to place `n`.
pub move_back-append :
    (k : ℕ) (a b : List ℕ) (x : ℕ) (c : List ℕ) (n : ℕ)
    → n ≡ length a
    → k ≡ length b
    → move_back k n (a ++ (b ++ x ∷ c)) ≡ a ++ x ∷ (b ++ c)
move_back-append zero a [] x c n en ek = unfold move_back in refl
move_back-append zero a (y ∷ b) x c n en ek = absurd (omega arith)
move_back-append (suc k) a [] x c n en ek = absurd (omega arith)
move_back-append (suc k) a (z ∷ b) x c n en ek =
    let (b', y, e) = split_last z b in
    let size : k ≡ length b' = omega (arith, ap length e, length-append b' (y ∷ [])) in
    ap (λ l. move_back (suc k) n (a ++ (l ++ x ∷ c))) e
    ∙ move_back-last k a b' y x c n en size
    ∙ move_back-append k a b' x (y ∷ c) n en size
    ∙ ap (λ l. a ++ x ∷ l) (sym (append_assoc b' (y ∷ []) c) ∙ ap (λ l. l ++ c) (sym e))
