-- ===== src/MsgServer/Mirror.antt =====
-- The in-place loop of MIRROR reverses the text: cw06/zad1/server.c, `case MIRROR`.
use mathlib.Core.List.{append-nil, append_assoc, reverse-append, reverse-cons}
use mathlib.Core.Path.{subst}
use agh_so.Prelude.{
  get_or-append, set-append, split_last, ℕ, zero, suc, ◌+◌, ◌-◌, ◌/◌, ◌≤◌, ◌≡◌, refl, sym, ap, ◌∙◌,
  [], ◌∷◌, ◌++◌, reverse, arith, length, length-append, get_or,
}
use agh_so.CText.{Text}
use agh_so.MsgServer.{swap_chars, mirror_from, mirror_text}

-- A text around a middle part.
abbrev around : Text → ℕ → Text → ℕ → Text → Text
around a x m y b = a ++ x ∷ (m ++ y ∷ b)

around_assoc :
    (a : Text) (x : ℕ) (m : Text) (y : ℕ) (b : Text) → around a x m y b ≡ (a ++ x ∷ m) ++ y ∷ b
around_assoc a x m y b = sym (append_assoc a (x ∷ m) (y ∷ b))

-- One round of the loop exchanges the ends of the middle part.
swap_chars-around :
    (a m b : Text) (x y j k : ℕ)
    → j ≡ length a
    → k ≡ length a + 1 + length m
    → swap_chars (around a x m y b) j k ≡ around a y m x b
swap_chars-around a m b x y j k ej ek =
    let far : k ≡ length (a ++ x ∷ m) = omega (arith, length-append a (x ∷ m)) in
    let far' : k ≡ length (a ++ y ∷ m) = omega (arith, length-append a (y ∷ m)) in
    let right : get_or (around a x m y b) k 0 ≡ y =
      rw (around_assoc a x m y b) (get_or-append (a ++ x ∷ m) y b k 0 far) in
    rw
      (
        right,
        get_or-append a x (m ++ y ∷ b) j 0 ej,
        set-append a x y (m ++ y ∷ b) j ej,
        around_assoc a y m y b,
        set-append (a ++ y ∷ m) y x b k far',
      )
      (sym (around_assoc a y m x b))

-- A text of two characters or more has two ends.
ends : (m : Text) → 2 ≤ length m → (x : ℕ) × (m' : Text) × (y : ℕ) × (m ≡ x ∷ (m' ++ y ∷ []))
ends [] h = absurd (omega arith)
ends (x ∷ []) h = absurd (omega arith)
ends (x ∷ z ∷ m) h = let (m', y, e) = split_last z m in (x, m', y, ap (λ t. x ∷ t) e)

reverse_ends : (x : ℕ) (m : Text) (y : ℕ) → reverse (x ∷ (m ++ y ∷ [])) ≡ y ∷ (reverse m ++ x ∷ [])
reverse_ends x m y = simp (reverse-cons, reverse-append)

length-ends : (x : ℕ) (m : Text) (y : ℕ) → length (x ∷ (m ++ y ∷ [])) ≡ length m + 2
length-ends x m y = omega (arith, length-append m (y ∷ []))

-- One round of the loop: the ends of the middle part change places and leave it.
swap_chars_round :
    (a m b : Text) (x y j : ℕ)
    → j ≡ length a
    → length b ≡ length a
    → (let s = a ++ ((x ∷ (m ++ y ∷ [])) ++ b) in swap_chars s j (length s - j - 1))
      ≡ (a ++ y ∷ []) ++ (m ++ x ∷ b)
swap_chars_round a m b x y j ej eb =
    let regroup : a ++ ((x ∷ (m ++ y ∷ [])) ++ b) ≡ around a x m y b =
      ap (λ t. a ++ x ∷ t) (append_assoc m (y ∷ []) b) in
    let size : length (around a x m y b) ≡ length a + (length m + (length b + 1) + 1) =
      omega (arith, length-append a (x ∷ (m ++ y ∷ b)), length-append m (y ∷ b)) in
    rw
      (
        regroup,
        swap_chars-around a m b x y j (length (around a x m y b) - j - 1) ej (omega (arith, size)),
      )
      (sym (append_assoc a (y ∷ []) (m ++ x ∷ b)))

mirror_from-suc :
    (rounds j : ℕ) (s : Text)
    → mirror_from (suc rounds) j s ≡ mirror_from rounds (j + 1) (swap_chars s j (length s - j - 1))
unfolding mirror_from
mirror_from-suc rounds j s = refl

-- `rounds` rounds reverse the middle part that is not yet done, and leave the rest.
abbrev Reverses : ℕ → Type 0
Reverses rounds =
    (a m b : Text) (j : ℕ)
    → j ≡ length a
    → length b ≡ length a
    → rounds ≡ length m / 2
    → mirror_from rounds j (a ++ (m ++ b)) ≡ a ++ (reverse m ++ b)

mirror_from-ends :
    (rounds : ℕ)
    → Reverses rounds
    → (a b : Text) (x : ℕ) (m : Text) (y j : ℕ) → j ≡ length a
    → length b ≡ length a
    → suc rounds ≡ length (x ∷ (m ++ y ∷ [])) / 2
    → mirror_from (suc rounds) j (a ++ ((x ∷ (m ++ y ∷ [])) ++ b))
      ≡ a ++ (reverse (x ∷ (m ++ y ∷ [])) ++ b)
mirror_from-ends rounds ih a b x m y j ej eb er =
    let inner : mirror_from rounds (j + 1) ((a ++ y ∷ []) ++ (m ++ x ∷ b))
        ≡ (a ++ y ∷ []) ++ (reverse m ++ x ∷ b) =
      ih (a ++ y ∷ []) m (x ∷ b) (j + 1) (omega (arith, length-append a (y ∷ [])))
        (omega (arith, length-append a (y ∷ []))) (omega (arith, length-ends x m y)) in
    rw (mirror_from-suc, swap_chars_round a m b x y j ej eb, inner, reverse_ends x m y)
      (simp append_assoc)

mirror_from-around : (rounds : ℕ) → Reverses rounds
mirror_from-around zero a [] b j ej eb er = unfold mirror_from in refl
mirror_from-around zero a (x ∷ []) b j ej eb er = unfold mirror_from in refl
mirror_from-around zero a (x ∷ z ∷ m) b j ej eb er = absurd (omega arith)
mirror_from-around (suc rounds) a m b j ej eb er =
    let (x, m', y, e) = ends m (omega arith) in
    subst
      (λ t.
        suc rounds ≡ length t / 2
        → mirror_from (suc rounds) j (a ++ (t ++ b)) ≡ a ++ (reverse t ++ b))
      (sym e) (mirror_from-ends rounds (mirror_from-around rounds) a b x m' y j ej eb) er

-- MIRROR sends the text back to front.
pub mirror_text-eq-reverse : (s : Text) → mirror_text s ≡ reverse s
unfolding mirror_text
mirror_text-eq-reverse s =
    ap (λ t. mirror_from (length s / 2) 0 t) (sym (append-nil s))
    ∙ mirror_from-around (length s / 2) [] s [] 0 refl refl refl
    ∙ append-nil (reverse s)
