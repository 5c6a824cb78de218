-- ===== src/Records/Order.antt =====
-- The order in which cw02/zad1/zad1.c sorts records: by the first character, as a signed char. The
-- records that are sorted so far are listed from the last to the first.
use mathlib.Core.Path.{subst}
use mathlib.Core.List.{Perm, perm_middle, append-nil}
use mathlib.Core.List.Perm
use agh_so.Prelude.{
  ℕ, ◌≡◌, sym, true, false, Bool-cases, inl, inr, List, [], ◌∷◌, ◌++◌, arith, if◌then◌else◌,
}
use agh_so.CText.{Text}
use agh_so.Records.{less}
use agh_so.Records.Steps.{HaveSize}

abbrev pub key : Text → ℕ
key [] = 0
key (c ∷ s) = c

less_asym : (a b : ℕ) → less a b ≡ true → less b a ≡ false
less_asym a b h = ground arith

less_trans : (a b c : ℕ) → less a b ≡ false → less b c ≡ false → less a c ≡ false
less_trans a b c h h' = ground arith

-- None of the records is after one that starts with `k`.
abbrev pub IsLast : ℕ → List Text → Type 0
IsLast k [] = Unit
IsLast k (r ∷ rs) = (less k (key r) ≡ false) × IsLast k rs

abbrev pub IsFalling : List Text → Type 0
IsFalling [] = Unit
IsFalling (r ∷ rs) = IsLast (key r) rs × IsFalling rs

-- None of the records is before one that starts with `k`.
abbrev pub IsFirst : ℕ → List Text → Type 0
IsFirst k [] = Unit
IsFirst k (r ∷ rs) = (less (key r) k ≡ false) × IsFirst k rs

-- No record starts with a smaller character than one before it.
abbrev pub IsSorted : List Text → Type 0
IsSorted [] = Unit
IsSorted (r ∷ rs) = IsFirst (key r) rs × IsSorted rs

-- Where the inner loop puts a record.
abbrev pub insert : Text → List Text → List Text
insert r [] = r ∷ []
insert r (l ∷ ls) = if less (key r) (key l) then l ∷ insert r ls else r ∷ l ∷ ls

IsLast-trans : (a b : ℕ) (ls : List Text) → less a b ≡ false → IsLast b ls → IsLast a ls
IsLast-trans a b [] h t = tt
IsLast-trans a b (l ∷ ls) h (h', t) = (less_trans a b (key l) h h', IsLast-trans a b ls h t)

insert-IsLast :
    (k : ℕ) (r : Text) (ls : List Text)
    → less k (key r) ≡ false
    → IsLast k ls
    → IsLast k (insert r ls)
insert-IsLast k r [] h t = (h, tt)
insert-IsLast k r (l ∷ ls) h (h', t) = elim (Bool-cases (less (key r) (key l))) [
  | inl lt ↦ rw lt (h', insert-IsLast k r ls h t)
  | inr ge ↦ rw ge (h, (h', t))
]

pub insert-IsFalling : (r : Text) (ls : List Text) → IsFalling ls → IsFalling (insert r ls)
insert-IsFalling r [] t = (tt, tt)
insert-IsFalling r (l ∷ ls) (h, t) = elim (Bool-cases (less (key r) (key l))) [
  | inl lt ↦
      rw lt (insert-IsLast (key l) r ls (less_asym (key r) (key l) lt) h, insert-IsFalling r ls t)
  | inr ge ↦ rw ge ((ge, IsLast-trans (key r) (key l) ls ge h), (h, t))
]

pub insert-Perm : (r : Text) (ls : List Text) → Perm (insert r ls) (r ∷ ls)
insert-Perm r [] = Perm.refl (r ∷ [])
insert-Perm r (l ∷ ls) = elim (Bool-cases (less (key r) (key l))) [
  | inl lt ↦ rw lt (Perm.trans (Perm.cons l (insert-Perm r ls)) (Perm.swap r l ls))
  | inr ge ↦ rw ge (Perm.refl (r ∷ l ∷ ls))
]

pub insert-HaveSize :
    (size : ℕ) (r : Text) (ls : List Text) → HaveSize size (r ∷ ls) → HaveSize size (insert r ls)
insert-HaveSize size r [] t = t
insert-HaveSize size r (l ∷ ls) (s, (s', t)) = elim (Bool-cases (less (key r) (key l))) [
  | inl lt ↦ rw lt (s', insert-HaveSize size r ls (s, t))
  | inr ge ↦ rw ge (s, (s', t))
]

-- From the first to the last.
abbrev pub forward : List Text → List Text
forward [] = []
forward (l ∷ ls) = forward ls ++ l ∷ []

IsFirst-append :
    (k : ℕ) (rs : List Text) (l : Text)
    → IsFirst k rs
    → less (key l) k ≡ false
    → IsFirst k (rs ++ l ∷ [])
IsFirst-append k [] l t h = (h, tt)
IsFirst-append k (r ∷ rs) l (h', t) h = (h', IsFirst-append k rs l t h)

-- `l` goes behind records that do not come after it.
IsSorted-append :
    (rs : List Text) (l : Text) → IsSorted rs → IsLast (key l) rs → IsSorted (rs ++ l ∷ [])
IsSorted-append [] l t h = (tt, tt)
IsSorted-append (r ∷ rs) l (f, t) (h, h') =
    (IsFirst-append (key r) rs l f h, IsSorted-append rs l t h')

IsLast-append :
    (k : ℕ) (rs : List Text) (l : Text)
    → IsLast k rs
    → less k (key l) ≡ false
    → IsLast k (rs ++ l ∷ [])
IsLast-append k [] l t h = (h, tt)
IsLast-append k (r ∷ rs) l (h', t) h = (h', IsLast-append k rs l t h)

forward-IsLast : (k : ℕ) (ls : List Text) → IsLast k ls → IsLast k (forward ls)
forward-IsLast k [] t = tt
forward-IsLast k (l ∷ ls) (h, t) = IsLast-append k (forward ls) l (forward-IsLast k ls t) h

pub forward-IsSorted : (ls : List Text) → IsFalling ls → IsSorted (forward ls)
forward-IsSorted [] t = tt
forward-IsSorted (l ∷ ls) (h, t) =
    IsSorted-append (forward ls) l (forward-IsSorted ls t) (forward-IsLast (key l) ls h)

pub forward-Perm : (ls : List Text) → Perm (forward ls) ls
forward-Perm [] = Perm.refl []
forward-Perm (l ∷ ls) =
    Perm.trans (perm_middle (forward ls) [])
      (Perm.cons l (subst (λ z. Perm z ls) (sym (append-nil (forward ls))) (forward-Perm ls)))
