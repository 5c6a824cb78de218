-- ===== src/Permissions/Turns.antt =====
-- Who has the turn that `flag` of cw04/zad2/zad2.c passes on.
use mathlib.Core.Path.{subst}
use agh_so.Prelude.{
  ℕ, suc, ◌≡◌, refl, sym, ap, Bool-cases, inl, inr, ◌∙◌, Bool, true, false, Option, none, some,
  arith, ◌==◌,
}
use agh_so.Permissions.Family.{Place, Parent, wake, Family, put}

abbrev pub holding : Place → Bool
holding Place.asking = true
holding (Place.working b) = true
holding (Place.worked b) = true
holding Place.exiting = true
holding _ = false

abbrev pub is_creating : Parent → Bool
is_creating Parent.creating = true
is_creating _ = false

abbrev pub is_some : Option ℕ → Bool
is_some none = false
is_some (some p) = true

abbrev pub one : Bool → ℕ
one true = 1
one false = 0

-- Who may go on: a process at `sem_wait`, the parent, its handler of a request or of an exit that is on
-- its way, a handler that has begun, or a child.
pub data Turn : Type 0 where
  free : Turn
  parents : Turn
  request : Turn
  exit : Turn
  handler : Turn
  childs : ℕ → Turn

abbrev pub is_free : Turn → Bool
is_free Turn.free = true
is_free _ = false

abbrev pub is_parents : Turn → Bool
is_parents Turn.parents = true
is_parents _ = false

abbrev pub is_request : Turn → Bool
is_request Turn.request = true
is_request _ = false

abbrev pub is_exit : Turn → Bool
is_exit Turn.exit = true
is_exit _ = false

abbrev pub is_handler : Turn → Bool
is_handler Turn.handler = true
is_handler _ = false

abbrev pub is_childs : Turn → ℕ → Bool
is_childs (Turn.childs p) q = p == q
is_childs _ q = false

pub record IsTurn (s : Family) (t : Turn) : Type 0 where
  pub flag : s.flag ≡ one (is_free t)
  pub parent : is_creating s.parent ≡ is_parents t
  pub usr1 : is_some s.usr1 ≡ is_request t
  pub chld : s.chld ≡ is_exit t
  pub posts : s.posts ≡ one (is_handler t)
  pub places : (p : ℕ) → holding (s.places p) ≡ is_childs t p

pub creating-wake : (p : Parent) → is_creating (wake p) ≡ is_creating p
creating-wake Parent.creating = refl
creating-wake Parent.testing = refl
creating-wake Parent.tested = refl
creating-wake Parent.pausing = refl
creating-wake Parent.over = refl

-- A child that moves: with its turn, with a new one, or giving its turn away.
pub put-same :
    (places : ℕ → Place) (p : ℕ) (x : Place)
    → holding x ≡ holding (places p)
    → (q : ℕ) → holding (put places p x q) ≡ holding (places q)
put-same places p x e q = elim (Bool-cases (p == q)) [
  | inl same ↦
      let same_child : p ≡ q = ground arith in rw same (e ∙ ap (λ n. holding (places n)) same_child)
  | inr other ↦ rw other refl
]

pub put-gain :
    (places : ℕ → Place) (p : ℕ) (x : Place)
    → ((q : ℕ) → holding (places q) ≡ false)
    → holding x ≡ true
    → (q : ℕ) → holding (put places p x q) ≡ (p == q)
put-gain places p x h e q = elim (Bool-cases (p == q)) [
  | inl same ↦ rw same e
  | inr other ↦ rw other (h q)
]

pub put-lose :
    (places : ℕ → Place) (p : ℕ) (x : Place)
    → ((q : ℕ) → holding (places q) ≡ (p == q))
    → holding x ≡ false
    → (q : ℕ) → holding (put places p x q) ≡ false
put-lose places p x h e q = elim (Bool-cases (p == q)) [
  | inl same ↦ rw same e
  | inr other ↦ rw other (h q ∙ other)
]

module _ {s : Family} {t : Turn} (v : IsTurn s t) where
  pub IsTurn-of_flag : (f : ℕ) → s.flag ≡ suc f → IsTurn s Turn.free × (f ≡ 0)
  IsTurn-of_flag f e = go t v
    where
      go : (t : Turn) → IsTurn s t → IsTurn s Turn.free × (f ≡ 0)
      go Turn.free v = (v, omega (arith, v.flag))
      go Turn.parents v = absurd (omega (arith, v.flag))
      go Turn.request v = absurd (omega (arith, v.flag))
      go Turn.exit v = absurd (omega (arith, v.flag))
      go Turn.handler v = absurd (omega (arith, v.flag))
      go (Turn.childs p) v = absurd (omega (arith, v.flag))

  pub IsTurn-of_posts : (q : ℕ) → s.posts ≡ suc q → IsTurn s Turn.handler × (q ≡ 0)
  IsTurn-of_posts q e = go t v
    where
      go : (t : Turn) → IsTurn s t → IsTurn s Turn.handler × (q ≡ 0)
      go Turn.free v = absurd (omega (arith, v.posts))
      go Turn.parents v = absurd (omega (arith, v.posts))
      go Turn.request v = absurd (omega (arith, v.posts))
      go Turn.exit v = absurd (omega (arith, v.posts))
      go Turn.handler v = (v, omega (arith, v.posts))
      go (Turn.childs p) v = absurd (omega (arith, v.posts))

  pub IsTurn-of_parent : is_creating s.parent ≡ true → IsTurn s Turn.parents
  IsTurn-of_parent e = let only : is_parents t ≡ true = sym v.parent ∙ e in go t v only
    where
      go : (t : Turn) → IsTurn s t → is_parents t ≡ true → IsTurn s Turn.parents
      go Turn.parents v h = v
      go Turn.free v h = absurd (cc)
      go Turn.request v h = absurd (cc)
      go Turn.exit v h = absurd (cc)
      go Turn.handler v h = absurd (cc)
      go (Turn.childs p) v h = absurd (cc)

  pub IsTurn-of_usr1 : is_some s.usr1 ≡ true → IsTurn s Turn.request
  IsTurn-of_usr1 e = let only : is_request t ≡ true = sym v.usr1 ∙ e in go t v only
    where
      go : (t : Turn) → IsTurn s t → is_request t ≡ true → IsTurn s Turn.request
      go Turn.request v h = v
      go Turn.free v h = absurd (cc)
      go Turn.parents v h = absurd (cc)
      go Turn.exit v h = absurd (cc)
      go Turn.handler v h = absurd (cc)
      go (Turn.childs p) v h = absurd (cc)

  pub IsTurn-of_chld : s.chld ≡ true → IsTurn s Turn.exit
  IsTurn-of_chld e = let only : is_exit t ≡ true = sym v.chld ∙ e in go t v only
    where
      go : (t : Turn) → IsTurn s t → is_exit t ≡ true → IsTurn s Turn.exit
      go Turn.exit v h = v
      go Turn.free v h = absurd (cc)
      go Turn.parents v h = absurd (cc)
      go Turn.request v h = absurd (cc)
      go Turn.handler v h = absurd (cc)
      go (Turn.childs p) v h = absurd (cc)

  pub IsTurn-of_child : (p : ℕ) → holding (s.places p) ≡ true → IsTurn s (Turn.childs p)
  IsTurn-of_child p e = let only : is_childs t p ≡ true = sym (v.places p) ∙ e in go t v only
    where
      go : (t : Turn) → IsTurn s t → is_childs t p ≡ true → IsTurn s (Turn.childs p)
      go (Turn.childs q) v h =
          let same : q ≡ p = ground arith in subst (λ n. IsTurn s (Turn.childs n)) same v
      go Turn.free v h = absurd (cc)
      go Turn.parents v h = absurd (cc)
      go Turn.request v h = absurd (cc)
      go Turn.exit v h = absurd (cc)
      go Turn.handler v h = absurd (cc)
