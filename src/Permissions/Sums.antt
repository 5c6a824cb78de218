-- ===== src/Permissions/Sums.antt =====
-- How many children of cw04/zad2/zad2.c have asked, and how many have worked.
use agh_so.Prelude.{
  ℕ, ◌+◌, ◌≤◌, ◌≡◌, refl, sym, ap, ◌∙◌, true, false, Bool-cases, inl, inr, List, [], ◌∷◌, Option,
  none, some, arith, ◌==◌, length, count,
}
use agh_so.Permissions.Family.{Place, put}

abbrev pub is_born : Place → ℕ
is_born Place.unborn = 0
is_born _ = 1

abbrev pub has_asked : Place → ℕ
has_asked Place.unborn = 0
has_asked Place.asleep = 0
has_asked Place.asking = 0
has_asked _ = 1

abbrev pub has_worked : Place → ℕ
has_worked (Place.worked b) = 1
has_worked Place.missed = 1
has_worked Place.leaving = 1
has_worked Place.exiting = 1
has_worked Place.left = 1
has_worked _ = 0

abbrev pub pending : Option ℕ → ℕ
pending none = 0
pending (some p) = 1

-- A sum over the children.
abbrev pub total : (Place → ℕ) → (ℕ → Place) → List ℕ → ℕ
total w places [] = 0
total w places (p ∷ ps) = w (places p) + total w places ps

module _ (w : Place → ℕ) (places : ℕ → Place) (p : ℕ) (x : Place) where
  put_here :
      (q : ℕ) → (p == q) ≡ true → (w (put places p x q) ≡ w x) × (w (places p) ≡ w (places q))
  put_here q h = (rw h refl, ap (λ n. w (places n)) (ground arith))

  put_there : (q : ℕ) → (p == q) ≡ false → w (put places p x q) ≡ w (places q)
  put_there q h = rw h refl

  pub total-put_none :
      (ps : List ℕ) → count p ps ≡ 0 → total w (put places p x) ps ≡ total w places ps
  total-put_none [] h = refl
  total-put_none (q ∷ ps) h = elim (Bool-cases (p == q)) [
    | inl same ↦ absurd (ground arith)
    | inr other ↦ omega (arith, put_there q other, total-put_none ps (ground arith))
  ]

  pub total-put_once :
      (ps : List ℕ)
      → count p ps ≡ 1
      → total w (put places p x) ps + w (places p) ≡ total w places ps + w x
  total-put_once [] h = absurd (omega arith)
  total-put_once (q ∷ ps) h = elim (Bool-cases (p == q)) [
    | inl same ↦
        let (new, old) = put_here q same in
        omega (arith, new, old, total-put_none ps (ground arith))
    | inr other ↦ omega (arith, put_there q other, total-put_once ps (ground arith))
  ]

total-length :
    (w : Place → ℕ) (places : ℕ → Place) (ps : List ℕ)
    → ((x : Place) → w x ≤ 1)
    → total w places ps ≤ length ps
total-length w places [] small = omega arith
total-length w places (p ∷ ps) small =
    omega (arith, small (places p), total-length w places ps small)

has_asked-le : (x : Place) → has_asked x ≤ 1
has_asked-le x = elim x as (λ y. has_asked y ≤ 1) [ Place.unborn ↦ omega arith | _ ↦ omega arith ]

has_worked-le : (x : Place) → has_worked x ≤ 1
has_worked-le x = elim x as (λ y. has_worked y ≤ 1) [ Place.unborn ↦ omega arith | _ ↦ omega arith ]

-- Each child is born once, `a` have asked and `n` have worked.
pub record IsSum (born : List ℕ) (places : ℕ → Place) (a n : ℕ) : Type 0 where
  pub once : (p : ℕ) → count p born ≡ is_born (places p)
  pub asked : a ≡ total has_asked places born
  pub worked : n ≡ total has_worked places born

module _ {born : List ℕ} {places : ℕ → Place} {a n : ℕ} (v : IsSum born places a n) where
  pub IsSum-bounds : (a ≤ length born) × (n ≤ length born)
  IsSum-bounds = (
    omega (arith, v.asked, total-length has_asked places born has_asked-le),
    omega (arith, v.worked, total-length has_worked places born has_worked-le),
  )

  pub IsSum-put :
      (p a' n' : ℕ) (x y : Place)
      → places p ≡ x
      → is_born x ≡ 1
      → is_born y ≡ 1
      → a' + has_asked x ≡ a + has_asked y
      → n' + has_worked x ≡ n + has_worked y
      → IsSum born (put places p y) a' n'
  IsSum-put p a' n' x y at bx by ea en =
      let one_time : count p born ≡ 1 = v.once p ∙ ap is_born at ∙ bx in
      record {
        once = λ q. elim (Bool-cases (p == q)) [
          | inl same ↦
              let same_child : q ≡ p = ground arith in
              rw same (ap (λ k. count k born) same_child ∙ one_time ∙ sym by)
          | inr other ↦ rw other (v.once q)
        ];
        asked =
            omega
              (arith, v.asked, ap has_asked at, total-put_once has_asked places p y born one_time);
        worked =
            omega (
              arith,
              v.worked,
              ap has_worked at,
              total-put_once has_worked places p y born one_time,
            );
      }

  pub IsSum-fork :
      (p : ℕ) → places p ≡ Place.unborn → IsSum (p ∷ born) (put places p Place.asleep) a n
  IsSum-fork p at =
      let no_time : count p born ≡ 0 = v.once p ∙ ap is_born at in
      record {
        once = λ q. elim (Bool-cases (p == q)) [
          | inl same ↦
              let same_child : q ≡ p = ground arith in
              let born_q : count q born ≡ 0 = ap (λ k. count k born) same_child ∙ no_time in
              let back : (q == p) ≡ true = ground arith in rw (same, back) (omega (arith, born_q))
          | inr other ↦
              let back : (q == p) ≡ false = ground arith in
              rw (other, back) (omega (arith, v.once q))
        ];
        asked = omega (
          arith,
          v.asked,
          (put_here has_asked places p Place.asleep p (ground arith)).0,
          total-put_none has_asked places p Place.asleep born no_time,
        );
        worked = omega (
          arith,
          v.worked,
          (put_here has_worked places p Place.asleep p (ground arith)).0,
          total-put_none has_worked places p Place.asleep born no_time,
        );
      }
