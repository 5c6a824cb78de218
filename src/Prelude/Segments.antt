-- ===== src/Prelude/Segments.antt =====
-- Lists around a place: reads and writes at the end of a first part, and the last element.
use Prim.Native.Nat.{ℕ, zero, suc, ◌+◌, ◌<◌}
use mathlib.Core.Path.{◌≡◌, refl, ap}
use mathlib.Core.List.{List, [], ◌∷◌, ◌++◌}
use mathlib.Core.Option.{some}
use native.Mathlib.Omega.{arith}
use agh_so.Prelude.Tests.{◌==◌, if◌then◌else◌}
use agh_so.Prelude.Lists.{length, get_elem?, get_or, set, take, drop}

module _ {ℓ} {A : Type ℓ} where
  pub get_or-append :
      (a : List A) (x : A) (r : List A) (i : ℕ) (d : A) → i ≡ length a → get_or (a ++ x ∷ r) i d ≡ x
  get_or-append [] x r zero d e = refl
  get_or-append [] x r (suc i) d e = absurd (omega arith)
  get_or-append (c ∷ a) x r zero d e = absurd (omega arith)
  get_or-append (c ∷ a) x r (suc i) d e = get_or-append a x r i d (omega arith)

  pub get_elem?-append :
      (a : List A) (x : A) (r : List A) (i : ℕ) → i ≡ length a → get_elem? (a ++ x ∷ r) i ≡ some x
  get_elem?-append [] x r zero e = refl
  get_elem?-append [] x r (suc i) e = absurd (omega arith)
  get_elem?-append (c ∷ a) x r zero e = absurd (omega arith)
  get_elem?-append (c ∷ a) x r (suc i) e = get_elem?-append a x r i (omega arith)

  pub get_elem?-lt : (xs : List A) (i : ℕ) → i < length xs → (x : A) × (get_elem? xs i ≡ some x)
  get_elem?-lt [] i h = absurd (omega arith)
  get_elem?-lt (x ∷ xs) zero h = (x, refl)
  get_elem?-lt (x ∷ xs) (suc i) h = get_elem?-lt xs i (omega arith)

  pub lt-get_elem? : (xs : List A) (i : ℕ) (x : A) → get_elem? xs i ≡ some x → i < length xs
  lt-get_elem? [] i x h = absurd (cc)
  lt-get_elem? (y ∷ xs) zero x h = omega arith
  lt-get_elem? (y ∷ xs) (suc i) x h = omega (arith, lt-get_elem? xs i x h)

  pub set-append :
      (a : List A) (x y : A) (r : List A) (i : ℕ) → i ≡ length a → set (a ++ x ∷ r) i y ≡ a ++ y ∷ r
  set-append [] x y r zero e = refl
  set-append [] x y r (suc i) e = absurd (omega arith)
  set-append (c ∷ a) x y r zero e = absurd (omega arith)
  set-append (c ∷ a) x y r (suc i) e = ap (λ t. c ∷ t) (set-append a x y r i (omega arith))

  -- A list that is not empty ends in an element.
  pub split_last : (x : A) (m : List A) → (m' : List A) × (y : A) × (x ∷ m ≡ m' ++ y ∷ [])
  split_last x [] = ([], x, refl)
  split_last x (z ∷ m) = let (m', y, e) = split_last z m in (x ∷ m', y, ap (λ t. x ∷ t) e)

  pub take-append : (a r : List A) (n : ℕ) → n ≡ length a → take n (a ++ r) ≡ a
  take-append [] r zero e = refl
  take-append [] r (suc n) e = absurd (omega arith)
  take-append (x ∷ a) r zero e = absurd (omega arith)
  take-append (x ∷ a) r (suc n) e = ap (λ t. x ∷ t) (take-append a r n (omega arith))

  pub drop-append : (a r : List A) (n : ℕ) → n ≡ length a → drop n (a ++ r) ≡ r
  drop-append [] r zero e = refl
  drop-append [] r (suc n) e = absurd (omega arith)
  drop-append (x ∷ a) r zero e = absurd (omega arith)
  drop-append (x ∷ a) r (suc n) e = drop-append a r n (omega arith)

  -- A list cut at an index.
  pub cut_at :
      (l : List A) (n : ℕ)
      → n < length l
      → (a : List A) × (x : A) × (b : List A) × (l ≡ a ++ x ∷ b) × (length a ≡ n)
  cut_at [] n h = elim h [ ]
  cut_at (y ∷ l) zero h = ([], y, l, refl, refl)
  cut_at (y ∷ l) (suc n) h =
      let (a, x, b, e, len) = cut_at l n (omega arith) in
      (y ∷ a, x, b, ap (λ t. y ∷ t) e, omega arith)

-- How often a number stands in a list.
abbrev pub count : ℕ → List ℕ → ℕ
count v [] = 0
count v (x ∷ xs) = (if v == x then 1 else 0) + count v xs
