-- ===== src/Barber/Lock.antt =====
-- Who holds the semaphore 0 of cw07/zad1, `/sem` of cw07/zad2: the lock of the FIFO and of the shared
-- memory.
use mathlib.Core.Path.{subst}
use agh_so.Prelude.{
  ℕ, suc, ◌+◌, ◌≡◌, ◌≢◌, refl, sym, ap, ◌∙◌, Bool, true, false, Bool-cases, inl, inr, arith,
  ℕ_discrete,
}
use agh_so.Barber.Shop.{Barber, Place, Client, put, put_same, put_other}

abbrev pub barber_holds : Barber → Bool
barber_holds Barber.locked = true
barber_holds (Barber.received p) = true
barber_holds (Barber.inviting p) = true
barber_holds (Barber.seating p) = true
barber_holds (Barber.shaving p) = true
barber_holds Barber.tired = true
barber_holds Barber.dozing = true
barber_holds _ = false

abbrev pub client_holds : Place → Bool
client_holds Place.locked = true
client_holds Place.counting = true
client_holds Place.taking = true
client_holds Place.sent = true
client_holds Place.failed = true
client_holds Place.refused = true
client_holds Place.waking = true
client_holds Place.confirming = true
client_holds Place.confirmed = true
client_holds _ = false

-- How many clients the holder has counted in the queue whose message is not in the FIFO.
abbrev pub barber_extra : Barber → ℕ
barber_extra (Barber.received p) = 1
barber_extra _ = 0

abbrev pub client_extra : Place → ℕ
client_extra Place.taking = 1
client_extra Place.failed = 1
client_extra _ = 0

abbrev pub place_of : (ℕ → Client) → ℕ → Place
place_of clients i = (clients i).place

-- The lock is open and nobody holds it, or it is closed and one of all processes holds it.
pub data Owner (lock : ℕ) (b : Barber) (clients : ℕ → Client) (extra : ℕ) : Type 0 where
  nobody :
      lock ≡ 1
      → barber_holds b ≡ false
      → ((j : ℕ) → client_holds (clients j).place ≡ false)
      → extra ≡ 0
      → Owner lock b clients extra
  barber :
      lock ≡ 0
      → barber_holds b ≡ true
      → ((j : ℕ) → client_holds (clients j).place ≡ false)
      → extra ≡ barber_extra b
      → Owner lock b clients extra
  client :
      (i : ℕ)
      → lock ≡ 0
      → barber_holds b ≡ false
      → client_holds (clients i).place ≡ true
      → ((j : ℕ) → i ≢ j → client_holds (clients j).place ≡ false)
      → extra ≡ client_extra (clients i).place
      → Owner lock b clients extra

-- A step of the barber.
module _ {lock : ℕ} {b : Barber} {clients : ℕ → Client} {extra : ℕ}
    (o : Owner lock b clients extra) where
  pub barber_keeps :
      (b' : Barber)
      → barber_holds b ≡ true
      → barber_holds b' ≡ true
      → (extra ≡ barber_extra b) × Owner lock b' clients (barber_extra b')
  barber_keeps b' h h' = elim o [
    | Owner.nobody l out others e ↦ absurd (cc)
    | Owner.barber l inside others e ↦ (e, Owner.barber l h' others refl)
    | Owner.client i l out inside others e ↦ absurd (cc)
  ]

  pub barber_passes :
      (b' : Barber) → barber_holds b ≡ false → barber_holds b' ≡ false → Owner lock b' clients extra
  barber_passes b' h h' = elim o [
    | Owner.nobody l out others e ↦ Owner.nobody l h' others e
    | Owner.barber l inside others e ↦ absurd (cc)
    | Owner.client i l out inside others e ↦ Owner.client i l h' inside others e
  ]

  pub barber_locks :
      (b' : Barber) (k : ℕ)
      → lock ≡ suc k
      → barber_holds b' ≡ true
      → (extra ≡ 0) × Owner k b' clients (barber_extra b')
  barber_locks b' k unlocked h' = elim o [
    | Owner.nobody l out others e ↦ (e, Owner.barber (omega arith) h' others refl)
    | Owner.barber l inside others e ↦ absurd (omega arith)
    | Owner.client i l out inside others e ↦ absurd (omega arith)
  ]

  pub barber_unlocks :
      (b' : Barber)
      → barber_holds b ≡ true
      → barber_holds b' ≡ false
      → (extra ≡ barber_extra b) × Owner (lock + 1) b' clients 0
  barber_unlocks b' h h' = elim o [
    | Owner.nobody l out others e ↦ absurd (cc)
    | Owner.barber l inside others e ↦ (e, Owner.nobody (omega arith) h' others refl)
    | Owner.client i l out inside others e ↦ absurd (cc)
  ]

put_place : (clients : ℕ → Client) (i : ℕ) (c : Client) → place_of (put clients i c) i ≡ c.place
put_place clients i c = ap (λ d. d.place) (put_same clients i c)

put_holds :
    (clients : ℕ → Client) (i : ℕ) (c : Client) (j : ℕ)
    → (i ≢ j → client_holds (clients j).place ≡ false)
    → client_holds c.place ≡ false
    → client_holds (put clients i c j).place ≡ false
put_holds clients i c j other h = elim (ℕ_discrete i j) [
  | yes same ↦
      ap (λ k. client_holds (put clients i c k).place) (sym same)
      ∙ ap client_holds (put_place clients i c)
      ∙ h
  | no differs ↦ ap (λ d. client_holds d.place) (put_other clients i c j differs) ∙ other differs
]

put_others :
    (clients : ℕ → Client) (i : ℕ) (c : Client)
    → ((j : ℕ) → i ≢ j → client_holds (clients j).place ≡ false)
    → (j : ℕ) → i ≢ j
    → client_holds (put clients i c j).place ≡ false
put_others clients i c other j differs =
    ap (λ d. client_holds d.place) (put_other clients i c j differs) ∙ other j differs

-- A step of a client.
module _ {lock : ℕ} {b : Barber} {clients : ℕ → Client} {extra : ℕ} (o : Owner lock b clients extra)
    (i : ℕ) (c : Client) where
  pub client_keeps :
      client_holds (clients i).place ≡ true
      → client_holds c.place ≡ true
      → (extra ≡ client_extra (clients i).place)
        × Owner lock b (put clients i c) (client_extra c.place)
  client_keeps h h' = elim o [
    | Owner.nobody l out others e ↦ absurd (cc (others i))
    | Owner.barber l inside others e ↦ absurd (cc (others i))
    | Owner.client i' l out inside others e ↦ elim (ℕ_discrete i' i) [
      | no differs ↦ absurd (cc (others i differs))
      | yes same ↦ (
        e ∙ ap (λ k. client_extra (clients k).place) same,
        Owner.client i l out (ap client_holds (put_place clients i c) ∙ h')
            (put_others clients i c (λ j ne. others j (λ e'. ne (sym same ∙ e'))))
            (sym (ap client_extra (put_place clients i c))),
      )
    ]
  ]

  pub client_passes :
      client_holds (clients i).place ≡ false
      → client_holds c.place ≡ false
      → Owner lock b (put clients i c) extra
  client_passes h h' = elim o [
    | Owner.nobody l out others e ↦
        Owner.nobody l out (λ j. put_holds clients i c j (λ ne. others j) h') e
    | Owner.barber l inside others e ↦
        Owner.barber l inside (λ j. put_holds clients i c j (λ ne. others j) h') e
    | Owner.client i' l out inside others e ↦ elim (ℕ_discrete i i') [
      | yes same ↦ absurd (cc)
      | no differs ↦
          Owner.client i' l out
            (ap (λ d. client_holds d.place) (put_other clients i c i' differs) ∙ inside)
            (λ j ne. put_holds clients i c j (λ ne'. others j ne) h')
            (e ∙ ap (λ d. client_extra d.place) (sym (put_other clients i c i' differs)))
    ]
  ]

  pub client_locks :
      (k : ℕ)
      → lock ≡ suc k
      → client_holds c.place ≡ true
      → (extra ≡ 0) × Owner k b (put clients i c) (client_extra c.place)
  client_locks k unlocked h' = elim o [
    | Owner.nobody l out others e ↦ (
      e,
      Owner.client i (omega arith) out (ap client_holds (put_place clients i c) ∙ h')
          (put_others clients i c (λ j ne. others j))
          (sym (ap client_extra (put_place clients i c))),
    )
    | Owner.barber l inside others e ↦ absurd (omega arith)
    | Owner.client i' l out inside others e ↦ absurd (omega arith)
  ]

  pub client_unlocks :
      client_holds (clients i).place ≡ true
      → client_holds c.place ≡ false
      → (extra ≡ client_extra (clients i).place) × Owner (lock + 1) b (put clients i c) 0
  client_unlocks h h' = elim o [
    | Owner.nobody l out others e ↦ absurd (cc (others i))
    | Owner.barber l inside others e ↦ absurd (cc (others i))
    | Owner.client i' l out inside others e ↦ elim (ℕ_discrete i' i) [
      | no differs ↦ absurd (cc (others i differs))
      | yes same ↦ (
        e ∙ ap (λ k. client_extra (clients k).place) same,
        Owner.nobody (omega arith) out
            (λ j. put_holds clients i c j (λ ne. others j (λ e'. ne (sym same ∙ e'))) h') refl,
      )
    ]
  ]

  -- Where the place does not change.
  pub client_stays : c.place ≡ (clients i).place → Owner lock b (put clients i c) extra
  client_stays same = elim (Bool-cases (client_holds (clients i).place)) [
    | inl holds ↦
        let (e, o') = client_keeps holds (ap client_holds same ∙ holds) in
        subst (Owner lock b (put clients i c)) (ap client_extra same ∙ sym e) o'
    | inr passes ↦ client_passes passes (ap client_holds same ∙ passes)
  ]
