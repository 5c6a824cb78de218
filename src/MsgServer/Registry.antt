-- ===== src/MsgServer/Registry.antt =====
-- The client slots as a registry of queues: cw06/zad1/server.c, START, STOP and the look-up before
-- the `switch`.
use agh_so.Prelude.{
  ℕ, zero, suc, ◌<◌, ◌≡◌, refl, ◌≢◌, ◌⊎◌, inl, inr, List, [], ◌∷◌, Option, some, none, arith,
  length, get_elem?, set, ◌==◌, if◌then◌else◌, Bool-cases,
}
use agh_so.Prelude.Int.{ℤ}
use agh_so.MsgServer.{ClientInfo, no_client, find_client}
use agh_so.MsgServer.Slots.{slot_pid}

-- The queue that a client has registered.
abbrev pub queue_of : List ClientInfo → ℕ → Option (Option ℤ)
queue_of [] p = none
queue_of (c ∷ cs) p = if c.pid == p then some c.q_id else queue_of cs p

-- No pid but 0 stands in two slots.
abbrev pub Distinct : List ClientInfo → Type 0
Distinct [] = Unit
Distinct (c ∷ cs) = ((c.pid ≡ 0) ⊎ (queue_of cs c.pid ≡ none)) × Distinct cs

-- What the look-up finds is what the registry holds.
pub find_client-queue_of :
    (qs : List ClientInfo) (p : ℕ) (q : Option ℤ)
    → queue_of qs p ≡ some q
    → (find_client qs p < length qs)
      × (get_elem? qs (find_client qs p) ≡ some (record { pid = p; q_id = q }))
unfolding find_client
find_client-queue_of [] p q h = cc
find_client-queue_of (c ∷ cs) p q h = ground (arith, find_client-queue_of cs p q)

-- Without an entry the look-up runs past the last slot.
pub find_client-none :
    (qs : List ClientInfo) (p : ℕ) → queue_of qs p ≡ none → find_client qs p ≡ length qs
unfolding find_client
find_client-none [] p h = refl
find_client-none (c ∷ cs) p h = ground (arith, find_client-none cs p)

-- Taking a free slot adds an entry, and leaves those of the other clients.
pub queue_of-set_free :
    (qs : List ClientInfo) (i p : ℕ) (q : Option ℤ)
    → slot_pid qs i ≡ 0
    → i < length qs
    → queue_of qs p ≡ none
    → p ≢ 0
    → (queue_of (set qs i (record { pid = p; q_id = q })) p ≡ some q)
      × ((p' : ℕ)
          → p' ≢ 0
          → p' ≢ p
          → queue_of (set qs i (record { pid = p; q_id = q })) p' ≡ queue_of qs p')
queue_of-set_free [] i p q free h new nz = elim h [ ]
queue_of-set_free (c ∷ cs) zero p q free h new nz = (ground arith, λ p' nz' ne. ground arith)
queue_of-set_free (c ∷ cs) (suc i) p q free h new nz =
    let rest = queue_of-set_free cs i p q free (omega arith) in
    (
      ground (arith, (rest (ground arith) nz).0),
      λ p' nz' ne. ground (arith, (rest (ground arith) nz).1 p' nz' ne),
    )

-- Clearing the slot that the look-up found takes the entry away, and leaves the others.
pub queue_of-set_found :
    (qs : List ClientInfo) (p : ℕ)
    → Distinct qs
    → p ≢ 0
    → (queue_of (set qs (find_client qs p) no_client) p ≡ none)
      × ((p' : ℕ)
          → p' ≢ 0
          → p' ≢ p
          → queue_of (set qs (find_client qs p) no_client) p' ≡ queue_of qs p')
unfolding find_client
queue_of-set_found [] p d nz = (refl, λ p' nz' ne. refl)
queue_of-set_found (c ∷ cs) p d nz =
    let rest = queue_of-set_found cs p d.1 nz in
    elim (Bool-cases (c.pid == p)) [
      | inl found ↦ rw found (ground (arith, d.0), λ p' nz' ne. ground arith)
      | inr later ↦ rw later (ground (arith, rest.0), λ p' nz' ne. ground (arith, rest.1 p' nz' ne))
    ]

-- A write of another pid brings no entry back.
queue_of-set-none :
    (qs : List ClientInfo) (i p : ℕ) (x : ClientInfo)
    → queue_of qs p ≡ none
    → x.pid ≢ p
    → queue_of (set qs i x) p ≡ none
queue_of-set-none [] i p x h ne = refl
queue_of-set-none (c ∷ cs) zero p x h ne = ground arith
queue_of-set-none (c ∷ cs) (suc i) p x h ne = ground (arith, queue_of-set-none cs i p x)

-- Entries stay distinct when a client that has none takes a free slot ...
pub Distinct-set_free :
    (qs : List ClientInfo) (i p : ℕ) (q : Option ℤ)
    → slot_pid qs i ≡ 0
    → queue_of qs p ≡ none
    → Distinct qs
    → Distinct (set qs i (record { pid = p; q_id = q }))
Distinct-set_free [] i p q free new d = tt
Distinct-set_free (c ∷ cs) zero p q free new d = (inr (ground arith), d.1)
Distinct-set_free (c ∷ cs) (suc i) p q free new d = (
  ground (arith, d.0, queue_of-set-none cs i c.pid (record { pid = p; q_id = q })),
  Distinct-set_free cs i p q free (ground arith) d.1,
)

-- ... and when a slot is cleared.
pub Distinct-clear : (qs : List ClientInfo) (i : ℕ) → Distinct qs → Distinct (set qs i no_client)
Distinct-clear [] i d = tt
Distinct-clear (c ∷ cs) zero d = (inl refl, d.1)
Distinct-clear (c ∷ cs) (suc i) d =
    (ground (arith, d.0, queue_of-set-none cs i c.pid no_client), Distinct-clear cs i d.1)
