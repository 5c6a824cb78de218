-- ===== src/MsgServer/Slots.antt =====
-- The slot that START takes: cw06/zad1/server.c, the `while` over `clientMsgQs[client_no].pid`.
use agh_so.Prelude.{
  ℕ, zero, suc, ◌+◌, ◌-◌, ◌*◌, ◌≤◌, ◌<◌, ◌≡◌, refl, ◌≢◌, ◌⊎◌, inl, inr, List, [], ◌∷◌, some, arith,
  length, get_elem?, ◌==◌, ltb, Bool-cases, ==_iff, ◌∙◌, ℕ_discrete, sym,
}
use agh_so.MsgServer.{ClientInfo, max_no_of_clients, find_slot, slot_fuel}

-- The pid in a slot; a slot out of range counts as free.
abbrev pub slot_pid : List ClientInfo → ℕ → ℕ
slot_pid [] i = 0
slot_pid (c ∷ cs) zero = c.pid
slot_pid (c ∷ cs) (suc i) = slot_pid cs i

pub get_elem?-slot_pid :
    (qs : List ClientInfo) (i : ℕ)
    → i < length qs
    → (c : ClientInfo) × (get_elem? qs i ≡ some c) × (slot_pid qs i ≡ c.pid)
get_elem?-slot_pid [] i h = elim h [ ]
get_elem?-slot_pid (c ∷ cs) zero h = (c, refl, refl)
get_elem?-slot_pid (c ∷ cs) (suc i) h = get_elem?-slot_pid cs i (omega arith)

-- All slots below `k` are taken.
abbrev pub Taken : List ClientInfo → ℕ → Type 0
Taken qs k = (i : ℕ) → i < k → slot_pid qs i ≢ 0

-- What the search has seen when it comes to slot `client_no` with `flag`.
record Seen (qs : List ClientInfo) (client_no flag : ℕ) : Type 0 where
  in_range : client_no < max_no_of_clients
  at_most_two : flag ≤ 2
  second_round : flag ≡ 1 → Taken qs client_no
  all_seen : flag ≡ 2 → Taken qs max_no_of_clients × (client_no ≡ 0)

-- Where the search may stop: at a free slot, or with flag 2 and no slot free.
pub record Found (qs : List ClientInfo) (c flag : ℕ) : Type 0 where
  pub in_range : c < max_no_of_clients
  pub outcome : ((flag ≢ 2) × (slot_pid qs c ≡ 0)) ⊎ ((flag ≡ 2) × Taken qs max_no_of_clients)

Taken-next :
    (qs : List ClientInfo) (k j : ℕ) → Taken qs k → slot_pid qs k ≢ 0 → j ≡ k + 1 → Taken qs j
Taken-next qs k j below busy e i h = elim (ℕ_discrete i k) [
  | yes same ↦ rw same busy
  | no other ↦ below i (omega arith)
]

-- A taken slot moves the search on, round the end.
Seen-wrap :
    (qs : List ClientInfo) (c flag : ℕ)
    → Seen qs c flag
    → flag < 2
    → slot_pid qs c ≢ 0
    → c + 1 ≡ max_no_of_clients
    → Seen qs 0 (flag + 1)
Seen-wrap qs c flag seen small busy e = record {
  in_range = omega arith;
  at_most_two = omega arith;
  second_round = λ _ i h. absurd (omega arith);
  all_seen =
      λ h. (Taken-next qs c max_no_of_clients (seen.second_round (omega arith)) busy (sym e), refl);
}

Seen-step :
    (qs : List ClientInfo) (c flag : ℕ)
    → Seen qs c flag
    → flag < 2
    → slot_pid qs c ≢ 0
    → c + 1 ≢ max_no_of_clients
    → Seen qs (c + 1) flag
Seen-step qs c flag seen small busy ne = record {
  in_range = omega (arith, seen.in_range);
  at_most_two = seen.at_most_two;
  second_round = λ h. Taken-next qs c (c + 1) (seen.second_round h) busy refl;
  all_seen = λ h. absurd (omega arith);
}

stop_free :
    {qs : List ClientInfo} {c flag : ℕ} → Seen qs c flag → slot_pid qs c ≡ 0 → Found qs c flag
stop_free {c} seen free = record {
  in_range = seen.in_range;
  outcome = inl ((λ two. (seen.all_seen two).0 c seen.in_range free), free);
}

stop_full : {qs : List ClientInfo} {c flag : ℕ} → Seen qs c flag → flag ≡ 2 → Found qs c flag
stop_full seen two = record { in_range = seen.in_range; outcome = inr (two, (seen.all_seen two).0) }

-- With fuel for the slots ahead the search stops, and where it should.
find_slot-Found :
    (fuel : ℕ) (qs : List ClientInfo) (c flag : ℕ)
    → length qs ≡ max_no_of_clients
    → Seen qs c flag
    → (2 - flag) * max_no_of_clients < fuel + c
    → (c' : ℕ) × (flag' : ℕ) × (find_slot fuel qs c flag ≡ some (c', flag')) × Found qs c' flag'
unfolding find_slot
find_slot-Found zero qs c flag len seen enough = elim (ℕ_discrete flag 2) [
  | yes two ↦ absurd (omega (arith, (seen.all_seen two).1, enough))
  | no less ↦ absurd (omega (arith, seen.in_range, seen.at_most_two, enough))
]
find_slot-Found (suc fuel) qs c flag len seen enough =
    let (slot, here, same) = get_elem?-slot_pid qs c (omega (arith, seen.in_range)) in
    elim (Bool-cases (slot.pid == 0)) [
      | inl free ↦ (c, flag, rw (here, free), stop_free seen (same ∙ (==_iff slot.pid 0).0 free))
      | inr busy ↦ elim (Bool-cases (ltb flag 2)) [
        | inl small ↦ elim (Bool-cases (c + 1 == max_no_of_clients)) [
          | inl wrap ↦
              rw (here, busy, small, wrap)
                (find_slot-Found fuel qs 0 (flag + 1) len
                  (Seen-wrap qs c flag seen (ground arith) (ground arith) (ground arith))
                  (ground arith))
          | inr on ↦
              rw (here, busy, small, on)
                (find_slot-Found fuel qs (c + 1) flag len
                  (Seen-step qs c flag seen (ground arith) (ground arith) (ground arith))
                  (ground arith))
        ]
        | inr done ↦
            (c, flag, rw (here, busy, done), stop_full seen (ground (arith, seen.at_most_two)))
      ]
    ]

-- The search of START always ends within its fuel: at a free slot, or with flag 2 when every slot is
-- taken.
pub find_slot_lem :
    (qs : List ClientInfo) (c : ℕ)
    → length qs ≡ max_no_of_clients
    → c < max_no_of_clients
    → (c' : ℕ) × (flag : ℕ) × (find_slot slot_fuel qs c 0 ≡ some (c', flag)) × Found qs c' flag
find_slot_lem qs c len h =
    find_slot-Found slot_fuel qs c 0 len
      (record {
        in_range = h;
        at_most_two = omega arith;
        second_round = λ e. absurd (omega arith);
        all_seen = λ e. absurd (omega arith);
      })
      (omega arith)
