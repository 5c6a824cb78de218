-- ===== src/Barber/Bounds.antt =====
-- What holds in every state that the programs of cw07/zad1 and cw07/zad2 can come to.
use agh_so.Prelude.{
  ℕ, ◌+◌, ◌≡◌, ◌≢◌, ◌≤◌, ◌<◌, ◌⊎◌, inl, inr, sym, ap, ◌∙◌, true, false, length, arith, ℕ_discrete,
}
use agh_so.Barber.Shop.{Config, Barber, Place, Client, Shop}
use agh_so.Barber.Systems.{SysvStep, PosixStep, SysvReach, PosixReach}
use agh_so.Barber.Lock.{Owner, barber_holds, client_holds, barber_extra, client_extra}
use agh_so.Barber.Seats.{IsOrderly, start_shop-IsOrderly, SysvStep-IsOrderly}

SysvReach-IsOrderly : {c : Config} {s : Shop} → SysvReach c s → IsOrderly c s
SysvReach-IsOrderly {c} SysvReach.begin = start_shop-IsOrderly c
SysvReach-IsOrderly (SysvReach.later r m) = SysvStep-IsOrderly (SysvReach-IsOrderly r) m

-- A POSIX queue does nothing that a System V queue does not do.
step_of : {c : Config} {s t : Shop} → PosixStep c s t → SysvStep c s t
step_of (PosixStep.barber h m) = SysvStep.barber h m
step_of (PosixStep.woken m) = SysvStep.woken m
step_of (PosixStep.client i l h m) = SysvStep.client i l h m
step_of (PosixStep.send i l h _ m) = SysvStep.send i l h m
step_of (PosixStep.invited i l m) = SysvStep.invited i l m

-- Every state that the programs of cw07/zad2 can come to is one that those of cw07/zad1 can come to,
-- with the same size of the queue and the same clients.
pub posix_is_sysv : {c : Config} {s : Shop} → PosixReach c s → SysvReach c s
posix_is_sysv PosixReach.begin = SysvReach.begin
posix_is_sysv (PosixReach.later r m) = SysvReach.later (posix_is_sysv r) (step_of m)

holder_is :
    (clients : ℕ → Client) (k i : ℕ)
    → ((j : ℕ) → k ≢ j → client_holds (clients j).place ≡ false)
    → client_holds (clients i).place ≡ true
    → k ≡ i
holder_is clients k i others h = elim (ℕ_discrete k i) [
  | yes e ↦ e
  | no ne ↦ absurd (cc (others i ne))
]

-- In every state that the programs of cw07/zad1 can come to, if two clients are between the lock and
-- the unlock of the FIFO and the shared memory, they are the same, and the barber is not there.
pub exclusion :
    {c : Config} {s : Shop}
    → SysvReach c s
    → (i j : ℕ) → client_holds (s.clients i).place ≡ true
    → client_holds (s.clients j).place ≡ true
    → (i ≡ j) × (barber_holds s.barber ≡ false)
exclusion {c} {s} r i j h h' = elim ((SysvReach-IsOrderly r).owner) [
  | Owner.nobody _ _ others _ ↦ absurd (cc (others i))
  | Owner.barber _ _ others _ ↦ absurd (cc (others i))
  | Owner.client k _ out _ others _ ↦
      (sym (holder_is s.clients k i others h) ∙ holder_is s.clients k j others h', out)
]

-- In every state that the programs of cw07/zad1 can come to, `shmAddr[2]` is at most the size of the
-- queue, the messages in the FIFO and the failed sends together are at most `shmAddr[2]`, and they
-- are as many unless someone holds the lock.
pub seats :
    {c : Config} {s : Shop}
    → SysvReach c s
    → (s.queued ≤ c.queue_size)
      × (length s.fifo + s.lost ≤ s.queued)
      × ((s.shm_lock ≡ 0) ⊎ (s.queued ≡ length s.fifo + s.lost))
seats {c} {s} r =
    let v = SysvReach-IsOrderly r in
    (
      v.bounded,
      omega (arith, v.counted),
      elim v.owner [
        | Owner.nobody _ _ _ none_more ↦ inr (omega (arith, v.counted))
        | Owner.barber closed _ _ _ ↦ inl closed
        | Owner.client _ closed _ _ _ _ ↦ inl closed
      ],
    )

-- In every state that the programs of cw07/zad1 can come to, `shmAddr[2]` is not 0 where the barber,
-- having received a message, is about to decrement it.
pub count_above_zero :
    {c : Config} {s : Shop} → SysvReach c s → (p : ℕ) → s.barber ≡ Barber.received p → s.queued ≢ 0
count_above_zero {c} {s} r p e = elim (v.owner) [
  | Owner.nobody _ out _ _ ↦ absurd (cc (ap barber_holds e))
  | Owner.barber _ _ _ x ↦
      let one : v.extra ≡ 1 = x ∙ ap barber_extra e in λ z. omega (arith, v.counted, one, z)
  | Owner.client _ _ out _ _ _ ↦ absurd (cc (ap barber_holds e))
]
  where
    v : IsOrderly c s
    v = SysvReach-IsOrderly r

-- In every state that the programs of cw07/zad2 can come to, a client that is about to send its
-- message finds room for it in the queue, so that `mq_send` does not wait while the lock is held.
pub send_fits :
    {c : Config} {s : Shop}
    → PosixReach c s
    → (i : ℕ) → (s.clients i).place ≡ Place.taking
    → length s.fifo < c.queue_size
send_fits {c} {s} r i e = elim (v.owner) [
  | Owner.nobody _ _ others _ ↦ absurd (cc (others i, ap client_holds e))
  | Owner.barber _ _ others _ ↦ absurd (cc (others i, ap client_holds e))
  | Owner.client k _ _ _ others x ↦ elim (ℕ_discrete k i) [
    | no ne ↦ absurd (cc (others i ne, ap client_holds e))
    | yes same ↦
        let one : v.extra ≡ 1 =
          x ∙ ap (λ j. client_extra (s.clients j).place) same ∙ ap client_extra e in
        omega (arith, v.counted, v.bounded, one)
  ]
]
  where
    v : IsOrderly c s
    v = SysvReach-IsOrderly (posix_is_sysv r)
