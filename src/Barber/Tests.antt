-- ===== src/Barber/Tests.antt =====
-- Runs of one client of cw07/zad1 and cw07/zad2 with a queue of one seat.
use agh_so.Prelude.{ℕ, ◌+◌, ◌≡◌, ◌≤◌, ◌⊎◌, refl, ap, false, [], length, arith}
use agh_so.Barber.Shop.{Config, Barber, Place, Shop, start_shop}
use agh_so.Barber.Moves.{BarberMove, ClientMove}
use agh_so.Barber.Systems.{Send, SysvStep, PosixStep, SysvReach, PosixReach}
use agh_so.Barber.Lock.{client_holds, barber_holds}
use agh_so.Barber.Bounds.{posix_is_sysv, exclusion, seats}

abbrev one_seat : Config
one_seat = record { queue_size = 1; no_of_clients = 1; no_of_shaves = 1 }

-- The client is about to send its message.
abbrev taking : (s : Shop) × PosixReach one_seat s × ((s.clients 0).place ≡ Place.taking)
unfolding start_shop
taking =
    let r1 =
      PosixReach.later PosixReach.begin
        (PosixStep.client 0 (omega arith) refl (ClientMove.lock 0 0 refl refl refl)) in
    let r2 =
      PosixReach.later r1
        (PosixStep.client 0 (omega arith) refl (ClientMove.see_awake refl refl)) in
    let r3 =
      PosixReach.later r2
        (PosixStep.client 0 (omega arith) refl (ClientMove.take_seat refl (omega arith))) in
    (_, r3, refl)

-- The barber has received it.
abbrev received : (s : Shop) × SysvReach one_seat s × (s.barber ≡ Barber.received 0)
unfolding start_shop
received =
    let r1 =
      SysvReach.later SysvReach.begin
        (SysvStep.client 0 (omega arith) refl (ClientMove.lock 0 0 refl refl refl)) in
    let r2 =
      SysvReach.later r1 (SysvStep.client 0 (omega arith) refl (ClientMove.see_awake refl refl)) in
    let r3 =
      SysvReach.later r2
        (SysvStep.client 0 (omega arith) refl (ClientMove.take_seat refl (omega arith))) in
    let r4 = SysvReach.later r3 (SysvStep.send 0 (omega arith) refl (Send.sends refl)) in
    let r5 =
      SysvReach.later r4 (SysvStep.client 0 (omega arith) refl (ClientMove.unlock_sent refl)) in
    let r6 = SysvReach.later r5 (SysvStep.barber refl (BarberMove.lock 0 refl refl)) in
    let r7 = SysvReach.later r6 (SysvStep.barber refl (BarberMove.receive 0 [] refl refl)) in
    (_, r7, refl)

exclusion_example : (◌≡◌ {A = ℕ} 0 0) × (barber_holds taking.0.barber ≡ false)
exclusion_example =
    exclusion (posix_is_sysv taking.1) 0 0 (ap client_holds taking.2) (ap client_holds taking.2)

seats_example :
    (received.0.queued ≤ 1)
    × (length received.0.fifo + received.0.lost ≤ received.0.queued)
    × ((received.0.shm_lock ≡ 0) ⊎ (received.0.queued ≡ length received.0.fifo + received.0.lost))
seats_example = seats received.1
