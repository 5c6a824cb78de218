-- ===== src/Barber/Seats.antt =====
-- The queue of cw07/zad1 and cw07/zad2: what `shmAddr[2]` counts.
use agh_so.Prelude.{
  ℕ, ◌+◌, ◌≡◌, ◌≤◌, refl, ◌∙◌, Bool, true, false, [], ◌∷◌, length, length-append, arith,
}
use agh_so.Barber.Shop.{Config, Barber, Woken, Place, Client, Shop, move_to, start_shop}
use agh_so.Barber.Moves.{BarberMove, WokenMove, ClientMove, InvitedMove}
use agh_so.Barber.Systems.{Send, SysvStep}
use agh_so.Barber.Lock.{
  Owner, client_holds, client_extra, barber_keeps, barber_passes, barber_locks, barber_unlocks,
  client_keeps, client_passes, client_locks, client_unlocks, client_stays,
}

-- One process at most holds the lock, and `queued` counts the clients in the FIFO, the one that the
-- holder has counted there, and the sends that have failed; it is at most the size of the queue.
pub record IsOrderly (c : Config) (s : Shop) : Type 0 where
  pub extra : ℕ
  pub owner : Owner s.shm_lock s.barber s.clients extra
  pub counted : s.queued ≡ length s.fifo + s.lost + extra
  pub bounded : s.queued ≤ c.queue_size

module _ {c : Config} {s : Shop} (v : IsOrderly c s) where
  open v use {extra, owner, counted, bounded}

  same_lock :
      {b : Barber} {clients : ℕ → Client} (aw : Bool) (tb tc : ℕ) (h : Woken) (w : Bool)
      → Owner s.shm_lock b clients extra
      → IsOrderly c (record s {
        awake = aw;
        to_barber = tb;
        to_client = tc;
        handler = h;
        woken = w;
        barber = b;
        clients = clients;
      })
  same_lock aw tb tc h w o = record {
    extra = extra;
    owner = o;
    counted = counted;
    bounded = bounded;
  }

  BarberMove-IsOrderly : {t : Shop} → BarberMove s t → IsOrderly c t
  BarberMove-IsOrderly (BarberMove.lock k e l) =
      let (x, o) = barber_locks owner Barber.locked k l refl in
      record { extra = _; owner = o; counted = omega (arith, counted, x); bounded = bounded }
  BarberMove-IsOrderly (BarberMove.receive p ps e f) =
      let (x, o) = barber_keeps owner (Barber.received p) (rw e refl) refl in
      record {
        extra = _;
        owner = o;
        counted = counted ∙ (rw (f, x, e) (omega arith));
        bounded = bounded;
      }
  BarberMove-IsOrderly (BarberMove.nobody e f) =
      let (x, o) = barber_keeps owner Barber.tired (rw e refl) refl in
      record { extra = _; owner = o; counted = counted ∙ (rw (x, e) refl); bounded = bounded }
  BarberMove-IsOrderly (BarberMove.count p e) =
      let (x, o) = barber_keeps owner (Barber.inviting p) (rw e refl) refl in
      let one : extra ≡ 1 = x ∙ (rw e refl) in
      record {
        extra = _;
        owner = o;
        counted = omega (arith, counted, one);
        bounded = omega (arith, bounded);
      }
  BarberMove-IsOrderly (BarberMove.invite p e) =
      let (x, o) = barber_keeps owner (Barber.seating p) (rw e refl) refl in
      let zero : extra ≡ 0 = x ∙ (rw e refl) in
      record {
        extra = _;
        owner = client_stays o p (record (s.clients p) { invited = true }) refl;
        counted = omega (arith, counted, zero);
        bounded = bounded;
      }
  BarberMove-IsOrderly (BarberMove.seat p k e f) =
      let (x, o) = barber_keeps owner (Barber.shaving p) (rw e refl) refl in
      record { extra = _; owner = o; counted = counted ∙ (rw (x, e) refl); bounded = bounded }
  BarberMove-IsOrderly (BarberMove.unlock p e) =
      let (x, o) = barber_unlocks owner (Barber.finishing p) (rw e refl) refl in
      record { extra = _; owner = o; counted = counted ∙ (rw (x, e) refl); bounded = bounded }
  BarberMove-IsOrderly (BarberMove.finish p e) =
      same_lock _ _ _ _ _ (barber_passes owner _ (rw e refl) refl)
  BarberMove-IsOrderly (BarberMove.part p k e f) =
      same_lock _ _ _ _ _ (barber_passes owner _ (rw e refl) refl)
  BarberMove-IsOrderly (BarberMove.fall_asleep e) =
      let (x, o) = barber_keeps owner Barber.dozing (rw e refl) refl in
      record { extra = _; owner = o; counted = counted ∙ (rw (x, e) refl); bounded = bounded }
  BarberMove-IsOrderly (BarberMove.unlock_asleep e) =
      let (x, o) = barber_unlocks owner Barber.asleep (rw e refl) refl in
      record { extra = _; owner = o; counted = counted ∙ (rw (x, e) refl); bounded = bounded }
  BarberMove-IsOrderly (BarberMove.go_on e f) =
      same_lock _ _ _ _ _ (barber_passes owner _ (rw e refl) refl)

  WokenMove-IsOrderly : {t : Shop} → WokenMove s t → IsOrderly c t
  WokenMove-IsOrderly (WokenMove.catch e f) = same_lock _ _ _ _ _ owner
  WokenMove-IsOrderly (WokenMove.wake e) = same_lock _ _ _ _ _ owner
  WokenMove-IsOrderly (WokenMove.confirm e) = same_lock _ _ _ _ _ owner
  WokenMove-IsOrderly (WokenMove.seat k e f) = same_lock _ _ _ _ _ owner
  WokenMove-IsOrderly (WokenMove.finish e) = same_lock _ _ _ _ _ owner
  WokenMove-IsOrderly (WokenMove.part k e f) = same_lock _ _ _ _ _ owner

  -- A client that holds the lock goes on with it, or opens it.
  goes_on :
      (i : ℕ) (p : Place) (w : Bool) (tc : ℕ)
      → client_holds (s.clients i).place ≡ true
      → client_holds p ≡ true
      → client_extra (s.clients i).place ≡ client_extra p
      → IsOrderly c (record s { woken = w; to_client = tc; clients = move_to s i p })
  goes_on i p w tc h h' same =
      let (x, o) = client_keeps owner i (record (s.clients i) { place = p }) h h' in
      record { extra = _; owner = o; counted = omega (arith, counted, x, same); bounded = bounded }

  unlocks :
      (i : ℕ) (p : Place) (lost : ℕ)
      → client_holds (s.clients i).place ≡ true
      → client_holds p ≡ false
      → s.lost + client_extra (s.clients i).place ≡ lost
      → IsOrderly c (record s { shm_lock = s.shm_lock + 1; clients = move_to s i p; lost = lost })
  unlocks i p lost h h' all =
      let (x, o) = client_unlocks owner i (record (s.clients i) { place = p }) h h' in
      record { extra = _; owner = o; counted = omega (arith, counted, x, all); bounded = bounded }

  ClientMove-IsOrderly : {i : ℕ} {t : Shop} → ClientMove c s i t → IsOrderly c t
  ClientMove-IsOrderly {i} (ClientMove.lock m k e f l) =
      let (x, o) = client_locks owner i (record (s.clients i) { place = Place.locked }) k l refl in
      record { extra = _; owner = o; counted = omega (arith, counted, x); bounded = bounded }
  ClientMove-IsOrderly {i} (ClientMove.finish e f) =
      same_lock _ _ _ _ _ (client_passes owner i _ (rw e refl) refl)
  ClientMove-IsOrderly {i} (ClientMove.see_awake e f) = goes_on i _ _ _ (rw e refl) refl (rw e refl)
  ClientMove-IsOrderly {i} (ClientMove.see_asleep e f) =
      goes_on i _ _ _ (rw e refl) refl (rw e refl)
  ClientMove-IsOrderly {i} (ClientMove.take_seat e f) =
      let (x, o) =
        client_keeps owner i (record (s.clients i) { place = Place.taking }) (rw e refl) refl in
      let zero : extra ≡ 0 = x ∙ (rw e refl) in
      record { extra = _; owner = o; counted = omega (arith, counted, zero); bounded = omega arith }
  ClientMove-IsOrderly {i} (ClientMove.no_seat e f) = goes_on i _ _ _ (rw e refl) refl (rw e refl)
  ClientMove-IsOrderly {i} (ClientMove.unlock_sent e) =
      unlocks i _ _ (rw e refl) refl (rw e (omega arith))
  ClientMove-IsOrderly {i} (ClientMove.unlock_failed e) = unlocks i _ _ (rw e refl) refl (rw e refl)
  ClientMove-IsOrderly {i} (ClientMove.unlock_refused e) =
      unlocks i _ _ (rw e refl) refl (rw e (omega arith))
  ClientMove-IsOrderly {i} (ClientMove.be_shaved e f) =
      same_lock _ _ _ _ _ (client_passes owner i _ (rw e refl) refl)
  ClientMove-IsOrderly {i} (ClientMove.wake e) = goes_on i _ _ _ (rw e refl) refl (rw e refl)
  ClientMove-IsOrderly {i} (ClientMove.confirm k e f) = goes_on i _ _ _ (rw e refl) refl (rw e refl)
  ClientMove-IsOrderly {i} (ClientMove.unlock_confirmed e) =
      unlocks i _ _ (rw e refl) refl (rw e (omega arith))
  ClientMove-IsOrderly {i} (ClientMove.sit e) =
      same_lock _ _ _ _ _ (client_passes owner i _ (rw e refl) refl)
  ClientMove-IsOrderly {i} (ClientMove.end_shave k e f) =
      same_lock _ _ _ _ _ (client_passes owner i _ (rw e refl) refl)
  ClientMove-IsOrderly {i} (ClientMove.leave e) =
      same_lock _ _ _ _ _ (client_passes owner i _ (rw e refl) refl)

  InvitedMove-IsOrderly : {i : ℕ} {t : Shop} → InvitedMove s i t → IsOrderly c t
  InvitedMove-IsOrderly {i} (InvitedMove.catch e f) =
      same_lock _ _ _ _ _ (client_stays owner i _ refl)
  InvitedMove-IsOrderly {i} (InvitedMove.sit e) = same_lock _ _ _ _ _ (client_stays owner i _ refl)
  InvitedMove-IsOrderly {i} (InvitedMove.end_shave k e f) =
      same_lock _ _ _ _ _ (client_stays owner i _ refl)
  InvitedMove-IsOrderly {i} (InvitedMove.leave e) =
      same_lock _ _ _ _ _ (client_stays owner i _ refl)
  InvitedMove-IsOrderly {i} (InvitedMove.mark e) = same_lock _ _ _ _ _ (client_stays owner i _ refl)

  Send-IsOrderly : {i : ℕ} {t : Shop} → Send s i t → IsOrderly c t
  Send-IsOrderly {i} (Send.sends e) =
      let (x, o) =
        client_keeps owner i (record (s.clients i) { place = Place.sent }) (rw e refl) refl in
      let one : extra ≡ 1 = x ∙ (rw e refl) in
      record {
        extra = _;
        owner = o;
        counted = omega (arith, counted, one, length-append s.fifo (i ∷ []));
        bounded = bounded;
      }
  Send-IsOrderly {i} (Send.fails e) = goes_on i _ _ _ (rw e refl) refl (rw e refl)

  pub SysvStep-IsOrderly : {t : Shop} → SysvStep c s t → IsOrderly c t
  SysvStep-IsOrderly (SysvStep.barber _ m) = BarberMove-IsOrderly m
  SysvStep-IsOrderly (SysvStep.woken m) = WokenMove-IsOrderly m
  SysvStep-IsOrderly (SysvStep.client i _ _ m) = ClientMove-IsOrderly m
  SysvStep-IsOrderly (SysvStep.send i _ _ m) = Send-IsOrderly m
  SysvStep-IsOrderly (SysvStep.invited i _ m) = InvitedMove-IsOrderly m

pub start_shop-IsOrderly : (c : Config) → IsOrderly c (start_shop c)
unfolding start_shop
start_shop-IsOrderly c = record {
  extra = 0;
  owner = Owner.nobody refl refl (λ j. refl) refl;
  counted = refl;
  bounded = omega arith;
}
