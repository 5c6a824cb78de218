-- ===== src/Barber/Moves.antt =====
-- The loops and the signal handlers of cw07/zad1/barber.c and client.c, a call or an access to the
-- shared memory at a time. While a handler runs, the loop that it interrupts stands still.
use agh_so.Prelude.{ℕ, suc, ◌+◌, ◌-◌, ◌<◌, ◌≤◌, ◌≡◌, true, false, List, [], ◌∷◌}
use agh_so.Barber.Shop.{Config, Barber, Woken, Place, Invited, Shop, put, move_to, handle_at}

-- The loop of the barber.
pub data BarberMove (s : Shop) : Shop → Type 0 where
  lock :
      (k : ℕ)
      → s.barber ≡ Barber.start
      → s.shm_lock ≡ suc k
      → BarberMove s (record s { shm_lock = k; barber = Barber.locked })
  receive :
      (p : ℕ) (ps : List ℕ)
      → s.barber ≡ Barber.locked
      → s.fifo ≡ p ∷ ps
      → BarberMove s (record s { fifo = ps; barber = Barber.received p })
  nobody :
      s.barber ≡ Barber.locked → s.fifo ≡ [] → BarberMove s (record s { barber = Barber.tired })
  count :
      (p : ℕ)
      → s.barber ≡ Barber.received p
      → BarberMove s (record s { queued = s.queued - 1; barber = Barber.inviting p })
  invite :
      (p : ℕ)
      → s.barber ≡ Barber.inviting p
      → BarberMove s (record s {
        clients = put s.clients p (record (s.clients p) { invited = true });
        barber = Barber.seating p;
      })
  seat :
      (p k : ℕ)
      → s.barber ≡ Barber.seating p
      → s.to_barber ≡ suc k
      → BarberMove s (record s { to_barber = k; barber = Barber.shaving p })
  unlock :
      (p : ℕ)
      → s.barber ≡ Barber.shaving p
      → BarberMove s (record s { shm_lock = s.shm_lock + 1; barber = Barber.finishing p })
  finish :
      (p : ℕ)
      → s.barber ≡ Barber.finishing p
      → BarberMove s (record s { to_client = s.to_client + 1; barber = Barber.parting p })
  part :
      (p k : ℕ)
      → s.barber ≡ Barber.parting p
      → s.to_barber ≡ suc k
      → BarberMove s (record s { to_barber = k; barber = Barber.start })
  fall_asleep :
      s.barber ≡ Barber.tired → BarberMove s (record s { awake = false; barber = Barber.dozing })
  unlock_asleep :
      s.barber ≡ Barber.dozing
      → BarberMove s (record s { shm_lock = s.shm_lock + 1; barber = Barber.asleep })
  go_on :
      s.barber ≡ Barber.asleep → s.awake ≡ true → BarberMove s (record s { barber = Barber.start })

-- `catchSIGUSR2` of the barber.
pub data WokenMove (s : Shop) : Shop → Type 0 where
  catch :
      s.handler ≡ Woken.idle
      → s.woken ≡ true
      → WokenMove s (record s { woken = false; handler = Woken.caught })
  wake :
      s.handler ≡ Woken.caught → WokenMove s (record s { awake = true; handler = Woken.confirming })
  confirm :
      s.handler ≡ Woken.confirming
      → WokenMove s (record s { to_client = s.to_client + 1; handler = Woken.seating })
  seat :
      (k : ℕ)
      → s.handler ≡ Woken.seating
      → s.to_barber ≡ suc k
      → WokenMove s (record s { to_barber = k; handler = Woken.shaving })
  finish :
      s.handler ≡ Woken.shaving
      → WokenMove s (record s { to_client = s.to_client + 1; handler = Woken.parting })
  part :
      (k : ℕ)
      → s.handler ≡ Woken.parting
      → s.to_barber ≡ suc k
      → WokenMove s (record s { to_barber = k; handler = Woken.idle })

-- The loop of client `i`, but for sending its message.
pub data ClientMove (c : Config) (s : Shop) (i : ℕ) : Shop → Type 0 where
  lock :
      (m k : ℕ)
      → (s.clients i).place ≡ Place.start
      → (s.clients i).no_of_shaves ≡ suc m
      → s.shm_lock ≡ suc k
      → ClientMove c s i (record s { shm_lock = k; clients = move_to s i Place.locked })
  finish :
      (s.clients i).place ≡ Place.start
      → (s.clients i).no_of_shaves ≡ 0
      → ClientMove c s i (record s { clients = move_to s i Place.finished })
  see_awake :
      (s.clients i).place ≡ Place.locked
      → s.awake ≡ true
      → ClientMove c s i (record s { clients = move_to s i Place.counting })
  see_asleep :
      (s.clients i).place ≡ Place.locked
      → s.awake ≡ false
      → ClientMove c s i (record s { clients = move_to s i Place.waking })
  take_seat :
      (s.clients i).place ≡ Place.counting
      → s.queued < c.queue_size
      → ClientMove c s i (record s { queued = s.queued + 1; clients = move_to s i Place.taking })
  no_seat :
      (s.clients i).place ≡ Place.counting
      → c.queue_size ≤ s.queued
      → ClientMove c s i (record s { clients = move_to s i Place.refused })
  unlock_sent :
      (s.clients i).place ≡ Place.sent
      → ClientMove c s i (record s { shm_lock = s.shm_lock + 1; clients = move_to s i Place.queue })
  unlock_failed :
      (s.clients i).place ≡ Place.failed
      → ClientMove c s i (record s {
        shm_lock = s.shm_lock + 1;
        clients = move_to s i Place.finished;
        lost = s.lost + 1;
      })
  unlock_refused :
      (s.clients i).place ≡ Place.refused
      → ClientMove c s i (record s { shm_lock = s.shm_lock + 1; clients = move_to s i Place.start })
  be_shaved :
      (s.clients i).place ≡ Place.queue
      → (s.clients i).shaved ≡ true
      → ClientMove c s i (record s {
        clients = put s.clients i (record (s.clients i) {
          place = Place.start;
          shaved = false;
          no_of_shaves = (s.clients i).no_of_shaves - 1;
        });
      })
  wake :
      (s.clients i).place ≡ Place.waking
      → ClientMove c s i (record s { woken = true; clients = move_to s i Place.confirming })
  confirm :
      (k : ℕ)
      → (s.clients i).place ≡ Place.confirming
      → s.to_client ≡ suc k
      → ClientMove c s i (record s { to_client = k; clients = move_to s i Place.confirmed })
  unlock_confirmed :
      (s.clients i).place ≡ Place.confirmed
      → ClientMove c s i
          (record s { shm_lock = s.shm_lock + 1; clients = move_to s i Place.sitting })
  sit :
      (s.clients i).place ≡ Place.sitting
      → ClientMove c s i
          (record s { to_barber = s.to_barber + 1; clients = move_to s i Place.waiting })
  end_shave :
      (k : ℕ)
      → (s.clients i).place ≡ Place.waiting
      → s.to_client ≡ suc k
      → ClientMove c s i (record s { to_client = k; clients = move_to s i Place.leaving })
  leave :
      (s.clients i).place ≡ Place.leaving
      → ClientMove c s i (record s {
        to_barber = s.to_barber + 1;
        clients = put s.clients i (record (s.clients i) {
          place = Place.start;
          no_of_shaves = (s.clients i).no_of_shaves - 1;
        });
      })

-- `catchSIGUSR1` of client `i`.
pub data InvitedMove (s : Shop) (i : ℕ) : Shop → Type 0 where
  catch :
      (s.clients i).handler ≡ Invited.idle
      → (s.clients i).invited ≡ true
      → InvitedMove s i (record s {
        clients =
            put s.clients i (record (s.clients i) { invited = false; handler = Invited.sitting });
      })
  sit :
      (s.clients i).handler ≡ Invited.sitting
      → InvitedMove s i
          (record s { to_barber = s.to_barber + 1; clients = handle_at s i Invited.waiting })
  end_shave :
      (k : ℕ)
      → (s.clients i).handler ≡ Invited.waiting
      → s.to_client ≡ suc k
      → InvitedMove s i (record s { to_client = k; clients = handle_at s i Invited.leaving })
  leave :
      (s.clients i).handler ≡ Invited.leaving
      → InvitedMove s i
          (record s { to_barber = s.to_barber + 1; clients = handle_at s i Invited.left })
  mark :
      (s.clients i).handler ≡ Invited.left
      → InvitedMove s i (record s {
        clients = put s.clients i (record (s.clients i) { handler = Invited.idle; shaved = true });
      })
