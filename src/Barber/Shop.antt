-- ===== src/Barber/Shop.antt =====
-- What the barber and the clients of cw07/zad1 and cw07/zad2 share, and where each of them is.
use agh_so.Prelude.{ℕ, ◌≡◌, ◌≢◌, Bool, true, false, List, [], ◌==◌, if◌then◌else◌, arith}

-- The arguments of the programs: the size of the queue, the number of clients and of their shaves.
pub record Config : Type 0 where
  pub queue_size : ℕ
  pub no_of_clients : ℕ
  pub no_of_shaves : ℕ

-- Where `main` of the barber is; `p` is the client whose message it has received.
pub data Barber : Type 0 where
  start : Barber  -- before the lock of the FIFO and of the shared memory
  locked : Barber  -- before the message is received
  received : (p : ℕ) → Barber  -- before `shmAddr[2]--`
  inviting : (p : ℕ) → Barber  -- before SIGUSR1
  seating : (p : ℕ) → Barber  -- waits for the client to sit down
  shaving : (p : ℕ) → Barber  -- before the unlock
  finishing : (p : ℕ) → Barber  -- before the client is told
  parting : (p : ℕ) → Barber  -- waits for the client to leave
  tired : Barber  -- before `shmAddr[0] = 0`
  dozing : Barber  -- before the unlock
  asleep : Barber  -- in `while (!shmAddr[0])`

-- Where the barber is in `catchSIGUSR2`, of cw07/zad2 as of cw07/zad1.
pub data Woken : Type 0 where
  idle : Woken
  caught : Woken  -- before `shmAddr[0] = 1`
  confirming : Woken
  seating : Woken
  shaving : Woken
  parting : Woken

-- Where a client is in its loop.
pub data Place : Type 0 where
  start : Place  -- at the test of `noOfShaves`
  locked : Place  -- before `shmAddr[0]` is read
  counting : Place  -- before `shmAddr[2] < shmAddr[1]`
  taking : Place  -- after `shmAddr[2]++`
  sent : Place  -- after the message, before the unlock
  failed : Place  -- after a failed send, before the unlock
  refused : Place  -- no free seats, before the unlock
  queue : Place  -- in `while (!shaved)`
  waking : Place  -- before SIGUSR2
  confirming : Place  -- waits for the barber to be awake
  confirmed : Place  -- before the unlock
  sitting : Place  -- before the barber is told
  waiting : Place  -- waits for the shave
  leaving : Place  -- before the barber is told
  finished : Place

-- Where a client is in `catchSIGUSR1`, of cw07/zad2 as of cw07/zad1.
pub data Invited : Type 0 where
  idle : Invited
  sitting : Invited
  waiting : Invited
  leaving : Invited
  left : Invited  -- before `shaved = 1`

-- `invited` says that SIGUSR1 has been sent and not yet caught.
pub record Client : Type 0 where
  pub place : Place
  pub handler : Invited
  pub invited : Bool
  pub shaved : Bool
  pub no_of_shaves : ℕ

-- `awake` and `queued` are shmAddr[0] and shmAddr[2], the next three the semaphores 0, 1 and 2;
-- `woken` says that SIGUSR2 has been sent and not yet caught, `lost` counts failed sends.
pub record Shop : Type 0 where
  pub awake : Bool
  pub queued : ℕ
  pub fifo : List ℕ
  pub shm_lock : ℕ
  pub to_barber : ℕ
  pub to_client : ℕ
  pub barber : Barber
  pub handler : Woken
  pub woken : Bool
  pub clients : ℕ → Client
  pub lost : ℕ

abbrev pub put : (ℕ → Client) → ℕ → Client → (ℕ → Client)
put clients i c j = if i == j then c else clients j

pub put_same : (clients : ℕ → Client) (i : ℕ) (c : Client) → put clients i c i ≡ c
put_same clients i c = ground arith

pub put_other :
    (clients : ℕ → Client) (i : ℕ) (c : Client) (j : ℕ) → i ≢ j → put clients i c j ≡ clients j
put_other clients i c j ne = ground arith

-- A client comes to another place.
abbrev pub move_to : Shop → ℕ → Place → (ℕ → Client)
move_to s i p = put s.clients i (record (s.clients i) { place = p })

-- A client comes to another place in its handler.
abbrev pub handle_at : Shop → ℕ → Invited → (ℕ → Client)
handle_at s i h = put s.clients i (record (s.clients i) { handler = h })

abbrev pub new_client : Config → Client
new_client c = record {
  place = Place.start;
  handler = Invited.idle;
  invited = false;
  shaved = false;
  no_of_shaves = c.no_of_shaves;
}

-- Before the loops of the barber and of the clients.
unfoldable pub start_shop : Config → Shop
start_shop c = record {
  awake = true;
  queued = 0;
  fifo = [];
  shm_lock = 1;
  to_barber = 0;
  to_client = 0;
  barber = Barber.start;
  handler = Woken.idle;
  woken = false;
  clients = λ i. new_client c;
  lost = 0;
}
