-- ===== src/Barber/Systems.antt =====
-- The programs of cw07/zad1, with a System V queue, and of cw07/zad2, with a POSIX queue that is
-- opened for `queue_size` messages, so that a send waits while it is full. Any send may fail.
use agh_so.Prelude.{ℕ, ◌<◌, ◌≡◌, [], ◌∷◌, ◌++◌, length}
use agh_so.Barber.Shop.{Config, Woken, Place, Invited, Shop, move_to, start_shop}
use agh_so.Barber.Moves.{BarberMove, WokenMove, ClientMove, InvitedMove}

-- `msgsnd`, or `mq_send` with the priority that all messages have.
pub data Send (s : Shop) (i : ℕ) : Shop → Type 0 where
  sends :
      (s.clients i).place ≡ Place.taking
      → Send s i (record s { fifo = s.fifo ++ i ∷ []; clients = move_to s i Place.sent })
  fails :
      (s.clients i).place ≡ Place.taking
      → Send s i (record s { clients = move_to s i Place.failed })

-- A step of cw07/zad1.
pub data SysvStep (c : Config) (s : Shop) (t : Shop) : Type 0 where
  barber : s.handler ≡ Woken.idle → BarberMove s t → SysvStep c s t
  woken : WokenMove s t → SysvStep c s t
  client :
      (i : ℕ)
      → i < c.no_of_clients
      → (s.clients i).handler ≡ Invited.idle
      → ClientMove c s i t
      → SysvStep c s t
  send :
      (i : ℕ)
      → i < c.no_of_clients
      → (s.clients i).handler ≡ Invited.idle
      → Send s i t
      → SysvStep c s t
  invited : (i : ℕ) → i < c.no_of_clients → InvitedMove s i t → SysvStep c s t

-- A step of cw07/zad2.
pub data PosixStep (c : Config) (s : Shop) (t : Shop) : Type 0 where
  barber : s.handler ≡ Woken.idle → BarberMove s t → PosixStep c s t
  woken : WokenMove s t → PosixStep c s t
  client :
      (i : ℕ)
      → i < c.no_of_clients
      → (s.clients i).handler ≡ Invited.idle
      → ClientMove c s i t
      → PosixStep c s t
  send :
      (i : ℕ)
      → i < c.no_of_clients
      → (s.clients i).handler ≡ Invited.idle
      → length s.fifo < c.queue_size
      → Send s i t
      → PosixStep c s t
  invited : (i : ℕ) → i < c.no_of_clients → InvitedMove s i t → PosixStep c s t

pub data SysvReach (c : Config) : Shop → Type 0 where
  begin : SysvReach c (start_shop c)
  later : {s t : Shop} → SysvReach c s → SysvStep c s t → SysvReach c t

pub data PosixReach (c : Config) : Shop → Type 0 where
  begin : PosixReach c (start_shop c)
  later : {s t : Shop} → PosixReach c s → PosixStep c s t → PosixReach c t
