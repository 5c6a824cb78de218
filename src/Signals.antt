-- ===== src/Signals.antt =====
-- cw04/zad3/zad3.c: a parent sends L signals to its child, which counts them and sends each back.
pub mod Flood
pub mod PingPong
mod Tests
use agh_so.Prelude.{ℕ, zero, suc, ◌+◌, ◌≡◌, ◌≢◌, Bool, true, false, if◌then◌else◌}

-- A signal while `n` are pending: real time signals are queued, and of the others one is kept.
unfoldable pub pend : Bool → ℕ → ℕ
pend queued n = if queued then n + 1 else 1

-- Where the child is in `catchChildUSR1`, and the parent in `catchParentUSR1` or `catchParent2USR1`.
pub data Catching : Type 0 where
  idle : Catching
  caught : Catching
  counted : Catching  -- after `recByChild++` or `recByPar++`
  sent : Catching  -- after `sentToChild++` in the parent

-- Where the parent is in `main`.
pub data Sending : Type 0 where
  loop : (left : ℕ) → Sending  -- before a round of `for`, with the rounds that are left
  count : (left : ℕ) → Sending  -- before `sentToChild++`
  first : Sending  -- before the only signal that `main` sends with type 2
  wait : Sending  -- in `while (sentToChild != L)`
  stop : Sending  -- before the signal that ends the child
  over : Sending

-- `to_child` and `to_parent` are the pending signals; `stopping` says that the signal that ends the
-- child has been sent, `stopped` that it has been caught.
pub record State : Type 0 where
  pub sent_to_child : ℕ
  pub rec_by_child : ℕ
  pub rec_by_par : ℕ
  pub to_child : ℕ
  pub to_parent : ℕ
  pub child : Catching
  pub parent : Catching
  pub main : Sending
  pub stopping : Bool
  pub stopped : Bool

unfoldable pub start_state : Sending → State
start_state main = record {
  sent_to_child = 0;
  rec_by_child = 0;
  rec_by_par = 0;
  to_child = 0;
  to_parent = 0;
  child = Catching.idle;
  parent = Catching.idle;
  main = main;
  stopping = false;
  stopped = false;
}

-- `catchChildUSR1` and `catchUSR2`, which may interrupt it.
pub data ChildMove (queued : Bool) (s : State) : State → Type 0 where
  catch :
      (n : ℕ)
      → s.child ≡ Catching.idle
      → s.to_child ≡ suc n
      → ChildMove queued s
          (record s { to_child = if queued then n else 0; child = Catching.caught })
  count :
      s.child ≡ Catching.caught
      → ChildMove queued s
          (record s { rec_by_child = s.rec_by_child + 1; child = Catching.counted })
  answer :
      s.child ≡ Catching.counted
      → ChildMove queued s (record s { to_parent = pend queued s.to_parent; child = Catching.idle })
  exit : s.stopping ≡ true → ChildMove queued s (record s { stopped = true })

-- The parent with type 1, where signals are not queued, and with type 3, where they are.
pub data FloodMove (queued : Bool) (s : State) : State → Type 0 where
  send :
      (n : ℕ)
      → s.main ≡ Sending.loop (suc n)
      → FloodMove queued s (record s { to_child = pend queued s.to_child; main = Sending.count n })
  add :
      (n : ℕ)
      → s.main ≡ Sending.count n
      → FloodMove queued s (record s { sent_to_child = s.sent_to_child + 1; main = Sending.loop n })
  all_sent : s.main ≡ Sending.loop 0 → FloodMove queued s (record s { main = Sending.stop })
  stop :
      s.main ≡ Sending.stop → FloodMove queued s (record s { stopping = true; main = Sending.over })
  catch :
      (n : ℕ)
      → s.parent ≡ Catching.idle
      → s.to_parent ≡ suc n
      → FloodMove queued s
          (record s { to_parent = if queued then n else 0; parent = Catching.caught })
  count :
      s.parent ≡ Catching.caught
      → FloodMove queued s (record s { rec_by_par = s.rec_by_par + 1; parent = Catching.idle })

-- The parent with type 2, whose handler sends the next signal.
pub data PingMove (l : ℕ) (s : State) : State → Type 0 where
  send :
      s.main ≡ Sending.first
      → PingMove l s (record s { to_child = pend false s.to_child; main = Sending.wait })
  all_sent :
      s.main ≡ Sending.wait → s.sent_to_child ≡ l → PingMove l s (record s { main = Sending.stop })
  stop : s.main ≡ Sending.stop → PingMove l s (record s { stopping = true; main = Sending.over })
  catch :
      (n : ℕ)
      → s.parent ≡ Catching.idle
      → s.to_parent ≡ suc n
      → PingMove l s (record s { to_parent = 0; parent = Catching.caught })
  count :
      s.parent ≡ Catching.caught
      → PingMove l s (record s { rec_by_par = s.rec_by_par + 1; parent = Catching.counted })
  add :
      s.parent ≡ Catching.counted
      → PingMove l s (record s { sent_to_child = s.sent_to_child + 1; parent = Catching.sent })
  again :
      s.parent ≡ Catching.sent
      → s.sent_to_child ≢ l
      → PingMove l s (record s { to_child = pend false s.to_child; parent = Catching.idle })
  enough :
      s.parent ≡ Catching.sent
      → s.sent_to_child ≡ l
      → PingMove l s (record s { parent = Catching.idle })

-- The states that the program can come to with type 1 or 3, and with type 2.
pub data FloodReach (queued : Bool) (l : ℕ) : State → Type 0 where
  begin : FloodReach queued l (start_state (Sending.loop l))
  parent : {s t : State} → FloodReach queued l s → FloodMove queued s t → FloodReach queued l t
  child :
      {s t : State}
      → FloodReach queued l s
      → s.stopped ≡ false
      → ChildMove queued s t
      → FloodReach queued l t

pub data PingReach (l : ℕ) : State → Type 0 where
  begin : PingReach l (start_state Sending.first)
  parent : {s t : State} → PingReach l s → PingMove l s t → PingReach l t
  child : {s t : State} → PingReach l s → s.stopped ≡ false → ChildMove false s t → PingReach l t
