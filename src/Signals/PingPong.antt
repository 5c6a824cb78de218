-- ===== src/Signals/PingPong.antt =====
-- What cw04/zad3/zad3.c counts with type 2, where each side sends the next signal when it has caught
-- the last.
use agh_so.Prelude.{ℕ, ◌+◌, ◌≤◌, ◌≡◌, ◌≢◌, ap, false, arith}
use agh_so.Signals.{Catching, Sending, State, pend, start_state, ChildMove, PingMove, PingReach}

abbrev is_caught : Catching → ℕ
is_caught Catching.caught = 1
is_caught _ = 0

abbrev is_counted : Catching → ℕ
is_counted Catching.counted = 1
is_counted _ = 0

abbrev is_sent : Catching → ℕ
is_sent Catching.sent = 1
is_sent _ = 0

abbrev is_first : Sending → ℕ
is_first Sending.first = 1
is_first _ = 0

abbrev is_past : Sending → ℕ
is_past Sending.stop = 1
is_past Sending.over = 1
is_past _ = 0

-- The signals that are pending or in a handler, or that `main` is about to send.
abbrev under_way : State → ℕ
under_way s =
    is_first s.main
    + s.to_child
    + is_caught s.child
    + is_counted s.child
    + s.to_parent
    + is_caught s.parent
    + is_counted s.parent
    + is_sent s.parent

-- At most one signal is under way; none only when L have been counted.
abbrev IsExchange : ℕ → State → Type 0
IsExchange l s =
    (under_way s ≤ 1)
    × (s.sent_to_child + under_way s ≤ l + is_sent s.parent)
    × (under_way s ≡ 0 → s.sent_to_child ≡ l)
    × (s.rec_by_par ≡ s.sent_to_child + is_counted s.parent)
    × (s.rec_by_child ≡ s.rec_by_par + is_counted s.child + s.to_parent + is_caught s.parent)
    × (is_past s.main ≡ 1 → s.sent_to_child ≡ l)

PingMove-IsExchange : {l : ℕ} {s t : State} → IsExchange l s → PingMove l s t → IsExchange l t
unfolding pend
PingMove-IsExchange v (PingMove.send e) = ground (arith, v, ap is_first e, ap is_past e)
PingMove-IsExchange v (PingMove.all_sent e f) = ground (arith, v, ap is_first e, ap is_past e, f)
PingMove-IsExchange v (PingMove.stop e) = ground (arith, v, ap is_first e, ap is_past e)
PingMove-IsExchange v (PingMove.catch n e f) =
    ground (arith, v, ap is_caught e, ap is_counted e, ap is_sent e, f)
PingMove-IsExchange v (PingMove.count e) =
    ground (arith, v, ap is_caught e, ap is_counted e, ap is_sent e)
PingMove-IsExchange v (PingMove.add e) =
    ground (arith, v, ap is_caught e, ap is_counted e, ap is_sent e)
PingMove-IsExchange v (PingMove.again e f) =
    ground (arith, v, ap is_caught e, ap is_counted e, ap is_sent e, f)
PingMove-IsExchange v (PingMove.enough e f) =
    ground (arith, v, ap is_caught e, ap is_counted e, ap is_sent e, f)

ChildMove-IsExchange : {l : ℕ} {s t : State} → IsExchange l s → ChildMove false s t → IsExchange l t
unfolding pend
ChildMove-IsExchange v (ChildMove.catch n e f) =
    ground (arith, v, ap is_caught e, ap is_counted e, f)
ChildMove-IsExchange v (ChildMove.count e) = ground (arith, v, ap is_caught e, ap is_counted e)
ChildMove-IsExchange v (ChildMove.answer e) = ground (arith, v, ap is_caught e, ap is_counted e)
ChildMove-IsExchange v (ChildMove.exit e) = v

PingReach-IsExchange : {l : ℕ} {s : State} → l ≢ 0 → PingReach l s → IsExchange l s
unfolding start_state
PingReach-IsExchange some_l PingReach.begin = ground (arith, some_l)
PingReach-IsExchange some_l (PingReach.parent r m) =
    PingMove-IsExchange (PingReach-IsExchange some_l r) m
PingReach-IsExchange some_l (PingReach.child r _ m) =
    ChildMove-IsExchange (PingReach-IsExchange some_l r) m

-- With type 2 and an L that is not 0, in every state that the program can come to in which the
-- parent has left its loop and not yet ended the child: the child and the parent have counted L
-- signals each, and none is pending.
pub ping_pong :
    {l : ℕ} {s : State}
    → l ≢ 0
    → PingReach l s
    → s.main ≡ Sending.stop
    → (s.rec_by_child ≡ l) × (s.rec_by_par ≡ l) × (s.to_child ≡ 0) × (s.to_parent ≡ 0)
ping_pong some_l r e = ground (arith, PingReach-IsExchange some_l r, ap is_past e)
