-- ===== src/Signals/Flood.antt =====
-- What cw04/zad3/zad3.c counts with the types 1 and 3.
use agh_so.Prelude.{ℕ, ◌+◌, ◌≤◌, ◌≡◌, ap, Bool, true, arith}
use agh_so.Signals.{Catching, Sending, State, pend, start_state, ChildMove, FloodMove, FloodReach}

-- A signal that a handler has caught and not yet counted, or counted and not yet sent on.
abbrev uncounted : Catching → ℕ
uncounted Catching.caught = 1
uncounted _ = 0

abbrev unanswered : Catching → ℕ
unanswered Catching.caught = 0
unanswered Catching.counted = 1
unanswered _ = 0

-- A signal that has been sent and not yet counted, and the rounds that are left.
abbrev ahead : Sending → ℕ
ahead (Sending.count n) = 1
ahead _ = 0

abbrev rounds_left : Sending → ℕ
rounds_left (Sending.loop n) = n
rounds_left (Sending.count n) = n + 1
rounds_left _ = 0

-- What has been sent, and what of it has been counted, is pending or in a handler: all of it where
-- signals are queued.
abbrev IsCounted : Bool → ℕ → State → Type 0
IsCounted queued l s =
    (s.sent_to_child + rounds_left s.main ≡ l)
    × (s.rec_by_child + s.to_child + uncounted s.child ≤ s.sent_to_child + ahead s.main)
    × (queued ≡ true
        → s.rec_by_child + s.to_child + uncounted s.child ≡ s.sent_to_child + ahead s.main)
    × (s.rec_by_par + s.to_parent + uncounted s.parent + unanswered s.child ≤ s.rec_by_child)
    × (queued ≡ true
        → s.rec_by_par + s.to_parent + uncounted s.parent + unanswered s.child ≡ s.rec_by_child)

FloodMove-IsCounted :
    {queued : Bool} {l : ℕ} {s t : State}
    → IsCounted queued l s
    → FloodMove queued s t
    → IsCounted queued l t
unfolding pend
FloodMove-IsCounted v (FloodMove.send n e) = ground (arith, v, ap ahead e, ap rounds_left e)
FloodMove-IsCounted v (FloodMove.add n e) = ground (arith, v, ap ahead e, ap rounds_left e)
FloodMove-IsCounted v (FloodMove.all_sent e) = ground (arith, v, ap ahead e, ap rounds_left e)
FloodMove-IsCounted v (FloodMove.stop e) = ground (arith, v, ap ahead e, ap rounds_left e)
FloodMove-IsCounted v (FloodMove.catch n e f) = ground (arith, v, ap uncounted e, f)
FloodMove-IsCounted v (FloodMove.count e) = ground (arith, v, ap uncounted e)

ChildMove-IsCounted :
    {queued : Bool} {l : ℕ} {s t : State}
    → IsCounted queued l s
    → ChildMove queued s t
    → IsCounted queued l t
unfolding pend
ChildMove-IsCounted v (ChildMove.catch n e f) =
    ground (arith, v, ap uncounted e, ap unanswered e, f)
ChildMove-IsCounted v (ChildMove.count e) = ground (arith, v, ap uncounted e, ap unanswered e)
ChildMove-IsCounted v (ChildMove.answer e) = ground (arith, v, ap uncounted e, ap unanswered e)
ChildMove-IsCounted v (ChildMove.exit e) = v

FloodReach-IsCounted :
    {queued : Bool} {l : ℕ} {s : State} → FloodReach queued l s → IsCounted queued l s
unfolding start_state
FloodReach-IsCounted FloodReach.begin = ground arith
FloodReach-IsCounted (FloodReach.parent r m) = FloodMove-IsCounted (FloodReach-IsCounted r) m
FloodReach-IsCounted (FloodReach.child r _ m) = ChildMove-IsCounted (FloodReach-IsCounted r) m

-- With the types 1 and 3, in every state that the program can come to after the parent has sent its
-- signals: it has sent L; the child has counted at most as many, and the parent at most as many as
-- the child.
pub counts_bounded :
    {queued : Bool} {l : ℕ} {s : State}
    → FloodReach queued l s
    → s.main ≡ Sending.over
    → (s.sent_to_child ≡ l) × (s.rec_by_child ≤ l) × (s.rec_by_par ≤ s.rec_by_child)
counts_bounded r e = ground (arith, FloodReach-IsCounted r, ap rounds_left e, ap ahead e)

-- With type 3, in every state that the program can come to after the parent has sent its signals: if
-- none is pending and both handlers have returned, then the child and the parent have counted L.
pub none_lost :
    {l : ℕ} {s : State}
    → FloodReach true l s
    → s.main ≡ Sending.over
    → s.to_child ≡ 0
    → s.to_parent ≡ 0
    → s.child ≡ Catching.idle
    → s.parent ≡ Catching.idle
    → (s.rec_by_child ≡ l) × (s.rec_by_par ≡ l)
none_lost r e c p ci pi = ground (
  arith,
  FloodReach-IsCounted r,
  ap rounds_left e,
  ap ahead e,
  ap uncounted ci,
  ap unanswered ci,
  ap uncounted pi,
)
