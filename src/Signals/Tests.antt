-- ===== src/Signals/Tests.antt =====
-- Runs of cw04/zad3/zad3.c with L 1.
use agh_so.Prelude.{◌≡◌, refl, true, arith}
use agh_so.Signals.{
  Catching, Sending, State, pend, start_state, ChildMove, FloodMove, PingMove, FloodReach,
  PingReach,
}
use agh_so.Signals.Flood.{none_lost}
use agh_so.Signals.PingPong.{ping_pong}

abbrev flooded :
    (s : State) × FloodReach true 1 s
    × (s.main ≡ Sending.over)
    × (s.to_child ≡ 0)
    × (s.to_parent ≡ 0)
    × (s.child ≡ Catching.idle)
    × (s.parent ≡ Catching.idle)
unfolding start_state pend
flooded =
    let r1 = FloodReach.parent FloodReach.begin (FloodMove.send 0 refl) in
    let r2 = FloodReach.parent r1 (FloodMove.add 0 refl) in
    let r3 = FloodReach.child r2 refl (ChildMove.catch 0 refl refl) in
    let r4 = FloodReach.child r3 refl (ChildMove.count refl) in
    let r5 = FloodReach.child r4 refl (ChildMove.answer refl) in
    let r6 = FloodReach.parent r5 (FloodMove.catch 0 refl refl) in
    let r7 = FloodReach.parent r6 (FloodMove.count refl) in
    let r8 = FloodReach.parent r7 (FloodMove.all_sent refl) in
    let r9 = FloodReach.parent r8 (FloodMove.stop refl) in (_, r9, refl, refl, refl, refl, refl)

abbrev answered : (s : State) × PingReach 1 s × (s.main ≡ Sending.stop)
unfolding start_state pend
answered =
    let r1 = PingReach.parent PingReach.begin (PingMove.send refl) in
    let r2 = PingReach.child r1 refl (ChildMove.catch 0 refl refl) in
    let r3 = PingReach.child r2 refl (ChildMove.count refl) in
    let r4 = PingReach.child r3 refl (ChildMove.answer refl) in
    let r5 = PingReach.parent r4 (PingMove.catch 0 refl refl) in
    let r6 = PingReach.parent r5 (PingMove.count refl) in
    let r7 = PingReach.parent r6 (PingMove.add refl) in
    let r8 = PingReach.parent r7 (PingMove.enough refl refl) in
    let r9 = PingReach.parent r8 (PingMove.all_sent refl refl) in (_, r9, refl)

none_lost_example : (flooded.0.rec_by_child ≡ 1) × (flooded.0.rec_by_par ≡ 1)
none_lost_example = none_lost flooded.1 flooded.2 flooded.3 flooded.4 flooded.5 flooded.6

ping_pong_example :
    (answered.0.rec_by_child ≡ 1)
    × (answered.0.rec_by_par ≡ 1)
    × (answered.0.to_child ≡ 0)
    × (answered.0.to_parent ≡ 0)
ping_pong_example = ping_pong (omega arith) answered.1 answered.2
