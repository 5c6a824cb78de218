-- ===== src/Buffer/Tests.antt =====
-- A run of cw09/zad1/zad1.c and one of cw09/zad2/zad2.c: one producer, one consumer, two cells and a
-- file of one line.
use agh_so.Prelude.{◌≡◌, refl, true, false, List, [], ◌∷◌, arith}
use agh_so.Prelude.Int.{pos}
use agh_so.CText.{Text}
use agh_so.Buffer.Thread.{
  Config, State, ProducerMove, ConsumerMove, start_state, wanted, found_by, strlen, size_of,
}
use agh_so.Buffer.Lines.{Flow, matching}
use agh_so.Buffer.Invariant.{lines_cond, AllRead-cond, AllRead}
use agh_so.Buffer.Deadlock.CondHangs.{hangs_cond}
use agh_so.Buffer.Deadlock.SemHangs.{hangs_sem}
use agh_so.Buffer.Cond
use agh_so.Buffer.Sem

-- Lines longer than one byte are printed.
abbrev small : Config
small = record { n = 2; l = pos 1; search_mode = pos 2; p = 1; k = 1; timed = false }

abbrev file : List Text
file = (97 ∷ 98 ∷ []) ∷ []

-- The consumer is about to take the line.
abbrev held_cond : (s : State) × Cond.Reach small false file s × (s.writing_pos ≡ 1)
unfolding start_state
held_cond =
    let r0 =
      Cond.Reach.later Cond.Reach.begin (Cond.Step.produce (ProducerMove.lock_write 0 refl refl)) in
    let r1 = Cond.Reach.later r0 (Cond.Step.produce (ProducerMove.lock_cell refl refl)) in
    let r2 =
      Cond.Reach.later r1
        (Cond.Step.produce (ProducerMove.get_line (97 ∷ 98 ∷ []) [] refl refl refl)) in
    let r3 = Cond.Reach.later r2 (Cond.Step.signal (Cond.Signal.tell_readers refl)) in
    let r4 = Cond.Reach.later r3 (Cond.Step.produce (ProducerMove.unlock_cell refl)) in
    let r5 = Cond.Reach.later r4 (Cond.Step.produce (ProducerMove.advance refl)) in
    let r6 = Cond.Reach.later r5 (Cond.Step.produce (ProducerMove.unlock_write refl)) in
    let r7 = Cond.Reach.later r6 (Cond.Step.consume (ConsumerMove.lock_read 0 refl refl)) in
    let r8 = Cond.Reach.later r7 (Cond.Step.consume (ConsumerMove.lock_cell refl refl)) in
    (_, r8, refl)

-- Both threads have returned.
abbrev over_cond : (s : State) × Cond.Reach small false file s × (s.consumers_done ≡ 1)
unfolding start_state
over_cond =
    let r0 =
      Cond.Reach.later Cond.Reach.begin (Cond.Step.produce (ProducerMove.lock_write 0 refl refl)) in
    let r1 = Cond.Reach.later r0 (Cond.Step.produce (ProducerMove.lock_cell refl refl)) in
    let r2 =
      Cond.Reach.later r1
        (Cond.Step.produce (ProducerMove.get_line (97 ∷ 98 ∷ []) [] refl refl refl)) in
    let r3 = Cond.Reach.later r2 (Cond.Step.signal (Cond.Signal.tell_readers refl)) in
    let r4 = Cond.Reach.later r3 (Cond.Step.produce (ProducerMove.unlock_cell refl)) in
    let r5 = Cond.Reach.later r4 (Cond.Step.produce (ProducerMove.advance refl)) in
    let r6 = Cond.Reach.later r5 (Cond.Step.produce (ProducerMove.unlock_write refl)) in
    let r7 = Cond.Reach.later r6 (Cond.Step.consume (ConsumerMove.lock_read 0 refl refl)) in
    let r8 = Cond.Reach.later r7 (Cond.Step.consume (ConsumerMove.lock_cell refl refl)) in
    let r9 =
      Cond.Reach.later r8 (Cond.Step.consume (ConsumerMove.take_line (97 ∷ 98 ∷ []) refl refl)) in
    let r10 = Cond.Reach.later r9 (Cond.Step.signal (Cond.Signal.tell_writers refl)) in
    let r11 = Cond.Reach.later r10 (Cond.Step.consume (ConsumerMove.unlock_cell refl)) in
    let r12 = Cond.Reach.later r11 (Cond.Step.consume (ConsumerMove.advance refl)) in
    let r13 = Cond.Reach.later r12 (Cond.Step.consume (ConsumerMove.unlock_read refl)) in
    let r14 = Cond.Reach.later r13 (Cond.Step.produce (ProducerMove.lock_write 0 refl refl)) in
    let r15 = Cond.Reach.later r14 (Cond.Step.produce (ProducerMove.lock_cell refl refl)) in
    let r16 = Cond.Reach.later r15 (Cond.Step.produce (ProducerMove.get_eof refl refl refl)) in
    let r17 = Cond.Reach.later r16 (Cond.Step.signal (Cond.Signal.tell_eof refl)) in
    let r18 = Cond.Reach.later r17 (Cond.Step.produce (ProducerMove.eof_unlock_cell refl)) in
    let r19 = Cond.Reach.later r18 (Cond.Step.produce (ProducerMove.eof_unlock_write refl)) in
    let r20 = Cond.Reach.later r19 (Cond.Step.produce (ProducerMove.set_end 0 refl)) in
    let r21 = Cond.Reach.later r20 (Cond.Step.consume (ConsumerMove.lock_read 0 refl refl)) in
    let r22 = Cond.Reach.later r21 (Cond.Step.consume (ConsumerMove.lock_cell refl refl)) in
    let r23 = Cond.Reach.later r22 (Cond.Step.consume (ConsumerMove.end_cell refl refl refl)) in
    let r24 = Cond.Reach.later r23 (Cond.Step.consume (ConsumerMove.end_read refl)) in
    (_, r24, refl)

lines_cond_example : (held : List Text) × Flow small file held held_cond.0
lines_cond_example = lines_cond (omega arith) held_cond.1

AllRead-cond_example : AllRead small file over_cond.0
AllRead-cond_example = AllRead-cond (omega arith) over_cond.1 (omega (arith, over_cond.2))

-- Both threads have returned.
abbrev over_sem : (s : State) × (q : Sem.Sems) × Sem.Reach small file s q × (s.consumers_done ≡ 1)
unfolding start_state
over_sem =
    let r0 =
      Sem.Reach.later Sem.Reach.begin
        (Sem.Step.produce refl (ProducerMove.lock_write 0 refl refl)) in
    let r1 = Sem.Reach.later r0 (Sem.Step.produce refl (ProducerMove.lock_cell refl refl)) in
    let r2 =
      Sem.Reach.later r1
        (Sem.Step.produce refl (ProducerMove.get_line (97 ∷ 98 ∷ []) [] refl refl refl)) in
    let r3 = Sem.Reach.later r2 (Sem.Step.post (Sem.Post.tell_readers refl)) in
    let r4 = Sem.Reach.later r3 (Sem.Step.produce refl (ProducerMove.unlock_cell refl)) in
    let r5 = Sem.Reach.later r4 (Sem.Step.produce refl (ProducerMove.advance refl)) in
    let r6 = Sem.Reach.later r5 (Sem.Step.produce refl (ProducerMove.unlock_write refl)) in
    let r7 = Sem.Reach.later r6 (Sem.Step.consume refl (ConsumerMove.lock_read 0 refl refl)) in
    let r8 = Sem.Reach.later r7 (Sem.Step.consume refl (ConsumerMove.lock_cell refl refl)) in
    let r9 =
      Sem.Reach.later r8
        (Sem.Step.consume refl (ConsumerMove.take_line (97 ∷ 98 ∷ []) refl refl)) in
    let r10 = Sem.Reach.later r9 (Sem.Step.post (Sem.Post.tell_writers refl)) in
    let r11 = Sem.Reach.later r10 (Sem.Step.consume refl (ConsumerMove.unlock_cell refl)) in
    let r12 = Sem.Reach.later r11 (Sem.Step.consume refl (ConsumerMove.advance refl)) in
    let r13 = Sem.Reach.later r12 (Sem.Step.consume refl (ConsumerMove.unlock_read refl)) in
    let r14 = Sem.Reach.later r13 (Sem.Step.produce refl (ProducerMove.lock_write 0 refl refl)) in
    let r15 = Sem.Reach.later r14 (Sem.Step.produce refl (ProducerMove.lock_cell refl refl)) in
    let r16 = Sem.Reach.later r15 (Sem.Step.produce refl (ProducerMove.get_eof refl refl refl)) in
    let r17 = Sem.Reach.later r16 (Sem.Step.post (Sem.Post.tell_eof refl)) in
    let r18 = Sem.Reach.later r17 (Sem.Step.produce refl (ProducerMove.eof_unlock_cell refl)) in
    let r19 = Sem.Reach.later r18 (Sem.Step.produce refl (ProducerMove.eof_unlock_write refl)) in
    let r20 = Sem.Reach.later r19 (Sem.Step.produce refl (ProducerMove.set_end 0 refl)) in
    let r21 = Sem.Reach.later r20 (Sem.Step.consume refl (ConsumerMove.lock_read 0 refl refl)) in
    let r22 = Sem.Reach.later r21 (Sem.Step.consume refl (ConsumerMove.lock_cell refl refl)) in
    let r23 = Sem.Reach.later r22 (Sem.Step.consume refl (ConsumerMove.end_cell refl refl refl)) in
    let r24 = Sem.Reach.later r23 (Sem.Step.consume refl (ConsumerMove.end_read refl)) in
    (_, _, r24, refl)

hangs_cond_example :
    (s : State) × Cond.Reach small false file s
    × (s.producers_done ≡ 1)
    × (s.end_time ≡ true)
    × (s.consumers_done ≡ 0)
    × ((t : State) → ¬ Cond.Step small false s t)
hangs_cond_example = hangs_cond small file (omega arith) (omega arith)

hangs_sem_example :
    (s : State) × (q : Sem.Sems) × Sem.Reach small file s q
    × (s.producers_done ≡ 1)
    × (s.end_time ≡ true)
    × (s.consumers_done ≡ 0)
    × ((t : State) (r : Sem.Sems) → ¬ Sem.Step small s q t r)
hangs_sem_example = hangs_sem small file (omega arith) (omega arith)

-- The line is printed, and a shorter one is not.
printed : matching small ((97 ∷ 98 ∷ []) ∷ (97 ∷ []) ∷ []) ≡ file
unfolding wanted found_by strlen size_of
printed = refl
