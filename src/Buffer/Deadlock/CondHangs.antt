-- ===== src/Buffer/Deadlock/CondHangs.antt =====
-- A hang of cw09/zad1/zad1.c.
use mathlib.Core.Path.{subst}
use agh_so.Prelude.{ℕ, suc, ◌-◌, ◌≡◌, ◌≢◌, sym, ap, ◌∙◌, false, not, List, arith}
use agh_so.CText.{Text}
use agh_so.Buffer.Thread.{Config, State, Writer, Reader}
use agh_so.Buffer.Cond.{Signal, Step, Reach, wake_reader, wake_writer}
use agh_so.Buffer.Deadlock.Quiet.{IsWaiting, IsClosed}
use agh_so.Buffer.Deadlock.Runs.{to_wait, all_return}
use agh_so.Buffer.Deadlock.Stuck.{no_ProducerMove, no_ConsumerMove}

Reach-IsClosed : (c : Config) (lines : List Text) → IsClosed c (Reach c false lines)
Reach-IsClosed c lines = record {
  produce = λ r m. Reach.later r (Step.produce m);
  consume = λ r m. Reach.later r (Step.consume m);
  tell_readers = λ {s} r e free.
      subst (λ w. Reach c false lines (record s { writer = Writer.told; reader = w }))
        (ap wake_reader free ∙ sym free) (Reach.later r (Step.signal (Signal.tell_readers e)));
  tell_eof = λ {s} r e free.
      subst (λ w. Reach c false lines (record s { writer = Writer.eof_told; reader = w }))
        (ap wake_reader free ∙ sym free) (Reach.later r (Step.signal (Signal.tell_eof e)));
  tell_writers = λ {s} r e free.
      subst (λ w. Reach c false lines (record s { reader = Reader.told; writer = w }))
        (ap wake_writer free ∙ sym free) (Reach.later r (Step.signal (Signal.tell_writers e)));
}

no_Signal : {c : Config} {d : ℕ} {s t : State} → IsWaiting c 0 d s → ¬ Signal false s t
no_Signal w (Signal.tell_readers e) = cc (w.writer, e)
no_Signal w (Signal.tell_eof e) = cc (w.writer, e)
no_Signal w (Signal.tell_writers e) = cc (w.reader, e)
no_Signal w (Signal.writer_wakes e _) = cc
no_Signal w (Signal.reader_wakes e _) = cc

no_Step : {c : Config} {d : ℕ} {s t : State} → IsWaiting c 0 d s → ¬ Step c false s t
no_Step w (Step.produce m) = no_ProducerMove w m
no_Step w (Step.consume m) = no_ConsumerMove w m
no_Step w (Step.signal m) = no_Signal w m

-- With conditions and without spurious wakeups, if there are producers and consumers: for every file
-- the threads can come to a state in which every producer has returned, `end_time` is set unless NK
-- is, and no thread can go on, although no consumer has returned.
pub hangs_cond :
    (c : Config) (lines : List Text)
    → c.p ≢ 0
    → c.k ≢ 0
    → (s : State) × Reach c false lines s
      × (s.producers_done ≡ c.p)
      × (s.end_time ≡ not c.timed)
      × (s.consumers_done ≡ 0)
      × ((t : State) → ¬ Step c false s t)
hangs_cond c lines some_p some_k =
    let (s1, r1, w1) =
      to_wait (Reach-IsClosed c lines) (c.p - 1) (c.k - 1) lines (omega arith) (omega arith)
        Reach.begin in
    let (s2, r2, w2) =
      all_return (λ s t r m. Reach.later r (Step.produce m)) (suc (c.p - 1)) 0 c.p s1 (omega arith)
        r1 w1 in
    (s2, r2, w2.producers_done, ground (arith, w2.end_is), w2.consumers_done, λ t. no_Step w2)
