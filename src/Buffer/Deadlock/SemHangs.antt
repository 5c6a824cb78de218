-- ===== src/Buffer/Deadlock/SemHangs.antt =====
-- A hang of cw09/zad2/zad2.c.
use agh_so.Prelude.{ℕ, zero, suc, ◌-◌, ◌≡◌, ◌≢◌, refl, not, List, arith}
use agh_so.CText.{Text}
use agh_so.Buffer.Thread.{Config, State, ConsumerMove}
use agh_so.Buffer.Sem.{Sems, Post, Step, Reach, no_posts}
use agh_so.Buffer.Deadlock.Quiet.{IsWaiting, IsClosed}
use agh_so.Buffer.Deadlock.Runs.{to_wait, all_return}
use agh_so.Buffer.Deadlock.Stuck.{no_ProducerMove, no_ConsumerMove}

module _ {c : Config} {lines : List Text} where
  Reach-IsClosed_sem : IsClosed c (λ s. (q : Sems) × Reach c lines s q)
  Reach-IsClosed_sem = record {
    produce = λ r m. (r.0, Reach.later r.1 (Step.produce refl m));
    consume = λ r m. (r.0, Reach.later r.1 (Step.consume refl m));
    tell_readers = λ r e free. (_, Reach.later r.1 (Step.post (Post.tell_readers e)));
    tell_eof = λ r e free. (_, Reach.later r.1 (Step.post (Post.tell_eof e)));
    tell_writers = λ r e free. (_, Reach.later r.1 (Step.post (Post.tell_writers e)));
  }

  -- The consumer takes the posts that are left, and finds the buffer empty each time.
  drain :
      (m l : ℕ) (s : State) (q : Sems)
      → q.someone_is_writing ≡ m
      → Reach c lines s q
      → IsWaiting c l 0 s
      → (t : State) × ((r : Sems) × Reach c lines t r × (r.someone_is_writing ≡ 0))
        × IsWaiting c l 0 t
  drain zero l s q none_left r w = (s, (q, r, none_left), w)
  drain (suc m) l s q more r w =
      let r1 = Reach.later r (Step.post (Post.reader_passes m w.reader more)) in
      let r2 =
        Reach.later r1 (Step.consume refl (ConsumerMove.lock_again refl (rw w.writer refl))) in
      let r3 =
        Reach.later r2 (Step.consume refl (ConsumerMove.wait_empty refl w.nothing (w.end_is))) in
      drain m l _ _ refl r3 (record {
        writer = w.writer;
        reader = refl;
        producers = w.producers;
        leaving = w.leaving;
        producers_done = w.producers_done;
        consumers_done = w.consumers_done;
        nothing = w.nothing;
        end_is = w.end_is;
      })

no_Post :
    {c : Config} {d : ℕ} {s t : State} {q r : Sems}
    → IsWaiting c 0 d s
    → q.someone_is_writing ≡ 0
    → ¬ Post s q t r
no_Post w empty (Post.tell_readers e) = cc (w.writer, e)
no_Post w empty (Post.tell_eof e) = cc (w.writer, e)
no_Post w empty (Post.tell_writers e) = cc (w.reader, e)
no_Post w empty (Post.writer_passes k e _) = cc (w.writer, e)
no_Post w empty (Post.reader_passes k e e') = absurd (omega (arith, empty, e'))

no_Step_sem :
    {c : Config} {d : ℕ} {s t : State} {q r : Sems}
    → IsWaiting c 0 d s
    → q.someone_is_writing ≡ 0
    → ¬ Step c s q t r
no_Step_sem w empty (Step.produce _ m) = no_ProducerMove w m
no_Step_sem w empty (Step.consume _ m) = no_ConsumerMove w m
no_Step_sem w empty (Step.post m) = no_Post w empty m

-- With semaphores, if there are producers and consumers: for every file the threads can come to a
-- state in which every producer has returned, `end_time` is set unless NK is, and no thread can go
-- on, although no consumer has returned.
pub hangs_sem :
    (c : Config) (lines : List Text)
    → c.p ≢ 0
    → c.k ≢ 0
    → (s : State) × (q : Sems) × Reach c lines s q
      × (s.producers_done ≡ c.p)
      × (s.end_time ≡ not c.timed)
      × (s.consumers_done ≡ 0)
      × ((t : State) (r : Sems) → ¬ Step c s q t r)
hangs_sem c lines some_p some_k =
    let (s1, (q1, r1), w1) =
      to_wait Reach-IsClosed_sem (c.p - 1) (c.k - 1) lines (omega arith) (omega arith)
        (no_posts, Reach.begin) in
    let (s2, r2, w2) = drain _ (suc (c.p - 1)) s1 q1 refl r1 w1 in
    let (s3, (q3, r3, drained), w3) =
      all_return {R = λ s. (q : Sems) × Reach c lines s q × (q.someone_is_writing ≡ 0)}
        (λ s t r m. (r.0, Reach.later r.1 (Step.produce refl m), r.2)) (suc (c.p - 1)) 0 c.p s2
        (omega arith) r2 w2 in
    (
      s3,
      q3,
      r3,
      w3.producers_done,
      ground (arith, w3.end_is),
      w3.consumers_done,
      λ t r. no_Step_sem w3 drained,
    )
