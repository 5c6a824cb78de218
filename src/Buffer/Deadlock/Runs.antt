-- ===== src/Buffer/Deadlock/Runs.antt =====
-- A run of the threads of cw09/zad1/zad1.c and cw09/zad2/zad2.c to a state in which a consumer waits
-- and no producer is left to tell it anything.
use mathlib.Core.Path.{subst}
use agh_so.Prelude.{
  ℕ, zero, suc, ◌+◌, ◌%◌, ◌≡◌, refl, ap, true, List, [], ◌∷◌, arith, if◌then◌else◌,
}
use agh_so.CText.{Text}
use agh_so.Buffer.Thread.{Config, State, ProducerMove, ConsumerMove, start_state}
use agh_so.Buffer.Deadlock.Quiet.{IsQuiet, IsWaiting, IsClosed}

module _ {c : Config} {R : State → Type 0} (go : IsClosed c R) where
  open go use {produce, consume, tell_readers, tell_eof, tell_writers}

  -- One producer puts a line in, and one consumer takes it out.
  one_line :
      {a l k : ℕ} {x : Text} {xs : List Text} {s : State}
      → R s
      → IsQuiet (suc a) l (suc k) (x ∷ xs) s
      → (t : State) × R t × IsQuiet (suc a) l (suc k) xs t
  one_line {a} {l} {k} {x} {xs} {s} r q =
      let r1 = produce r (ProducerMove.lock_write a q.writer q.producers) in
      let r2 = produce r1 (ProducerMove.lock_cell refl (rw q.reader refl)) in
      let r3 = produce r2 (ProducerMove.get_line x xs refl (q.empty _) q.unread) in
      let r4 = tell_readers r3 refl q.reader in
      let r5 = produce r4 (ProducerMove.unlock_cell refl) in
      let r6 = produce r5 (ProducerMove.advance refl) in
      let r7 = produce r6 (ProducerMove.unlock_write refl) in
      let r8 = consume r7 (ConsumerMove.lock_read k q.reader q.consumers) in
      let r9 = consume r8 (ConsumerMove.lock_cell refl refl) in
      let r10 = consume r9 (ConsumerMove.take_line x refl (ground (arith, q.places))) in
      let r11 = tell_writers r10 refl refl in
      let r12 = consume r11 (ConsumerMove.unlock_cell refl) in
      let r13 = consume r12 (ConsumerMove.advance refl) in
      let r14 = consume r13 (ConsumerMove.unlock_read refl) in
      (
        _,
        r14,
        record {
          writer = refl;
          reader = refl;
          producers = omega arith;
          leaving = q.leaving;
          producers_done = q.producers_done;
          consumers = omega arith;
          consumers_done = q.consumers_done;
          unread = refl;
          places = ap (λ i. (i + 1) % c.n) q.places;
          empty = λ i. ground (arith, q.empty i, q.places);
          going_on = q.going_on;
        },
      )

  all_lines :
      {a l k : ℕ} (xs : List Text) {s : State}
      → R s
      → IsQuiet (suc a) l (suc k) xs s
      → (t : State) × R t × IsQuiet (suc a) l (suc k) [] t
  all_lines [] {s} r q = (s, r, q)
  all_lines (x ∷ xs) r q = let (t, r', q') = one_line r q in all_lines xs r' q'

  -- One producer meets the end of the file.
  one_eof :
      {a l k : ℕ} {s : State}
      → R s
      → IsQuiet (suc a) l k [] s
      → (t : State) × R t × IsQuiet a (suc l) k [] t
  one_eof {a} {l} {k} {s} r q =
      let r1 = produce r (ProducerMove.lock_write a q.writer q.producers) in
      let r2 = produce r1 (ProducerMove.lock_cell refl (rw q.reader refl)) in
      let r3 = produce r2 (ProducerMove.get_eof refl (q.empty _) q.unread) in
      let r4 = tell_eof r3 refl q.reader in
      let r5 = produce r4 (ProducerMove.eof_unlock_cell refl) in
      let r6 = produce r5 (ProducerMove.eof_unlock_write refl) in
      (
        _,
        r6,
        record {
          writer = refl;
          reader = q.reader;
          producers = refl;
          leaving = omega (arith, q.leaving);
          producers_done = q.producers_done;
          consumers = q.consumers;
          consumers_done = q.consumers_done;
          unread = q.unread;
          places = q.places;
          empty = q.empty;
          going_on = q.going_on;
        },
      )

  all_eof :
      (a : ℕ) {l k m : ℕ} {s : State}
      → a + l ≡ m
      → R s
      → IsQuiet a l k [] s
      → (t : State) × R t × IsQuiet 0 m k [] t
  all_eof zero {l} {k} {m} {s} all r q = (s, r, subst (λ m. IsQuiet 0 m k [] s) (omega arith) q)
  all_eof (suc a) all r q = let (t, r', q') = one_eof r q in all_eof a (omega arith) r' q'

  -- A consumer finds the buffer empty and the end not yet set.
  one_waits :
      {l k : ℕ} {s : State} → R s → IsQuiet 0 l (suc k) [] s → (t : State) × R t × IsWaiting c l 0 t
  one_waits {l} {k} {s} r q =
      let r1 = consume r (ConsumerMove.lock_read k q.reader q.consumers) in
      let r2 = consume r1 (ConsumerMove.lock_cell refl (rw q.writer refl)) in
      let r3 = consume r2 (ConsumerMove.wait_empty refl (q.empty _) q.going_on) in
      (
        _,
        r3,
        record {
          writer = q.writer;
          reader = refl;
          producers = q.producers;
          leaving = q.leaving;
          producers_done = q.producers_done;
          consumers_done = q.consumers_done;
          nothing = q.empty _;
          end_is = q.going_on;
        },
      )

  pub to_wait :
      (a k : ℕ) (lines : List Text)
      → c.p ≡ suc a
      → c.k ≡ suc k
      → R (start_state c lines)
      → (t : State) × R t × IsWaiting c (suc a) 0 t
  unfolding start_state
  to_wait a k lines pa ka r =
      let q : IsQuiet (suc a) 0 (suc k) lines (start_state c lines) = record {
        writer = refl;
        reader = refl;
        producers = pa;
        leaving = refl;
        producers_done = refl;
        consumers = ka;
        consumers_done = refl;
        unread = refl;
        places = refl;
        empty = λ i. refl;
        going_on = refl;
      } in
      let (s1, r1, q1) = all_lines lines r q in
      let (s2, r2, q2) = all_eof (suc a) {m = suc a} (omega arith) r1 q1 in one_waits r2 q2

-- The producers set `end_time` and return.
pub all_return :
    {c : Config} {R : State → Type 0}
    → ((s t : State) → R s → ProducerMove c s t → R t)
    → (l d m : ℕ) (s : State) → l + d ≡ m
    → R s
    → IsWaiting c l d s
    → (t : State) × R t × IsWaiting c 0 m t
all_return {c} produce zero d m s all r w = (s, r, subst (λ m. IsWaiting c 0 m s) (omega arith) w)
all_return {c} produce (suc l) d m s all r w =
    let r' = produce _ _ r (ProducerMove.set_end l w.leaving) in
    let w' : IsWaiting c l (suc d) (record s {
      leaving = l;
      producers_done = s.producers_done + 1;
      end_time = if c.timed then s.end_time else true;
    }) =
      record {
        writer = w.writer;
        reader = w.reader;
        producers = w.producers;
        leaving = refl;
        producers_done = omega (arith, w.producers_done);
        consumers_done = w.consumers_done;
        nothing = w.nothing;
        end_is = ground (arith, w.end_is);
      } in
    all_return produce l (suc d) m _ (omega arith) r' w'
