-- ===== src/Buffer/Invariant.antt =====
-- The lines of the file in every state that cw09/zad1/zad1.c and cw09/zad2/zad2.c can come to.
use mathlib.Core.List.{append-nil}
use agh_so.Prelude.{ℕ, ◌<◌, ◌≡◌, refl, sym, ap, ◌∙◌, ◌≢◌, Bool, List, ◌++◌, length}
use agh_so.CText.{Text}
use agh_so.Buffer.Thread.{Config, State, Writer, Reader, past_head, past_tail}
use agh_so.Buffer.Lines.{Inv, Flow, start-Inv, matching, past_eof, is_ending}
use agh_so.Buffer.Moves.{ProducerMove-Inv, ConsumerMove-Inv, both_go}
use agh_so.Buffer.Cond.{wake_reader, wake_writer}
use agh_so.Buffer.Cond
use agh_so.Buffer.Sem

wake_reader-past_head :
    (n : ℕ) (r : Reader) (i : ℕ) → past_head n r i ≡ past_head n (wake_reader r) i
wake_reader-past_head n Reader.wait i = refl
wake_reader-past_head n r i = refl

wake_reader-is_ending : (r : Reader) → is_ending (wake_reader r) ≡ is_ending r
wake_reader-is_ending Reader.wait = refl
wake_reader-is_ending r = refl

wake_writer-past_tail :
    (n : ℕ) (w : Writer) (i : ℕ) → past_tail n w i ≡ past_tail n (wake_writer w) i
wake_writer-past_tail n Writer.wait i = refl
wake_writer-past_tail n w i = refl

wake_writer-past_eof : (w : Writer) → past_eof (wake_writer w) ≡ past_eof w
wake_writer-past_eof Writer.wait = refl
wake_writer-past_eof w = refl

module _ {c : Config} {lines : List Text} {s : State} (v : Inv c lines s) where
  Signal-Inv : {spurious : Bool} {t : State} → Cond.Signal spurious s t → Inv c lines t
  Signal-Inv (Cond.Signal.tell_readers e) =
      both_go v _ _ (rw e refl) (wake_reader-past_head c.n s.reader s.reading_pos)
        (λ p. absurd (cc p)) (λ p. sym (wake_reader-is_ending s.reader) ∙ p)
  Signal-Inv (Cond.Signal.tell_eof e) =
      both_go v _ _ (rw e refl) (wake_reader-past_head c.n s.reader s.reading_pos)
        (λ p. v.ends.writer_eof (rw e refl)) (λ p. sym (wake_reader-is_ending s.reader) ∙ p)
  Signal-Inv (Cond.Signal.tell_writers e) =
      both_go v _ _ (wake_writer-past_tail c.n s.writer s.writing_pos) (rw e refl)
        (λ p. v.ends.writer_eof (sym (wake_writer-past_eof s.writer) ∙ p)) (λ p. absurd (cc p))
  Signal-Inv (Cond.Signal.writer_wakes _ e) =
      both_go v _ s.reader (rw e refl) refl (λ p. absurd (cc p)) (λ p. p)
  Signal-Inv (Cond.Signal.reader_wakes _ e) =
      both_go v s.writer _ refl (rw e refl) v.ends.writer_eof (λ p. absurd (cc p))

  Post-Inv : {t : State} {q r : Sem.Sems} → Sem.Post s q t r → Inv c lines t
  Post-Inv (Sem.Post.tell_readers e) =
      both_go v _ s.reader (rw e refl) refl (λ p. absurd (cc p)) (λ p. p)
  Post-Inv (Sem.Post.tell_eof e) =
      both_go v _ s.reader (rw e refl) refl (λ p. v.ends.writer_eof (rw e refl)) (λ p. p)
  Post-Inv (Sem.Post.tell_writers e) =
      both_go v s.writer _ refl (rw e refl) v.ends.writer_eof (λ p. absurd (cc p))
  Post-Inv (Sem.Post.writer_passes k e _) =
      both_go v _ s.reader (rw e refl) refl (λ p. absurd (cc p)) (λ p. p)
  Post-Inv (Sem.Post.reader_passes k e _) =
      both_go v s.writer _ refl (rw e refl) v.ends.writer_eof (λ p. absurd (cc p))

  pub Step-cond-Inv : {spurious : Bool} {t : State} → Cond.Step c spurious s t → Inv c lines t
  Step-cond-Inv (Cond.Step.produce mv) = ProducerMove-Inv v mv
  Step-cond-Inv (Cond.Step.consume mv) = ConsumerMove-Inv v mv
  Step-cond-Inv (Cond.Step.signal mv) = Signal-Inv mv

  pub Step-sem-Inv : {q r : Sem.Sems} {t : State} → Sem.Step c s q t r → Inv c lines t
  Step-sem-Inv (Sem.Step.produce _ mv) = ProducerMove-Inv v mv
  Step-sem-Inv (Sem.Step.consume _ mv) = ConsumerMove-Inv v mv
  Step-sem-Inv (Sem.Step.post mv) = Post-Inv mv

pub reach_cond-Inv :
    {c : Config} {spurious : Bool} {lines : List Text} {s : State}
    → 0 < c.n
    → Cond.Reach c spurious lines s
    → Inv c lines s
reach_cond-Inv {c} {spurious} {lines} h Cond.Reach.begin = start-Inv c lines h
reach_cond-Inv h (Cond.Reach.later r step) = Step-cond-Inv (reach_cond-Inv h r) step

pub reach_sem-Inv :
    {c : Config} {lines : List Text} {s : State} {q : Sem.Sems}
    → 0 < c.n
    → Sem.Reach c lines s q
    → Inv c lines s
reach_sem-Inv {c} {lines} h Sem.Reach.begin = start-Inv c lines h
reach_sem-Inv h (Sem.Reach.later r step) = Step-sem-Inv (reach_sem-Inv h r) step

-- With conditions, in every state that the program can come to: the lines that have been taken out,
-- the lines in the cells between the two positions and the lines still to be read make up the file,
-- in its order; all other cells are empty; and of the lines taken out those that match have been
-- printed and counted.
pub lines_cond :
    {c : Config} {spurious : Bool} {lines : List Text} {s : State}
    → 0 < c.n
    → Cond.Reach c spurious lines s
    → (held : List Text) × Flow c lines held s
lines_cond h r = let v = reach_cond-Inv h r in (v.held, v.flow)

-- What has been read, printed and counted when all lines have been taken out.
pub record AllRead (c : Config) (lines : List Text) (s : State) : Type 0 where
  pub all_taken : s.taken ≡ lines
  pub all_found : s.found ≡ matching c lines
  pub all_counted : s.line_counter ≡ length (matching c lines)

all_read :
    {c : Config} {lines : List Text} {s : State}
    → Inv c lines s
    → s.consumers_done ≢ 0
    → AllRead c lines s
all_read {c} {lines} {s} v one =
    let (none_held, none_left) = v.ends.done_ends one in
    let taken : s.taken ≡ lines =
      sym (append-nil s.taken)
      ∙ ap (λ l. s.taken ++ l) (sym none_left)
      ∙ ap (λ l. s.taken ++ (l ++ s.unread)) (sym none_held)
      ∙ v.flow.order in
    let found = v.flow.printed ∙ ap (matching c) taken in
    record { all_taken = taken; all_found = found; all_counted = v.flow.counted ∙ ap length found }

-- With conditions, once a consumer has returned every line of the file has been taken out, and
-- exactly the lines that match have been printed, in order, and counted.
pub AllRead-cond :
    {c : Config} {spurious : Bool} {lines : List Text} {s : State}
    → 0 < c.n
    → Cond.Reach c spurious lines s
    → s.consumers_done ≢ 0
    → AllRead c lines s
AllRead-cond h r one = all_read (reach_cond-Inv h r) one

-- With semaphores, once a consumer has returned every line of the file has been taken out, and
-- exactly the lines that match have been printed, in order, and counted.
pub AllRead-sem :
    {c : Config} {lines : List Text} {s : State} {q : Sem.Sems}
    → 0 < c.n
    → Sem.Reach c lines s q
    → s.consumers_done ≢ 0
    → AllRead c lines s
AllRead-sem h r one = all_read (reach_sem-Inv h r) one
