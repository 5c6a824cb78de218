-- ===== src/Buffer/Moves.antt =====
-- Each move of the threads of cw09/zad1/zad1.c and cw09/zad2/zad2.c, and the lines of the file.
use mathlib.Core.List.{append_assoc}
use agh_so.Prelude.{
  ℕ, ◌+◌, ◌≡◌, refl, sym, ap, ◌∙◌, ◌≢◌, inl, inr, Bool, true, false, Bool-cases, List, [], ◌∷◌,
  ◌++◌, none, some, arith, if◌then◌else◌, length-append,
}
use agh_so.CText.{Text}
use agh_so.Buffer.Ring.{update, IsRing, ring_empty, IsRing-push, IsRing-pop}
use agh_so.Buffer.Thread.{
  Config, State, Writer, Reader, ProducerMove, ConsumerMove, wanted, past_head, past_tail,
}
use agh_so.Buffer.Lines.{Flow-same, IsRing-at, Inv, past_eof, is_ending, matching-last}

module _ {c : Config} {lines : List Text} {s : State} (v : Inv c lines s) where
  open v use {held, flow}
  open v.ends use {writer_eof, leaving_eof, end_eof, reader_ends, done_ends}

  -- A producer goes on, and the lines stay where they are.
  writer_goes :
      (w : Writer) (i p l d : ℕ) (e : Bool)
      → past_tail c.n s.writer s.writing_pos ≡ past_tail c.n w i
      → (past_eof w ≡ true → s.unread ≡ [])
      → (l ≢ 0 → s.unread ≡ [])
      → (e ≡ true → s.unread ≡ [])
      → Inv c lines (record s {
        writer = w;
        writing_pos = i;
        producers = p;
        leaving = l;
        producers_done = d;
        end_time = e;
      })
  writer_goes w i p l d e tail eof left over = record {
    held = held;
    flow = Flow-same flow refl refl tail refl refl refl refl;
    ends = record {
      writer_eof = eof;
      leaving_eof = left;
      end_eof = over;
      reader_ends = reader_ends;
      done_ends = done_ends;
    };
  }

  -- A consumer goes on, and the lines stay where they are.
  reader_goes :
      (r : Reader) (i k d : ℕ)
      → past_head c.n s.reader s.reading_pos ≡ past_head c.n r i
      → (is_ending r ≡ true → (held ≡ []) × (s.unread ≡ []))
      → (d ≢ 0 → (held ≡ []) × (s.unread ≡ []))
      → Inv c lines (record s { reader = r; reading_pos = i; consumers = k; consumers_done = d })
  reader_goes r i k d head ending over = record {
    held = held;
    flow = Flow-same flow refl head refl refl refl refl refl;
    ends = record {
      writer_eof = writer_eof;
      leaving_eof = leaving_eof;
      end_eof = end_eof;
      reader_ends = ending;
      done_ends = over;
    };
  }

  writer_on :
      (w : Writer) (i p : ℕ)
      → past_tail c.n s.writer s.writing_pos ≡ past_tail c.n w i
      → past_eof w ≡ false
      → Inv c lines (record s { writer = w; writing_pos = i; producers = p })
  writer_on w i p tail on = writer_goes w i p _ _ _ tail (λ e. absurd (cc)) leaving_eof end_eof

  reader_on :
      (r : Reader) (i k : ℕ)
      → past_head c.n s.reader s.reading_pos ≡ past_head c.n r i
      → is_ending r ≡ false
      → Inv c lines (record s { reader = r; reading_pos = i; consumers = k })
  reader_on r i k head on = reader_goes r i k _ head (λ e. absurd (cc)) done_ends

  -- The cell that a producer at its `while` tests, and the one of a consumer.
  tail_at :
      s.writer ≡ Writer.check
      → IsRing c.n s.cells (past_head c.n s.reader s.reading_pos) s.writing_pos held
  tail_at e = IsRing-at flow.ring refl refl (rw e refl)

  head_at :
      s.reader ≡ Reader.check
      → IsRing c.n s.cells s.reading_pos (past_tail c.n s.writer s.writing_pos) held
  head_at e = IsRing-at flow.ring refl (rw e refl) refl

  pub get_line-Inv :
      (x : Text) (xs : List Text)
      → s.writer ≡ Writer.check
      → s.cells s.writing_pos ≡ none
      → s.unread ≡ x ∷ xs
      → Inv c lines (record s {
        cells = update s.cells s.writing_pos (some x);
        line_nr = s.line_nr + 1;
        unread = xs;
        writer = Writer.stored;
      })
  get_line-Inv x xs e cell line = record {
    held = held ++ x ∷ [];
    flow = record {
      ring = IsRing-push (tail_at e) x cell;
      order =
          ap (λ l. s.taken ++ l) (append_assoc held (x ∷ []) xs ∙ ap (λ l. held ++ l) (sym line))
          ∙ flow.order;
      printed = flow.printed;
      counted = flow.counted;
    };
    ends = record {
      writer_eof = λ p. absurd (cc p);
      leaving_eof = λ p. absurd (cc (leaving_eof p));
      end_eof = λ p. absurd (cc (end_eof p));
      reader_ends = λ p. absurd (cc ((reader_ends p).1));
      done_ends = λ p. absurd (cc ((done_ends p).1));
    };
  }

  pub take_line-Inv :
      (x : Text)
      → s.reader ≡ Reader.check
      → s.cells s.reading_pos ≡ some x
      → Inv c lines (record s {
        cells = update s.cells s.reading_pos none;
        line_counter = if wanted c x then s.line_counter + 1 else s.line_counter;
        taken = s.taken ++ x ∷ [];
        found = if wanted c x then s.found ++ x ∷ [] else s.found;
        reader = Reader.cleared;
      })
  take_line-Inv x e cell =
      let (left, held_is, ring) = IsRing-pop (head_at e) x cell in
      record {
        held = left;
        flow = record {
          ring = ring;
          order =
              append_assoc s.taken (x ∷ []) (left ++ s.unread)
              ∙ ap (λ l. s.taken ++ (l ++ s.unread)) (sym held_is)
              ∙ flow.order;
          printed = elim (Bool-cases (wanted c x)) [
            | inl shown ↦
                rw shown
                  (ap (λ l. l ++ x ∷ []) flow.printed ∙ sym ((matching-last c s.taken x).0 shown))
            | inr hidden ↦ rw hidden (flow.printed ∙ sym ((matching-last c s.taken x).1 hidden))
          ];
          counted = ground (arith, flow.counted, length-append s.found (x ∷ []));
        };
        ends = record {
          writer_eof = writer_eof;
          leaving_eof = leaving_eof;
          end_eof = end_eof;
          reader_ends = λ p. absurd (cc p);
          done_ends = λ p. absurd (cc (held_is, (done_ends p).0));
        };
      }

  pub ProducerMove-Inv : {t : State} → ProducerMove c s t → Inv c lines t
  ProducerMove-Inv (ProducerMove.lock_write k e e') = writer_on _ _ _ (rw e refl) refl
  ProducerMove-Inv (ProducerMove.lock_cell e _) = writer_on _ _ _ (rw e refl) refl
  ProducerMove-Inv (ProducerMove.lock_again e _) = writer_on _ _ _ (rw e refl) refl
  ProducerMove-Inv (ProducerMove.wait_full x e _) = writer_on _ _ _ (rw e refl) refl
  ProducerMove-Inv (ProducerMove.get_line x xs e cell line) = get_line-Inv x xs e cell line
  ProducerMove-Inv (ProducerMove.get_eof e _ none_left) =
      writer_goes _ _ _ _ _ _ (rw e refl) (λ p. none_left) leaving_eof end_eof
  ProducerMove-Inv (ProducerMove.unlock_cell e) = writer_on _ _ _ (rw e refl) refl
  ProducerMove-Inv (ProducerMove.advance e) = writer_on _ _ _ (rw e refl) refl
  ProducerMove-Inv (ProducerMove.unlock_write e) = writer_on _ _ _ (rw e refl) refl
  ProducerMove-Inv (ProducerMove.eof_unlock_cell e) =
      writer_goes _ _ _ _ _ _ (rw e refl) (λ p. writer_eof (rw e refl)) leaving_eof end_eof
  ProducerMove-Inv (ProducerMove.eof_unlock_write e) =
      writer_goes _ _ _ _ _ _ (rw e refl) (λ p. absurd (cc p)) (λ p. writer_eof (rw e refl)) end_eof
  ProducerMove-Inv (ProducerMove.set_end k e) =
      let over : s.unread ≡ [] = leaving_eof (λ z. absurd (omega arith)) in
      writer_goes _ _ _ _ _ _ refl writer_eof (λ p. over) (λ p. over)

  pub ConsumerMove-Inv : {t : State} → ConsumerMove c s t → Inv c lines t
  ConsumerMove-Inv (ConsumerMove.lock_read k e e') = reader_on _ _ _ (rw e refl) refl
  ConsumerMove-Inv (ConsumerMove.lock_cell e _) = reader_on _ _ _ (rw e refl) refl
  ConsumerMove-Inv (ConsumerMove.lock_again e _) = reader_on _ _ _ (rw e refl) refl
  ConsumerMove-Inv (ConsumerMove.wait_empty e _ _) = reader_on _ _ _ (rw e refl) refl
  ConsumerMove-Inv (ConsumerMove.end_cell e cell over) =
      reader_goes _ _ _ _ (rw e refl) (λ p. (ring_empty (head_at e) cell, end_eof over)) done_ends
  ConsumerMove-Inv (ConsumerMove.take_line x e cell) = take_line-Inv x e cell
  ConsumerMove-Inv (ConsumerMove.unlock_cell e) = reader_on _ _ _ (rw e refl) refl
  ConsumerMove-Inv (ConsumerMove.advance e) = reader_on _ _ _ (rw e refl) refl
  ConsumerMove-Inv (ConsumerMove.unlock_read e) = reader_on _ _ _ (rw e refl) refl
  ConsumerMove-Inv (ConsumerMove.end_read e) =
      reader_goes _ _ _ _ (rw e refl) (λ p. absurd (cc p)) (λ p. reader_ends (rw e refl))

  -- A producer and a consumer go on at once.
  pub both_go :
      (w : Writer) (r : Reader)
      → past_tail c.n s.writer s.writing_pos ≡ past_tail c.n w s.writing_pos
      → past_head c.n s.reader s.reading_pos ≡ past_head c.n r s.reading_pos
      → (past_eof w ≡ true → s.unread ≡ [])
      → (is_ending r ≡ true → is_ending s.reader ≡ true)
      → Inv c lines (record s { writer = w; reader = r })
  both_go w r tail head eof ending = record {
    held = held;
    flow = Flow-same flow refl head tail refl refl refl refl;
    ends = record {
      writer_eof = eof;
      leaving_eof = leaving_eof;
      end_eof = end_eof;
      reader_ends = λ p. reader_ends (ending p);
      done_ends = done_ends;
    };
  }
