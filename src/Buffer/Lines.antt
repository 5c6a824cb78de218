-- ===== src/Buffer/Lines.antt =====
-- What the threads of cw09/zad1/zad1.c and cw09/zad2/zad2.c do with the lines of the file.
use mathlib.Core.Path.{subst}
use mathlib.Core.List.{append-nil}
use agh_so.Prelude.{
  ℕ, ◌<◌, ◌≡◌, refl, sym, ap, ◌∙◌, ◌≢◌, inl, inr, Bool, true, false, Bool-cases, List, [], ◌∷◌,
  ◌++◌, arith, if◌then◌else◌, length,
}
use agh_so.CText.{Text}
use agh_so.Buffer.Ring.{Cells, IsRing, place_zero}
use agh_so.Buffer.Thread.{Config, State, Writer, Reader, wanted, past_head, past_tail, start_state}

-- The lines that the consumers print.
abbrev pub matching : Config → List Text → List Text
matching c [] = []
matching c (x ∷ xs) = if wanted c x then x ∷ matching c xs else matching c xs

matching-append :
    (c : Config) (xs ys : List Text) → matching c (xs ++ ys) ≡ matching c xs ++ matching c ys
matching-append c [] ys = refl
matching-append c (x ∷ xs) ys = elim (Bool-cases (wanted c x)) [
  | inl shown ↦ rw shown (ap (λ l. x ∷ l) (matching-append c xs ys))
  | inr hidden ↦ rw hidden (matching-append c xs ys)
]

pub matching-last :
    (c : Config) (xs : List Text) (x : Text)
    → (wanted c x ≡ true → matching c (xs ++ x ∷ []) ≡ matching c xs ++ x ∷ [])
      × (wanted c x ≡ false → matching c (xs ++ x ∷ []) ≡ matching c xs)
matching-last c xs x = (
  λ shown. matching-append c xs (x ∷ []) ∙ (rw shown refl),
  λ hidden. matching-append c xs (x ∷ []) ∙ (rw hidden (append-nil (matching c xs))),
)

-- `held` are the lines between the two positions.
pub record Flow (c : Config) (lines held : List Text) (s : State) : Type 0 where
  pub ring :
      IsRing c.n s.cells
        (past_head c.n s.reader s.reading_pos)
        (past_tail c.n s.writer s.writing_pos)
        held
  pub order : s.taken ++ (held ++ s.unread) ≡ lines
  pub printed : s.found ≡ matching c s.taken
  pub counted : s.line_counter ≡ length s.found

-- After a failed `getline` no line is left to read, and a consumer returns only when none is held.
abbrev pub past_eof : Writer → Bool
past_eof Writer.at_eof = true
past_eof Writer.eof_told = true
past_eof Writer.eof_unlocked = true
past_eof _ = false

abbrev pub is_ending : Reader → Bool
is_ending Reader.ending = true
is_ending _ = false

pub record Ends (held : List Text) (s : State) : Type 0 where
  pub writer_eof : past_eof s.writer ≡ true → s.unread ≡ []
  pub leaving_eof : s.leaving ≢ 0 → s.unread ≡ []
  pub end_eof : s.end_time ≡ true → s.unread ≡ []
  pub reader_ends : is_ending s.reader ≡ true → (held ≡ []) × (s.unread ≡ [])
  pub done_ends : s.consumers_done ≢ 0 → (held ≡ []) × (s.unread ≡ [])

pub record Inv (c : Config) (lines : List Text) (s : State) : Type 0 where
  pub held : List Text
  pub flow : Flow c lines held s
  pub ends : Ends held s

pub start-Inv : (c : Config) (lines : List Text) → 0 < c.n → Inv c lines (start_state c lines)
unfolding start_state
start-Inv c lines h = record {
  held = [];
  flow = record {
    ring = record {
      in_range = h;
      tail_is = sym (place_zero c.n 0 h);
      fits = omega arith;
      cell = λ k hk. refl;
    };
    order = refl;
    printed = refl;
    counted = refl;
  };
  ends = record {
    writer_eof = λ e. cc;
    leaving_eof = λ e. absurd (e refl);
    end_eof = λ e. cc;
    reader_ends = λ e. absurd (cc);
    done_ends = λ e. absurd (e refl);
  };
}

pub IsRing-at :
    {n : ℕ} {cells cells' : Cells} {head head' tail tail' : ℕ} {held : List Text}
    → IsRing n cells head tail held
    → cells' ≡ cells
    → head ≡ head'
    → tail ≡ tail'
    → IsRing n cells' head' tail' held
IsRing-at {n} {cells} {cells'} {head} {head'} {tail} {tail'} {held} r same_cells same_head
      same_tail =
    subst (λ f. IsRing n f head' tail' held) (sym same_cells)
      (subst (λ h. IsRing n cells h tail' held) same_head
        (subst (λ t. IsRing n cells head t held) same_tail r))

-- A move that leaves the lines where they are.
pub Flow-same :
    {c : Config} {lines held : List Text} {s t : State}
    → Flow c lines held s
    → t.cells ≡ s.cells
    → past_head c.n s.reader s.reading_pos ≡ past_head c.n t.reader t.reading_pos
    → past_tail c.n s.writer s.writing_pos ≡ past_tail c.n t.writer t.writing_pos
    → t.unread ≡ s.unread
    → t.taken ≡ s.taken
    → t.found ≡ s.found
    → t.line_counter ≡ s.line_counter
    → Flow c lines held t
Flow-same {c} {lines} {held} {s} {t} f cells head tail unread taken found counter = record {
  ring = IsRing-at f.ring cells head tail;
  order = rw (taken, unread) f.order;
  printed = rw (found, taken) f.printed;
  counted = rw (found, counter) f.counted;
}
