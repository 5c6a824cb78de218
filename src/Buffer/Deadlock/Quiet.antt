-- ===== src/Buffer/Deadlock/Quiet.antt =====
-- States of the threads of cw09/zad1/zad1.c and cw09/zad2/zad2.c on the way to a hang.
use agh_so.Prelude.{ℕ, ◌≡◌, ◌==◌, if◌then◌else◌, not, false, List, none}
use agh_so.CText.{Text}
use agh_so.Buffer.Thread.{Config, State, Writer, Reader, ProducerMove, ConsumerMove}

-- No thread holds a lock and the buffer is empty: `a` producers and `k` consumers are left, `l`
-- producers have met the end of the file, and `xs` is still to be read.
pub record IsQuiet (a l k : ℕ) (xs : List Text) (s : State) : Type 0 where
  pub writer : s.writer ≡ Writer.free
  pub reader : s.reader ≡ Reader.free
  pub producers : s.producers ≡ a
  pub leaving : s.leaving ≡ l
  pub producers_done : s.producers_done ≡ 0
  pub consumers : s.consumers ≡ k
  pub consumers_done : s.consumers_done ≡ 0
  pub unread : s.unread ≡ xs
  pub places : s.reading_pos ≡ s.writing_pos
  pub empty : (i : ℕ) → s.cells i ≡ none
  pub going_on : s.end_time ≡ false

-- A consumer waits, `l` producers are about to set `end_time` and `d` have returned.
pub record IsWaiting (c : Config) (l d : ℕ) (s : State) : Type 0 where
  pub writer : s.writer ≡ Writer.free
  pub reader : s.reader ≡ Reader.wait
  pub producers : s.producers ≡ 0
  pub leaving : s.leaving ≡ l
  pub producers_done : s.producers_done ≡ d
  pub consumers_done : s.consumers_done ≡ 0
  pub nothing : s.cells s.reading_pos ≡ none
  pub end_is : s.end_time ≡ (if d == 0 then false else not c.timed)

-- States that are closed under the moves of the threads, where a thread tells others while none of
-- them holds a lock.
pub record IsClosed (c : Config) (R : State → Type 0) : Type 0 where
  pub produce : {s t : State} → R s → ProducerMove c s t → R t
  pub consume : {s t : State} → R s → ConsumerMove c s t → R t
  pub tell_readers :
      {s : State}
      → R s
      → s.writer ≡ Writer.stored
      → s.reader ≡ Reader.free
      → R (record s { writer = Writer.told })
  pub tell_eof :
      {s : State}
      → R s
      → s.writer ≡ Writer.at_eof
      → s.reader ≡ Reader.free
      → R (record s { writer = Writer.eof_told })
  pub tell_writers :
      {s : State}
      → R s
      → s.reader ≡ Reader.cleared
      → s.writer ≡ Writer.free
      → R (record s { reader = Reader.told })
