-- ===== src/Buffer/Cond.antt =====
-- cw09/zad1/zad1.c: a thread waits on a condition variable, and others wake it by a broadcast.
use agh_so.Prelude.{Bool, true, List, ◌≡◌}
use agh_so.CText.{Text}
use agh_so.Buffer.Thread.{Config, State, Writer, Reader, ProducerMove, ConsumerMove, start_state}

-- `pthread_cond_broadcast`: at most one thread waits on each condition, since it holds a lock.
abbrev pub wake_writer : Writer → Writer
wake_writer Writer.wait = Writer.woken
wake_writer w = w

abbrev pub wake_reader : Reader → Reader
wake_reader Reader.wait = Reader.woken
wake_reader r = r

-- A wait may also end without a broadcast, where `spurious` says so.
pub data Signal (spurious : Bool) (s : State) : State → Type 0 where
  tell_readers :
      s.writer ≡ Writer.stored
      → Signal spurious s (record s { writer = Writer.told; reader = wake_reader s.reader })
  tell_eof :
      s.writer ≡ Writer.at_eof
      → Signal spurious s (record s { writer = Writer.eof_told; reader = wake_reader s.reader })
  tell_writers :
      s.reader ≡ Reader.cleared
      → Signal spurious s (record s { reader = Reader.told; writer = wake_writer s.writer })
  writer_wakes :
      spurious ≡ true
      → s.writer ≡ Writer.wait
      → Signal spurious s (record s { writer = Writer.woken })
  reader_wakes :
      spurious ≡ true
      → s.reader ≡ Reader.wait
      → Signal spurious s (record s { reader = Reader.woken })

pub data Step (c : Config) (spurious : Bool) (s : State) (t : State) : Type 0 where
  produce : ProducerMove c s t → Step c spurious s t
  consume : ConsumerMove c s t → Step c spurious s t
  signal : Signal spurious s t → Step c spurious s t

-- The states that the program can come to.
pub data Reach (c : Config) (spurious : Bool) (lines : List Text) : State → Type 0 where
  begin : Reach c spurious lines (start_state c lines)
  later : {s t : State} → Reach c spurious lines s → Step c spurious s t → Reach c spurious lines t
