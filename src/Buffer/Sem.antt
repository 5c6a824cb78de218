-- ===== src/Buffer/Sem.antt =====
-- cw09/zad2/zad2.c: a thread waits on a semaphore, and others post to it. The posts add up while
-- nobody waits.
use agh_so.Prelude.{ℕ, suc, ◌+◌, List, ◌≡◌}
use agh_so.CText.{Text}
use agh_so.Buffer.Thread.{Config, State, Writer, Reader, ProducerMove, ConsumerMove, start_state}

-- `someone_is_reading` and `someone_is_writing`. The second is not initialised by `sem_init`; it is
-- a global, and so 0.
pub record Sems : Type 0 where
  pub someone_is_reading : ℕ
  pub someone_is_writing : ℕ

abbrev pub no_posts : Sems
no_posts = record { someone_is_reading = 0; someone_is_writing = 0 }

pub data Post (s : State) (q : Sems) : State → Sems → Type 0 where
  tell_readers :
      s.writer ≡ Writer.stored
      → Post s q
          (record s { writer = Writer.told })
          (record q { someone_is_writing = q.someone_is_writing + 1 })
  tell_eof :
      s.writer ≡ Writer.at_eof
      → Post s q
          (record s { writer = Writer.eof_told })
          (record q { someone_is_writing = q.someone_is_writing + 1 })
  tell_writers :
      s.reader ≡ Reader.cleared
      → Post s q
          (record s { reader = Reader.told })
          (record q { someone_is_reading = q.someone_is_reading + 1 })
  writer_passes :
      (k : ℕ)
      → s.writer ≡ Writer.wait
      → q.someone_is_reading ≡ suc k
      → Post s q (record s { writer = Writer.woken }) (record q { someone_is_reading = k })
  reader_passes :
      (k : ℕ)
      → s.reader ≡ Reader.wait
      → q.someone_is_writing ≡ suc k
      → Post s q (record s { reader = Reader.woken }) (record q { someone_is_writing = k })

pub data Step (c : Config) (s : State) (q : Sems) (t : State) (r : Sems) : Type 0 where
  produce : q ≡ r → ProducerMove c s t → Step c s q t r
  consume : q ≡ r → ConsumerMove c s t → Step c s q t r
  post : Post s q t r → Step c s q t r

pub data Reach (c : Config) (lines : List Text) : State → Sems → Type 0 where
  begin : Reach c lines (start_state c lines) no_posts
  later : {s t : State} {q r : Sems} → Reach c lines s q → Step c s q t r → Reach c lines t r
