-- ===== src/Buffer/Thread.antt =====
-- The threads of cw09/zad1/zad1.c and cw09/zad2/zad2.c, a step between two calls of the thread
-- library at a time. `line_nr` and `line_counter` are numbers without a bound: the lines of a file are
-- fewer than 2^31, the least number that is not an int.
use agh_so.Prelude.{
  ℕ, zero, suc, ◌+◌, ◌-◌, ◌%◌, ◌^◌, ◌≡◌, Bool, true, false, ◌&&◌, List, [], ◌∷◌, ◌++◌, none, some,
  ltb, ◌==◌, if◌then◌else◌,
}
use agh_so.Prelude.Int.{ℤ, pos, negsuc}
use agh_so.CText.{Text}
use agh_so.Buffer.Ring.{Cells, update}

-- The options of the program: N, L, the search mode, the numbers of threads, and whether NK is set.
pub record Config : Type 0 where
  pub n : ℕ
  pub l : ℤ
  pub search_mode : ℤ
  pub p : ℕ
  pub k : ℕ
  pub timed : Bool

unfoldable pub strlen : Text → ℕ
strlen [] = 0
strlen (c ∷ s) = let rest = strlen s in if c == 0 then 0 else suc rest

-- An `int` where a `size_t` is compared with it.
unfoldable pub size_of : ℤ → ℕ
size_of (pos n) = n
size_of (negsuc n) = 2 ^ 64 - 1 - n

unfoldable pub found_by : ℤ → ℕ → ℕ → Bool
found_by (pos zero) len l = ltb len l
found_by (pos (suc zero)) len l = len == l
found_by (pos (suc (suc zero))) len l = ltb l len
found_by mode len l = false

-- The three tests of a consumer.
unfoldable pub wanted : Config → Text → Bool
wanted c line = found_by c.search_mode (strlen line) (size_of c.l)

-- Where the producer is that holds `write_lock`.
pub data Writer : Type 0 where
  free : Writer  -- none holds it
  start : Writer  -- before the lock of the cell
  check : Writer  -- at the `while`, with the lock of the cell
  wait : Writer  -- waits, without the lock of the cell
  woken : Writer  -- before the lock of the cell, to go back to the `while`
  stored : Writer  -- after `line_nr++`
  told : Writer  -- after the consumers have been told
  unlocked : Writer  -- after the unlock of the cell
  advanced : Writer  -- after `writing_pos %= N`
  at_eof : Writer  -- `getline` has failed
  eof_told : Writer
  eof_unlocked : Writer

-- Where the consumer is that holds `read_lock`.
pub data Reader : Type 0 where
  free : Reader
  start : Reader
  check : Reader
  wait : Reader
  woken : Reader
  cleared : Reader  -- after the cell has been set to NULL
  told : Reader
  unlocked : Reader
  advanced : Reader
  ending : Reader  -- the lock of the cell is open again, to return

-- A mutex has one holder, so that all threads but two stand before a lock, or have returned. `taken`
-- and `found` are the lines that have been taken out and printed.
pub record State : Type 0 where
  pub cells : Cells
  pub writing_pos : ℕ
  pub reading_pos : ℕ
  pub line_nr : ℕ
  pub line_counter : ℕ
  pub end_time : Bool
  pub unread : List Text
  pub writer : Writer
  pub reader : Reader
  pub producers : ℕ
  pub leaving : ℕ
  pub producers_done : ℕ
  pub consumers : ℕ
  pub consumers_done : ℕ
  pub taken : List Text
  pub found : List Text

-- After the beginning of `main`, with all threads at their first lock.
unfoldable pub start_state : Config → List Text → State
start_state c lines = record {
  cells = λ i. none;
  writing_pos = 0;
  reading_pos = 0;
  line_nr = 0;
  line_counter = 0;
  end_time = false;
  unread = lines;
  writer = Writer.free;
  reader = Reader.free;
  producers = c.p;
  leaving = 0;
  producers_done = 0;
  consumers = c.k;
  consumers_done = 0;
  taken = [];
  found = [];
}

-- `buffer_lock[i]` is held.
abbrev pub writer_holds : Writer → Bool
writer_holds Writer.check = true
writer_holds Writer.stored = true
writer_holds Writer.told = true
writer_holds Writer.at_eof = true
writer_holds Writer.eof_told = true
writer_holds _ = false

abbrev pub reader_holds : Reader → Bool
reader_holds Reader.check = true
reader_holds Reader.cleared = true
reader_holds Reader.told = true
reader_holds _ = false

abbrev pub OpenForWriter : State → Type 0
OpenForWriter s = reader_holds s.reader && (s.reading_pos == s.writing_pos) ≡ false

abbrev pub OpenForReader : State → Type 0
OpenForReader s = writer_holds s.writer && (s.writing_pos == s.reading_pos) ≡ false

-- `P_start_routine`, but for waking others and being woken.
pub data ProducerMove (c : Config) (s : State) : State → Type 0 where
  lock_write :
      (k : ℕ)
      → s.writer ≡ Writer.free
      → s.producers ≡ suc k
      → ProducerMove c s (record s { writer = Writer.start; producers = k })
  lock_cell :
      s.writer ≡ Writer.start
      → OpenForWriter s
      → ProducerMove c s (record s { writer = Writer.check })
  lock_again :
      s.writer ≡ Writer.woken
      → OpenForWriter s
      → ProducerMove c s (record s { writer = Writer.check })
  wait_full :
      (x : Text)
      → s.writer ≡ Writer.check
      → s.cells s.writing_pos ≡ some x
      → ProducerMove c s (record s { writer = Writer.wait })
  get_line :
      (x : Text) (xs : List Text)
      → s.writer ≡ Writer.check
      → s.cells s.writing_pos ≡ none
      → s.unread ≡ x ∷ xs
      → ProducerMove c s (record s {
        cells = update s.cells s.writing_pos (some x);
        line_nr = s.line_nr + 1;
        unread = xs;
        writer = Writer.stored;
      })
  get_eof :
      s.writer ≡ Writer.check
      → s.cells s.writing_pos ≡ none
      → s.unread ≡ []
      → ProducerMove c s (record s { writer = Writer.at_eof })
  unlock_cell : s.writer ≡ Writer.told → ProducerMove c s (record s { writer = Writer.unlocked })
  advance :
      s.writer ≡ Writer.unlocked
      → ProducerMove c s
          (record s { writing_pos = (s.writing_pos + 1) % c.n; writer = Writer.advanced })
  unlock_write :
      s.writer ≡ Writer.advanced
      → ProducerMove c s (record s { writer = Writer.free; producers = s.producers + 1 })
  eof_unlock_cell :
      s.writer ≡ Writer.eof_told → ProducerMove c s (record s { writer = Writer.eof_unlocked })
  eof_unlock_write :
      s.writer ≡ Writer.eof_unlocked
      → ProducerMove c s (record s { writer = Writer.free; leaving = s.leaving + 1 })
  set_end :
      (k : ℕ)
      → s.leaving ≡ suc k
      → ProducerMove c s (record s {
        leaving = k;
        producers_done = s.producers_done + 1;
        end_time = if c.timed then s.end_time else true;
      })

-- `C_start_routine`, but for waking others and being woken.
pub data ConsumerMove (c : Config) (s : State) : State → Type 0 where
  lock_read :
      (k : ℕ)
      → s.reader ≡ Reader.free
      → s.consumers ≡ suc k
      → ConsumerMove c s (record s { reader = Reader.start; consumers = k })
  lock_cell :
      s.reader ≡ Reader.start
      → OpenForReader s
      → ConsumerMove c s (record s { reader = Reader.check })
  lock_again :
      s.reader ≡ Reader.woken
      → OpenForReader s
      → ConsumerMove c s (record s { reader = Reader.check })
  wait_empty :
      s.reader ≡ Reader.check
      → s.cells s.reading_pos ≡ none
      → s.end_time ≡ false
      → ConsumerMove c s (record s { reader = Reader.wait })
  end_cell :
      s.reader ≡ Reader.check
      → s.cells s.reading_pos ≡ none
      → s.end_time ≡ true
      → ConsumerMove c s (record s { reader = Reader.ending })
  take_line :
      (x : Text)
      → s.reader ≡ Reader.check
      → s.cells s.reading_pos ≡ some x
      → ConsumerMove c s (record s {
        cells = update s.cells s.reading_pos none;
        line_counter = if wanted c x then s.line_counter + 1 else s.line_counter;
        taken = s.taken ++ x ∷ [];
        found = if wanted c x then s.found ++ x ∷ [] else s.found;
        reader = Reader.cleared;
      })
  unlock_cell : s.reader ≡ Reader.told → ConsumerMove c s (record s { reader = Reader.unlocked })
  advance :
      s.reader ≡ Reader.unlocked
      → ConsumerMove c s
          (record s { reading_pos = (s.reading_pos + 1) % c.n; reader = Reader.advanced })
  unlock_read :
      s.reader ≡ Reader.advanced
      → ConsumerMove c s (record s { reader = Reader.free; consumers = s.consumers + 1 })
  end_read :
      s.reader ≡ Reader.ending
      → ConsumerMove c s (record s { reader = Reader.free; consumers_done = s.consumers_done + 1 })

-- The cell that the next line goes to, and the cell of the first line that is held: a thread changes
-- its cell before its position.
abbrev pub past_tail : ℕ → Writer → ℕ → ℕ
past_tail n Writer.stored i = (i + 1) % n
past_tail n Writer.told i = (i + 1) % n
past_tail n Writer.unlocked i = (i + 1) % n
past_tail n _ i = i

abbrev pub past_head : ℕ → Reader → ℕ → ℕ
past_head n Reader.cleared i = (i + 1) % n
past_head n Reader.told i = (i + 1) % n
past_head n Reader.unlocked i = (i + 1) % n
past_head n _ i = i
