-- ===== src/Fifo.antt =====
-- cw05/zad2/slave.c and master.c: slaves write lines into a FIFO, a master prints what it reads from it.
-- What `date` prints is a parameter, and so is what the buffer of the master holds at first. `none` is
-- an access outside an array, or an overflow of int.
pub mod Traffic
pub mod Printed
mod Tests
use agh_so.Prelude.{
  ℕ, zero, suc, ◌+◌, ◌<◌, ◌≤◌, ◌≡◌, List, [], ◌∷◌, ◌++◌, Option, none, some, ltb, ◌==◌,
  if◌then◌else◌, ◌>>=◌, ◌>>◌, guard, length, take, drop,
}
use agh_so.Prelude.Int.{ℤ, pos, pos_part}
use agh_so.CText.{Text, codes, string_to_int, print_int, c_string}

-- PIPE_BUF, as Linux has it.
abbrev pub pipe_buf : ℕ
pipe_buf = 4096

-- `buf2` of a slave, from its pid and `buf1`.
unfoldable pub line_of : ℕ → Text → Option Text
line_of pid date =
    let text =
      codes "My pid from pipe: "
      ++ (print_int (pos pid) ++ (codes ", date: " ++ (date ++ codes "\n"))) in
    do guard (ltb (length text) pipe_buf); some text

-- The loop of a slave, with the rounds that are left: what it writes. `date i` is what fgets reads in
-- the round `i`.
unfoldable pub slave_loop : (ℕ → Text) → ℕ → ℕ → ℕ → Option (List Text)
unfolding line_of
slave_loop date pid zero i = some []
slave_loop date pid (suc rounds) i = do
  text ← line_of pid (date i)
  others ← slave_loop date pid rounds (i + 1)
  some (text ∷ others)

-- A slave with the argument `argv[2]`; a number below 0 makes a loop of no rounds.
unfoldable pub slave : (ℕ → Text) → ℕ → Text → Option (List Text)
unfolding slave_loop string_to_int
slave date pid argv2 = do n ← string_to_int argv2; slave_loop date pid (pos_part n) 0

-- The FIFO, what each slave has still to write, and, in order, what has been written, with the number
-- of the slave, and what the master has read.
pub record Pipe : Type 0 where
  pub fifo : Text
  pub slaves : ℕ → List Text
  pub written : List (ℕ × Text)
  pub read : List Text

abbrev pub put : (ℕ → List Text) → ℕ → List Text → (ℕ → List Text)
put slaves i ms j = if i == j then ms else slaves j

-- A write of no more than PIPE_BUF bytes is one step; a read takes some of the bytes that are there.
pub data Move (s : Pipe) : Pipe → Type 0 where
  write :
      (i : ℕ) (m : Text) (ms : List Text)
      → s.slaves i ≡ m ∷ ms
      → Move s (record s {
        fifo = s.fifo ++ m;
        slaves = put s.slaves i ms;
        written = s.written ++ (i, m) ∷ [];
      })
  read :
      (n : ℕ)
      → 0 < n
      → n ≤ pipe_buf
      → n ≤ length s.fifo
      → Move s (record s { fifo = drop n s.fifo; read = s.read ++ take n s.fifo ∷ [] })

abbrev pub start_pipe : (ℕ → List Text) → Pipe
start_pipe slaves = record { fifo = []; slaves = slaves; written = []; read = [] }

pub data Reach (slaves : ℕ → List Text) : Pipe → Type 0 where
  begin : Reach slaves (start_pipe slaves)
  later : {s t : Pipe} → Reach slaves s → Move s t → Reach slaves t

-- The loop of the master, over what its calls of `read` give: what it prints. Each is stored at the
-- beginning of `buf`, and printed up to the first NUL of `buf`.
unfoldable pub master : Text → List Text → Option Text
unfolding c_string
master buf [] = some []
master buf (chunk ∷ chunks) = do
  text ← c_string (chunk ++ drop (length chunk) buf)
  others ← master (chunk ++ drop (length chunk) buf) chunks
  some (text ++ others)
