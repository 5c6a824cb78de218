-- ===== src/Shell.antt =====
-- cw05/zad1/zad1.c: an interpreter of files of commands with pipes; and cw03/zad3a/zad3a.c, one
-- without, which limits what the processes use. The exit status of a process is a parameter. `none` is an access outside an
-- array, a call with a null pointer, an overflow of int, or the end of what is followed in Pipes.
pub mod Pipes
pub mod Words
pub mod Commands
pub mod Wiring
pub mod Lines
mod Tests
use agh_so.Prelude.{
  ℕ, zero, suc, ◌+◌, Bool, true, false, ◌&&◌, List, [], ◌∷◌, ◌++◌, Option, none, some, ltb, ◌==◌,
  if◌then◌else◌, ◌*◌, ◌-◌, ◌^◌, ◌>>=◌, ◌>>◌, guard, length, get_elem?, set, replicate,
}
use agh_so.Prelude.Int.{ℤ, pos, negsuc}
use agh_so.CText.{Text, strtok, string_to_int, int_of}
use agh_so.Shell.Pipes.{End, Child, alone, pipeline}

-- The tokens that the calls of `strtok` give until NULL, with fuel. Each takes a character at least.
unfoldable pub words_from : ℕ → Text → List Text
words_from zero s = []
words_from (suc fuel) s = elim (strtok s) [ none ↦ [] | some p ↦ p.0 ∷ words_from fuel p.1 ]

unfoldable pub words : Text → List Text
unfolding words_from
words s = words_from (length s) s

-- `strcmp(tmp, "|") == 0`
abbrev pub is_bar : Text → Bool
is_bar [] = false
is_bar (c ∷ []) = c == 124
is_bar (c ∷ d ∷ t) = false

abbrev pub Row : Type 0
Row = List (Option Text)

abbrev pub empty_row : Row
empty_row = replicate 10 none

-- The inner loop, from `j` and the tokens that are left: the row, and the tokens from a bar on.
unfoldable pub fill_row : List Text → ℕ → Row → Option (Row × List Text)
fill_row [] j row = some (row, [])
fill_row (t ∷ ts) j row =
    let on = do guard (ltb j 10); fill_row ts (j + 1) (set row j (some t))
    in if is_bar t then some (row, t ∷ ts) else on

-- `strtok` once more behind a bar.
abbrev pub after_bar : List Text → List Text
after_bar [] = []
after_bar (t ∷ ts) = ts

-- The outer loop, with fuel, from `i`: the rows that are filled. A row is written to only where it
-- has a word.
unfoldable pub fill_rows : ℕ → List Text → ℕ → Option (List Row)
fill_rows zero ts i = some []
fill_rows (suc fuel) [] i = some []
fill_rows (suc fuel) (t ∷ ts) i = do
  guard (if is_bar t then true else ltb i 10)
  (row, rest) ← fill_row (t ∷ ts) 0 empty_row
  later ← fill_rows fuel (after_bar rest) (i + 1)
  some (row ∷ later)

-- What `execvp` reads of a row: the words before NULL.
unfoldable pub arguments : Row → Option (List Text)
arguments [] = none
arguments (none ∷ row) = some []
arguments (some t ∷ row) = do ts ← arguments row; some (t ∷ ts)

unfoldable pub all_arguments : List Row → Option (List (List Text))
all_arguments [] = some []
all_arguments (row ∷ rows) = do ts ← arguments row; later ← all_arguments rows; some (ts ∷ later)

-- The commands of a line, where rows are read that were written.
unfoldable pub commands : Text → Option (List (List Text))
unfolding words fill_rows fill_row arguments all_arguments
commands s = do
  rows ← fill_rows (suc (length (words s))) (words s) 0
  guard (ltb (length rows) 11)
  all_arguments rows

-- The processes of a line.
unfoldable pub children : (End → Bool) → List (List Text) → Option (List Child)
unfolding pipeline
children names [] = some []
children names (c ∷ []) = do guard (ltb 0 (length c)); some (alone c ∷ [])
children names (c ∷ d ∷ cs) = do (cs', ends) ← pipeline names (c ∷ d ∷ cs); some cs'

-- `main`, over the lines of the file that are left: the processes of each line that is run, and what
-- `main` returns. `status` gives the exit status of the last of some processes, `names` for each
-- `line_count` what the uninitialised numbers of the line name.
unfoldable pub run :
    (List Child → ℕ) → (ℕ → End → Bool) → ℕ → List Text → Option (List (List Child) × ℕ)
unfolding commands children
run status names line_count [] = some ([], 0)
run status names line_count (s ∷ ss) = do
  cs ← commands s
  processes ← children (names (line_count + 1)) cs
  let others = run status names (line_count + 1) ss
  let later = do (ran, code) ← others; some (processes ∷ ran, code)
  if length cs == 0
      then others
      else (if status processes == 0 then later else some (processes ∷ [], 1))

-- cw03/zad3a/zad3a.c: the row of arguments of a line, as in cw03/zad2/zad2.c.
unfoldable pub simple_row : List Text → ℕ → Row → Option Row
simple_row [] j row = some row
simple_row (t ∷ ts) j row = do guard (ltb j 10); simple_row ts (j + 1) (set row j (some t))

-- A limit of a resource, to which an int is converted.
abbrev pub to_rlim : ℤ → ℕ
to_rlim (pos n) = n
to_rlim (negsuc n) = 2 ^ 64 - suc n

-- An int shifted left, of which C defines the value where it is no less than 0 and fits.
abbrev pub shift_left : ℤ → ℕ → Option ℤ
shift_left (pos n) by = int_of (pos (n * 2 ^ by))
shift_left (negsuc n) by = none

-- A process when it calls `execvp`: its arguments and its limits of time and of memory.
pub record Limited : Type 0 where
  pub argv : List Text
  pub cpu : ℕ
  pub memory : ℕ

-- What the child does, with the two arguments of the program. `execvp` reads the first word, which is
-- NULL where there is none.
unfoldable pub limited : Text → Text → List Text → Option Limited
unfolding string_to_int int_of
limited cpu memory argv = do
  seconds ← string_to_int cpu
  megabytes ← string_to_int memory
  bytes ← shift_left megabytes 20
  guard (ltb 0 (length argv))
  some (record { argv = argv; cpu = to_rlim seconds; memory = to_rlim bytes })

-- `main`, over the lines of the file, less the times that it prints.
unfoldable pub run_limited : (Limited → ℕ) → Text → Text → List Text → Option (List Limited × ℕ)
unfolding words simple_row arguments limited
run_limited status cpu memory [] = some ([], 0)
run_limited status cpu memory (s ∷ ss) = do
  row ← simple_row (words s) 0 empty_row
  argv ← arguments row
  child ← limited cpu memory argv
  let later = do (ran, code) ← run_limited status cpu memory ss; some (child ∷ ran, code)
  if status child == 0 then later else some (child ∷ [], 1)
