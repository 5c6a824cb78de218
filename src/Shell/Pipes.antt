-- ===== src/Shell/Pipes.antt =====
-- cw05/zad1/zad1.c: the loop that makes the pipes and the processes of a line. A pipe is named by the
-- `j` with which it is made.
use agh_so.Prelude.{
  ℕ, ◌+◌, ◌%◌, Bool, true, false, List, [], ◌∷◌, Option, none, some, ◌==◌, not, ◌||◌, ltb, guard,
  ◌>>=◌, ◌>>◌, ◌++◌, if◌then◌else◌, length,
}
use agh_so.CText.{Text}

-- What is open as a descriptor: an end of a pipe, or, by its number, one from before the loop.
pub data End : Type 0 where
  reading : ℕ → End
  writing : ℕ → End
  older : ℕ → End

abbrev pub same_end : End → End → Bool
same_end (End.reading a) (End.reading b) = a == b
same_end (End.writing a) (End.writing b) = a == b
same_end (End.older a) (End.older b) = a == b
same_end a b = false

abbrev pub holds : End → List End → Bool
holds e [] = false
holds e (f ∷ fs) = if same_end e f then true else holds e fs

abbrev pub close : End → List End → List End
close e [] = []
close e (f ∷ fs) = if same_end e f then close e fs else f ∷ close e fs

-- A process when it calls `execvp`: its arguments, the pipes that its standard input and output lead
-- to, and what else it has open.
pub record Child : Type 0 where
  pub argv : List Text
  pub stdin : Option ℕ
  pub stdout : Option ℕ
  pub ends : List End

abbrev pub alone : List Text → Child
alone argv = record { argv = argv; stdin = none; stdout = none; ends = [] }

-- `pipes[0]` and `pipes[1]`, and what the parent has open.
pub record Parent : Type 0 where
  pub even : Option ℕ
  pub odd : Option ℕ
  pub ends : List End

abbrev pub slot : Parent → ℕ → Option ℕ
slot p j = if j % 2 == 0 then p.even else p.odd

abbrev pub close_both : Option ℕ → List End → List End
close_both none ends = ends
close_both (some k) ends = close (End.writing k) (close (End.reading k) ends)

-- The standard descriptors, and the file of commands.
abbrev pub older_ends : List End
older_ends = End.older 0 ∷ End.older 1 ∷ End.older 2 ∷ End.older 3 ∷ []

abbrev pub names_any : (End → Bool) → List End → Bool
names_any names [] = false
names_any names (e ∷ es) = names e || names_any names es

-- What is open after the calls of `close` and of `pipe`.
unfoldable pub opened : ℕ → Parent → Parent
opened j p =
    let ends = if j == 0 then p.ends else close_both (slot p j) p.ends in
    let with_pipe = End.reading j ∷ End.writing j ∷ ends in
    if j % 2 == 0
    then record { even = some j; odd = p.odd; ends = with_pipe }
    else record { even = p.even; odd = some j; ends = with_pipe }

-- A pipe for `j`. With `j` 1 the program closes the two numbers that `pipes[1]` holds uninitialised.
-- `names` says of what is open whether one of them names it: if so, the run is not followed.
unfoldable pub make_pipe : (End → Bool) → ℕ → Parent → Option Parent
unfolding opened
make_pipe names j p = do
  guard (if j == 1 then not (names_any names (older_ends ++ p.ends)) else true)
  some (opened j p)

abbrev pub close_read : Option ℕ → List End → List End
close_read none ends = ends
close_read (some k) ends = close (End.reading k) ends

abbrev pub close_write : Option ℕ → List End → List End
close_write none ends = ends
close_write (some k) ends = close (End.writing k) ends

-- The child that is forked with `j`, of `i` children, when it calls `execvp`.
unfoldable pub forked : ℕ → ℕ → List Text → Parent → Child
forked i j argv p =
    let inside = if j == 0 then p.ends else close_write (slot p (j + 1)) p.ends in
    record {
      argv = argv;
      stdin = if j == 0 then none else slot p (j + 1);
      stdout = if j + 1 == i then none else slot p j;
      ends = if j + 1 == i then inside else close_read (slot p j) inside;
    }

-- `execvp` reads the first word, which is NULL where there is none.
unfoldable pub fork : ℕ → ℕ → List Text → Parent → Option Child
unfolding forked
fork i j argv p = do guard (ltb 0 (length argv)); some (forked i j argv p)

-- The loop, over the commands that are left.
unfoldable pub fork_all :
    (End → Bool) → ℕ → ℕ → List (List Text) → Parent → Option (List Child × Parent)
unfolding make_pipe fork
fork_all names i j [] p = some ([], p)
fork_all names i j (c ∷ cs) p = do
  p' ← make_pipe names j p
  child ← fork i j c p'
  (later, last) ← fork_all names i (j + 1) cs p'
  some (child ∷ later, last)

abbrev pub new_parent : Parent
new_parent = record { even = none; odd = none; ends = [] }

-- The processes of a line, and what the parent has open when it waits.
unfoldable pub pipeline : (End → Bool) → List (List Text) → Option (List Child × List End)
unfolding fork_all
pipeline names cs = do
  (children, p) ← fork_all names (length cs) 0 cs new_parent
  some (children, close_both (slot p (length cs + 1)) (close_both (slot p (length cs)) p.ends))
