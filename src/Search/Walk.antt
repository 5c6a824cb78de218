-- ===== src/Search/Walk.antt =====
-- cw02/zad2a/zad2a.c: the searches by `readdir`, through the tree of directories. `none` is a path
-- that overruns its 200 bytes, or closedir(NULL), behind an opendir that failed, where this does not
-- return.
pub mod Listing
pub mod Dates
use agh_so.Prelude.{
  ℕ, ◌+◌, Bool, true, false, ◌&&◌, ◌||◌, not, List, [], ◌∷◌, ◌++◌, Option, none, some, ltb, ◌==◌,
  if◌then◌else◌, ◌>>=◌, ◌>>◌, guard, length,
}
use agh_so.CText.{Text}
use agh_so.Search.{
  Tm, Stat, is_reg, is_dir, report, Which, older, newer, same_date, matches, start_path, start_time,
  which_of,
}

-- A directory is what `readdir` gives in turn, `.` and `..` included, or cannot be opened. What is
-- inside an entry matters for a directory only.
mutual
  pub data Entry : Type 0 where
    entry : Text → Stat → Dir → Entry

  pub data Dir : Type 0 where
    closed : Dir
    ended : Dir
    next : Entry → Dir → Dir

-- `strcmp` with "." and "..".
unfoldable pub is_dots : Text → Bool
is_dots [] = false
is_dots (a ∷ []) = a == b'.'
is_dots (a ∷ b ∷ []) = (a == b'.') && (b == b'.')
is_dots (a ∷ b ∷ c ∷ s) = false

-- `strcpy`, `strcat` and `strcat` into `malloc(200)`.
unfoldable pub file_path : Text → Text → Option Text
file_path path name = do let p = path ++ b'/' ∷ name; guard (ltb (length p) 200); some p

module _ (localtime : ℕ → Tm) where
  abbrev pub print_if : Which → Tm → Text → Stat → List Text
  print_if w time path s =
      let modified = localtime s.st_mtime in
      if matches w modified time then report path s modified ∷ [] else []

-- `closes` says whether closedir(NULL) returns.
module _ (localtime : ℕ → Tm) (closes : Bool) where
  -- The three functions with one text; `w` is the value that they compare with.
  unfoldable pub search : Which → Tm → Text → Dir → Option (List Text)
  search w time path closed = do guard closes; some []
  search w time path ended = some []
  search w time path (next (entry name s inside) rest) = do
    p ← file_path path name
    let deeper = search w time p inside
    here ←
        if is_reg s.st_mode
        then some (print_if localtime w time p s)
        else if is_dir s.st_mode && not (is_dots name)
        then deeper
        else some []
    later ← search w time path rest
    some (here ++ later)

  unfoldable pub search_older : Tm → Text → Dir → Option (List Text)
  search_older time path d = search older time path d

  unfoldable pub search_newer : Tm → Text → Dir → Option (List Text)
  search_newer time path d = search newer time path d

  unfoldable pub search_date : Tm → Text → Dir → Option (List Text)
  search_date time path d = search same_date time path d

  -- `tree` is what `opendir` finds at a path, `scanned` what `sscanf` reads in the third argument.
  unfoldable pub main : (Text → Text) → (Text → Dir) → (Text → Tm) → List Text → Option (List Text)
  main realpath tree scanned (arg1 ∷ arg2 ∷ arg3 ∷ []) = do
    path ← start_path realpath arg1
    time ← start_time (scanned arg3)
    run (which_of arg2) time path (tree path)
    where
      run : Option Which → Tm → Text → Dir → Option (List Text)
      run none time path d = some []
      run (some older) time path d = search_older time path d
      run (some newer) time path d = search_newer time path d
      run (some same_date) time path d = search_date time path d
  main realpath tree scanned args = some []
