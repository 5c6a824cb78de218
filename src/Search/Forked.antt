-- ===== src/Search/Forked.antt =====
-- cw03/zad1/zad1.c: the searches of cw02/zad2a/zad2a.c with a child process for each directory. The
-- child inherits what its parent has printed but not written yet.
use mathlib.Core.List.{append_assoc, append-nil}
use agh_so.Prelude.{
  ℕ, ◌≡◌, sym, ap, ◌∙◌, Bool, true, Bool-cases, inl, inr, ◌&&◌, ◌||◌, not, List, [], ◌∷◌, ◌++◌,
  Option, none, some, if◌then◌else◌, ◌>>=◌, ◌>>◌, guard,
}
use agh_so.CText.{Text}
use agh_so.Search.{
  Tm, is_reg, is_link, is_dir, Which, older, newer, same_date, start_path, start_time, which_of,
}
use agh_so.Search.Walk.{entry, Dir, closed, ended, next, is_dots, file_path, print_if}
use agh_so.Search.Walk.Listing.{files, path_of, Fits, reports, reports-append, file_path-fits}

-- What has been written, by all processes, and what the process holds in its buffer.
pub record Out : Type 0 where
  pub shown : List Text
  pub pending : List Text

-- Lines of the program. On a terminal they are written at once; on a file or a pipe they wait.
unfoldable pub emit : Bool → Out → List Text → Out
emit on_terminal out lines =
    if on_terminal
    then record out { shown = out.shown ++ lines }
    else record out { pending = out.pending ++ lines }

-- The end of a process writes its buffer.
unfoldable pub exit : Out → Out
exit out = record { shown = out.shown ++ out.pending; pending = [] }

-- `searchOlder` takes symbolic links for files too.
unfoldable pub counts : Which → ℕ → Bool
counts older mode = is_reg mode || is_link mode
counts newer mode = is_reg mode
counts same_date mode = is_reg mode

-- `closes` says whether closedir(NULL) returns.
module _ (localtime : ℕ → Tm) (closes : Bool) (on_terminal : Bool) where
  -- After `fork` the parent waits for the child, which searches the directory, returns from every
  -- call and exits.
  unfoldable pub search : Which → Tm → Text → Dir → Out → Option Out
  search w time path closed out = do guard closes; some out
  search w time path ended out = some out
  search w time path (next (entry name s inside) rest) out = do
    p ← file_path path name
    let in_child = search w time p inside out
    let forked = do child ← in_child; some (record out { shown = (exit child).shown })
    out' ←
        if counts w s.st_mode
        then some (emit on_terminal out (print_if localtime w time p s))
        else if is_dir s.st_mode && not (is_dots name)
        then forked
        else some out
    search w time path rest out'

  unfoldable pub search_older : Tm → Text → Dir → Out → Option Out
  search_older time path d out = search older time path d out

  unfoldable pub search_newer : Tm → Text → Dir → Out → Option Out
  search_newer time path d out = search newer time path d out

  unfoldable pub search_date : Tm → Text → Dir → Out → Option Out
  search_date time path d out = search same_date time path d out

  unfoldable pub main : (Text → Text) → (Text → Dir) → (Text → Tm) → List Text → Option (List Text)
  main realpath tree scanned (arg1 ∷ arg2 ∷ arg3 ∷ []) = do
    path ← start_path realpath arg1
    time ← start_time (scanned arg3)
    out ← run (which_of arg2) time path (tree path)
    some (exit out).shown
    where
      run : Option Which → Tm → Text → Dir → Option Out
      run none time path d = some (record { shown = []; pending = [] })
      run (some older) time path d = search_older time path d (record { shown = []; pending = [] })
      run (some newer) time path d = search_newer time path d (record { shown = []; pending = [] })
      run (some same_date) time path d =
          search_date time path d (record { shown = []; pending = [] })
  main realpath tree scanned args = some []

-- Where closedir(NULL) returns, the processes together write on a terminal what one walk through the
-- tree would, in its order, if no path overruns its 200 bytes.
pub search-terminal :
    (localtime : ℕ → Tm) (closes : Bool) (w : Which) (time : Tm) (path : Text) (d : Dir)
    (shown : List Text)
    → closes ≡ true
    → Fits path d
    → search localtime closes true w time path d (record { shown = shown; pending = [] })
      ≡ some (record {
        shown = shown ++ reports localtime w time (files (counts w) path d);
        pending = [];
      })
unfolding search files reports emit exit
search-terminal localtime closes w time path closed shown returns fits =
    rw returns (ap (λ l. some (record { shown = l; pending = [] })) (sym (append-nil shown)))
search-terminal localtime closes w time path ended shown returns fits =
    ap (λ l. some (record { shown = l; pending = [] })) (sym (append-nil shown))
search-terminal localtime closes w time path (next (entry name s inside) rest) shown returns
      (short, deep, later) =
    elim (Bool-cases (counts w s.st_mode)) [
      | inl regular ↦
          rw
            (
              file_path-fits path name short,
              regular,
              search-terminal localtime closes w time path rest
                  (shown ++ print_if localtime w time (path_of path name) s) returns later,
            )
            (ap (λ l. some (record { shown = l; pending = [] })) (append_assoc shown _ _))
      | inr other ↦ elim (Bool-cases (is_dir s.st_mode && not (is_dots name))) [
        | inl into ↦
            let below =
              search-terminal localtime closes w time (path_of path name) inside shown returns
                (deep into) in
            let now =
              shown ++ reports localtime w time (files (counts w) (path_of path name) inside) in
            rw (file_path-fits path name short, other, into, below)
              (ap
                  (λ l.
                    search localtime closes true w time path rest
                      (record { shown = l; pending = [] }))
                  (append-nil now)
                ∙ search-terminal localtime closes w time path rest now returns later
                ∙ ap (λ l. some (record { shown = l; pending = [] }))
                    (append_assoc shown _ _
                      ∙ ap (λ l. shown ++ l)
                          (sym (
                            reports-append localtime w time
                              (files (counts w) (path_of path name) inside)
                              (files (counts w) path rest)))))
        | inr out ↦
            rw (file_path-fits path name short, other, out)
              (search-terminal localtime closes w time path rest shown returns later)
      ]
    ]
