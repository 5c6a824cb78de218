-- ===== src/Search/Walk/Listing.antt =====
-- The searches of cw02/zad2a/zad2a.c against the list of all files of a tree.
use mathlib.Core.List.{append_assoc}
use agh_so.Prelude.{
  ℕ, ◌+◌, ◌<◌, ◌≡◌, refl, sym, ap, ◌∙◌, Bool, true, Bool-cases, inl, inr, ◌&&◌, not, List, [], ◌∷◌,
  ◌++◌, some, arith, if◌then◌else◌, length, length-append,
}
use agh_so.CText.{Text}
use agh_so.Search.{Tm, Stat, is_reg, is_dir, Which, older, newer, same_date, matches, wanted}
use agh_so.Search.Order.{cmp_tm_lem}
use agh_so.Search.Walk.{
  entry, Dir, closed, ended, next, is_dots, file_path, print_if, search, search_older, search_newer,
  search_date,
}

pub record File : Type 0 where
  pub path : Text
  pub stat : Stat

abbrev pub path_of : Text → Text → Text
path_of path name = path ++ b'/' ∷ name

-- All files below a directory, in the order of the walk: `counts` says by the mode what is a file.
unfoldable pub files : (ℕ → Bool) → Text → Dir → List File
files counts path closed = []
files counts path ended = []
files counts path (next (entry name s inside) rest) =
    let deeper = files counts (path_of path name) inside in
    let here =
      if counts s.st_mode
      then record { path = path_of path name; stat = s } ∷ []
      else if is_dir s.st_mode && not (is_dots name)
      then deeper
      else [] in
    here ++ files counts path rest

-- No path below a directory overruns its 200 bytes.
abbrev pub Fits : Text → Dir → Type 0
Fits path closed = Unit
Fits path ended = Unit
Fits path (next (entry name s inside) rest) =
    (length (path_of path name) < 200)
    × (is_dir s.st_mode && not (is_dots name) ≡ true → Fits (path_of path name) inside)
    × Fits path rest

-- The lines of the files whose date matches.
unfoldable pub reports : (ℕ → Tm) → Which → Tm → List File → List Text
reports localtime w time [] = []
reports localtime w time (f ∷ fs) =
    let later = reports localtime w time fs in print_if localtime w time f.path f.stat ++ later

pub reports-append :
    (localtime : ℕ → Tm) (w : Which) (time : Tm) (a b : List File)
    → reports localtime w time (a ++ b) ≡ reports localtime w time a ++ reports localtime w time b
unfolding reports
reports-append localtime w time [] b = refl
reports-append localtime w time (f ∷ a) b =
    ap (λ l. print_if localtime w time f.path f.stat ++ l) (reports-append localtime w time a b)
    ∙ sym (
        append_assoc (print_if localtime w time f.path f.stat) (reports localtime w time a)
          (reports localtime w time b))

pub file_path-fits :
    (path name : Text)
    → length (path_of path name) < 200
    → file_path path name ≡ some (path_of path name)
unfolding file_path
file_path-fits path name h = ground arith

-- Where closedir(NULL) returns, a walk prints the matching files of the tree, in order, and reads all of
-- it.
pub search_lem :
    (localtime : ℕ → Tm) (closes : Bool) (w : Which) (time : Tm) (path : Text) (d : Dir)
    → closes ≡ true
    → Fits path d
    → search localtime closes w time path d ≡ some (reports localtime w time (files is_reg path d))
unfolding search files reports
search_lem localtime closes w time path closed returns fits = rw returns refl
search_lem localtime closes w time path ended returns fits = refl
search_lem localtime closes w time path (next (entry name s inside) rest) returns
      (short, deep, later) =
    let tail = search_lem localtime closes w time path rest returns later in
    elim (Bool-cases (is_reg s.st_mode)) [
      | inl regular ↦ rw (file_path-fits path name short, regular, tail) refl
      | inr other ↦ elim (Bool-cases (is_dir s.st_mode && not (is_dots name))) [
        | inl into ↦
            let below =
              search_lem localtime closes w time (path_of path name) inside returns (deep into) in
            rw (file_path-fits path name short, other, into, tail, below)
              (ap some (
                sym (
                  reports-append localtime w time (files is_reg (path_of path name) inside)
                    (files is_reg path rest))))
        | inr out ↦ rw (file_path-fits path name short, other, out, tail) refl
      ]
    ]

one_of_three :
    (localtime : ℕ → Tm) (time : Tm) (f : File)
    → length (print_if localtime older time f.path f.stat)
        + length (print_if localtime newer time f.path f.stat)
        + length (print_if localtime same_date time f.path f.stat)
      ≡ 1
unfolding matches wanted
one_of_three localtime time f = elim (cmp_tm_lem (localtime f.stat.st_mtime) time) [
  | inl (is, _) ↦ rw is refl
  | inr (inl (is, _)) ↦ rw is refl
  | inr (inr (is, _)) ↦ rw is refl
]

-- Each file is printed by exactly one of the three searches: together they print as many lines as
-- there are files.
pub reports-split :
    (localtime : ℕ → Tm) (time : Tm) (fs : List File)
    → length (reports localtime older time fs)
        + length (reports localtime newer time fs)
        + length (reports localtime same_date time fs)
      ≡ length fs
unfolding reports
reports-split localtime time [] = refl
reports-split localtime time (f ∷ fs) = omega (
  arith,
  one_of_three localtime time f,
  reports-split localtime time fs,
  length-append (print_if localtime older time f.path f.stat) (reports localtime older time fs),
  length-append (print_if localtime newer time f.path f.stat) (reports localtime newer time fs),
  length-append (print_if localtime same_date time f.path f.stat)
      (reports localtime same_date time fs),
)

-- `searchOlder`, `searchNewer` and `searchDate` of a tree with one date, where closedir(NULL) returns: each prints the files that
-- are older, newer or of that date, and together they print every file of the tree once.
pub searches_lem :
    (localtime : ℕ → Tm) (closes : Bool) (time : Tm) (path : Text) (d : Dir)
    → closes ≡ true
    → Fits path d
    → (olders newers sames : List Text) × (search_older localtime closes time path d ≡ some olders)
      × (search_newer localtime closes time path d ≡ some newers)
      × (search_date localtime closes time path d ≡ some sames)
      × (length olders + length newers + length sames ≡ length (files is_reg path d))
unfolding search_older search_newer search_date
searches_lem localtime closes time path d returns fits = (
  reports localtime older time (files is_reg path d),
  reports localtime newer time (files is_reg path d),
  reports localtime same_date time (files is_reg path d),
  search_lem localtime closes older time path d returns fits,
  search_lem localtime closes newer time path d returns fits,
  search_lem localtime closes same_date time path d returns fits,
  reports-split localtime time (files is_reg path d),
)
