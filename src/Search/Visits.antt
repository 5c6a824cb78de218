-- ===== src/Search/Visits.antt =====
-- cw02/zad2b/zad2b.c: the searches as callbacks of `nftw`, which calls them for every object below a
-- directory until one does not return 0.
use agh_so.Prelude.{
  ℕ, ◌≡◌, refl, Bool-cases, ◌⊎◌, inl, inr, List, [], ◌∷◌, ◌++◌, Option, none, some, ◌==◌,
  if◌then◌else◌, ◌>>=◌,
}
use agh_so.CText.{Text}
use agh_so.Search.{
  Tm, Stat, report, Which, older, newer, same_date, matches, start_path, start_time, which_of,
}
use agh_so.Search.Walk.Listing.{File, reports}

-- `fileflags`: FTW_F, FTW_SL and the others.
pub data Flag : Type 0 where
  ftw_f ftw_sl ftw_other : Flag

-- One call: the path, the `struct stat` and the flag.
pub record Visit : Type 0 where
  pub path : Text
  pub stat : Stat
  pub flag : Flag

module _ (localtime : ℕ → Tm) where
  -- What a callback prints, and what it returns. `w` is the value that it compares with.
  unfoldable pub callback : Which → Tm → Visit → List Text × ℕ
  callback w date v = on_flag v.flag
    where
      on_flag : Flag → List Text × ℕ
      on_flag ftw_sl = ([], 0)
      on_flag ftw_other = ([], 0)
      on_flag ftw_f =
          let modified = localtime v.stat.st_mtime in
          if matches w modified date then (report v.path v.stat modified ∷ [], 0) else ([], 0)

  unfoldable pub search_older : Tm → Visit → List Text × ℕ
  search_older date v = callback older date v

  unfoldable pub search_newer : Tm → Visit → List Text × ℕ
  search_newer date v = callback newer date v

  unfoldable pub search_date : Tm → Visit → List Text × ℕ
  search_date date v = callback same_date date v

-- `nftw` over the objects that it finds.
unfoldable pub nftw : (Visit → List Text × ℕ) → List Visit → List Text × ℕ
nftw fn [] = ([], 0)
nftw fn (v ∷ vs) =
    let (printed, result) = fn v in
    let (later, last) = nftw fn vs in
    if result == 0 then (printed ++ later, last) else (printed, result)

-- `objects` is what `nftw` finds below a path, `scanned` what `sscanf` reads in the third argument.
unfoldable pub main :
    (ℕ → Tm) → (Text → Text) → (Text → List Visit) → (Text → Tm) → List Text → Option (List Text)
main localtime realpath objects scanned (arg1 ∷ arg2 ∷ arg3 ∷ []) = do
  path ← start_path realpath arg1
  date ← start_time (scanned arg3)
  some (run (which_of arg2) date (objects path))
  where
    run : Option Which → Tm → List Visit → List Text
    run none date objects = []
    run (some older) date objects = (nftw (search_older localtime date) objects).0
    run (some newer) date objects = (nftw (search_newer localtime date) objects).0
    run (some same_date) date objects = (nftw (search_date localtime date) objects).0
main localtime realpath objects scanned args = some []

-- The objects with the flag FTW_F.
abbrev pub plain_files : List Visit → List File
plain_files [] = []
plain_files (v ∷ vs) = keep v.flag (plain_files vs)
  where
    keep : Flag → List File → List File
    keep ftw_f later = record { path = v.path; stat = v.stat } ∷ later
    keep ftw_sl later = later
    keep ftw_other later = later

flag_cases : (f : Flag) → (f ≡ ftw_f) ⊎ (f ≡ ftw_sl) ⊎ (f ≡ ftw_other)
flag_cases ftw_f = inl refl
flag_cases ftw_sl = inr (inl refl)
flag_cases ftw_other = inr (inr refl)

-- `nftw` with a callback goes through all objects and prints the matching ones that are files.
pub nftw-callback :
    (localtime : ℕ → Tm) (w : Which) (date : Tm) (vs : List Visit)
    → nftw (callback localtime w date) vs ≡ (reports localtime w date (plain_files vs), 0)
unfolding nftw callback reports
nftw-callback localtime w date [] = refl
nftw-callback localtime w date (v ∷ vs) = elim (flag_cases v.flag) [
  | inl f ↦ elim (Bool-cases (matches w (localtime v.stat.st_mtime) date)) [
    | inl is_printed ↦ rw (f, is_printed, nftw-callback localtime w date vs) refl
    | inr not_printed ↦ rw (f, not_printed, nftw-callback localtime w date vs) refl
  ]
  | inr (inl sl) ↦ rw (sl, nftw-callback localtime w date vs) refl
  | inr (inr other) ↦ rw (other, nftw-callback localtime w date vs) refl
]
