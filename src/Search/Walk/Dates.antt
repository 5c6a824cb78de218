-- ===== src/Search/Walk/Dates.antt =====
-- What each of the searches of cw02/zad2a/zad2a.c prints: the files on the right side of a date.
use agh_so.Prelude.{Bool, ℕ, ◌≡◌, refl, ◌⊎◌, inl, inr, true, false, List, [], ◌∷◌, some}
use agh_so.Prelude.Int.{ℤ, negsuc, pos}
use agh_so.CText.{Text}
use agh_so.Search.{
  Tm, is_reg, report, Which, older, newer, same_date, wanted, matches, start_path, start_time,
  which_of,
}
use agh_so.Search.Order.{Before, cmp_tm_lem, cmp_tm-Before, cmp_tm-After, cmp_tm-eq}
use agh_so.Search.Walk.{Dir, search_older, search_newer, search_date, main}
use agh_so.Search.Walk.Listing.{File, files, Fits, reports, search_lem}

-- The dates that a search is for.
abbrev pub IsWanted : Which → Tm → Tm → Type 0
IsWanted older modified time = Before modified time
IsWanted newer modified time = Before time modified
IsWanted same_date modified time = modified ≡ time

abbrev pub sign_of : Which → ℕ
sign_of older = b'<'
sign_of newer = b'>'
sign_of same_date = b'='

-- Lines for those of some files that are wanted, and no others, in order.
pub data IsListing (localtime : ℕ → Tm) (w : Which) (time : Tm)
    : List File → List Text → Type 0 where
  ended : IsListing localtime w time [] []
  printed :
      (f : File) {fs : List File} {lines : List Text}
      → IsWanted w (localtime f.stat.st_mtime) time
      → IsListing localtime w time fs lines
      → IsListing localtime w time
          (f ∷ fs)
          (report f.path f.stat (localtime f.stat.st_mtime) ∷ lines)
  left_out :
      (f : File) {fs : List File} {lines : List Text}
      → (IsWanted w (localtime f.stat.st_mtime) time → ⊥)
      → IsListing localtime w time fs lines
      → IsListing localtime w time (f ∷ fs) lines

-- What `cmpTM` returns is one number.
one_result : {z : ℤ} → (z ≡ negsuc 0) → (z ≡ pos 1) → ⊥
one_result h k = cc

one_result_0 : {z : ℤ} → (z ≡ negsuc 0) → (z ≡ pos 0) → ⊥
one_result_0 h k = cc

one_result_1 : {z : ℤ} → (z ≡ pos 1) → (z ≡ pos 0) → ⊥
one_result_1 h k = cc

-- Whether a file is printed, and whether it is wanted.
matches_cases :
    (w : Which) (a b : Tm)
    → ((matches w a b ≡ true) × IsWanted w a b) ⊎ ((matches w a b ≡ false) × (IsWanted w a b → ⊥))
unfolding matches wanted
matches_cases older a b = elim (cmp_tm_lem a b) [
  | inl (is, before) ↦ inl (rw is refl, before)
  | inr (inl (is, after)) ↦ inr (rw is refl, λ h. one_result (cmp_tm-Before a b h) is)
  | inr (inr (is, same)) ↦ inr (rw is refl, λ h. one_result_0 (cmp_tm-Before a b h) is)
]
matches_cases newer a b = elim (cmp_tm_lem a b) [
  | inl (is, before) ↦ inr (rw is refl, λ h. one_result is (cmp_tm-After a b h))
  | inr (inl (is, after)) ↦ inl (rw is refl, after)
  | inr (inr (is, same)) ↦ inr (rw is refl, λ h. one_result_1 (cmp_tm-After a b h) is)
]
matches_cases same_date a b = elim (cmp_tm_lem a b) [
  | inl (is, before) ↦ inr (rw is refl, λ h. one_result_0 is (cmp_tm-eq a b h))
  | inr (inl (is, after)) ↦ inr (rw is refl, λ h. one_result_1 is (cmp_tm-eq a b h))
  | inr (inr (is, same)) ↦ inl (rw is refl, same)
]

reports-IsListing :
    (localtime : ℕ → Tm) (w : Which) (time : Tm) (fs : List File)
    → IsListing localtime w time fs (reports localtime w time fs)
unfolding reports
reports-IsListing localtime w time [] = IsListing.ended
reports-IsListing localtime w time (f ∷ fs) =
    elim (matches_cases w (localtime f.stat.st_mtime) time) [
      | inl (test, is) ↦ rw test (IsListing.printed f is (reports-IsListing localtime w time fs))
      | inr (test, is_not) ↦
          rw test (IsListing.left_out f is_not (reports-IsListing localtime w time fs))
    ]

-- Where closedir(NULL) returns, with `<`, `>` or `=` main prints, of all files below the directory in the order of the walk, a line for
-- each that was changed before the date, after it or on it, and for no other, if no path overruns its
-- 200 bytes.
pub dates_lem :
    (localtime : ℕ → Tm) (closes : Bool) (realpath : Text → Text) (tree : Text → Dir)
    (scanned : Text → Tm) (w : Which) (arg1 more arg3 path : Text) (time : Tm)
    → closes ≡ true
    → start_path realpath arg1 ≡ some path
    → start_time (scanned arg3) ≡ some time
    → Fits path (tree path)
    → (lines : List Text) × (main localtime closes realpath tree scanned
          (arg1 ∷ (sign_of w ∷ more) ∷ arg3 ∷ [])
        ≡ some lines)
      × IsListing localtime w time (files is_reg path (tree path)) lines
unfolding main search_older search_newer search_date which_of
dates_lem localtime closes realpath tree scanned older arg1 more arg3 path time returns at_path
      at_time fits =
    (
      reports localtime older time (files is_reg path (tree path)),
      rw (at_path, at_time) (search_lem localtime closes older time path (tree path) returns fits),
      reports-IsListing localtime older time (files is_reg path (tree path)),
    )
dates_lem localtime closes realpath tree scanned newer arg1 more arg3 path time returns at_path
      at_time fits =
    (
      reports localtime newer time (files is_reg path (tree path)),
      rw (at_path, at_time) (search_lem localtime closes newer time path (tree path) returns fits),
      reports-IsListing localtime newer time (files is_reg path (tree path)),
    )
dates_lem localtime closes realpath tree scanned same_date arg1 more arg3 path time returns at_path
      at_time fits =
    (
      reports localtime same_date time (files is_reg path (tree path)),
      rw (at_path, at_time)
          (search_lem localtime closes same_date time path (tree path) returns fits),
      reports-IsListing localtime same_date time (files is_reg path (tree path)),
    )
