-- ===== src/Search/Tests.antt =====
-- Searches through a small tree.
use agh_so.Prelude.{ℕ, ◌≡◌, refl, false, none, true, List, [], ◌∷◌, ◌++◌, some, arith}
use agh_so.Prelude.Int.{pos, ◌-ℤ◌}
use agh_so.CText.{Text, codes, int_of}
use agh_so.Search.{Tm, Stat, perm_text, is_reg, older, newer, start_path, start_time}
use agh_so.Search.Walk.{
  Entry, entry, Dir, closed, ended, next, is_dots, search_older, search_newer, search_date,
}
use agh_so.Search.Walk.Listing.{files, Fits, reports}
use agh_so.Search.Walk.Dates.{IsListing, dates_lem}
use agh_so.Search.Visits.{
  Visit, ftw_f, ftw_sl, ftw_other, callback, nftw, plain_files, nftw-callback,
}
use agh_so.Search.Forked.{Out, counts, search-terminal}
use agh_so.Search.Walk
use agh_so.Search.Forked

-- A day is a unit of time here.
abbrev days : ℕ → Tm
days t = record { tm_year = pos 117; tm_mon = pos 2; tm_mday = pos t }

abbrev plain : ℕ → Stat
plain t = record { st_mode = 33188; st_size = 10; st_mtime = t }

abbrev folder : Stat
folder = record { st_mode = 16877; st_size = 4096; st_mtime = 1 }

abbrev tree : Dir
tree = next (entry (codes ".") folder closed) (
    next (entry (codes "a") (plain 3) closed)
      (next (entry (codes "d") folder (next (entry (codes "b") (plain 9) closed) ended)) ended))

dot_stays : is_dots (codes ".") ≡ true
unfolding is_dots
dot_stays = refl

closedir_fails : Walk.search days false older (days 5) (codes "/t") closed ≡ none
unfolding Walk.search
closedir_fails = refl

tree-Fits : Fits (codes "/t") tree
tree-Fits = (
  omega arith,
  (λ e. tt),
  (omega arith, (λ e. tt), (omega arith, (λ e. (omega arith, (λ e'. tt), tt)), tt)),
)

prints_644 : perm_text 33188 ≡ codes "rw-r--r--"
unfolding perm_text
prints_644 = refl

abbrev visits : List Visit
visits =
    record { path = codes "/t/l"; stat = plain 1; flag = ftw_sl }
    ∷ record { path = codes "/t/a"; stat = plain 3; flag = ftw_f }
    ∷ record { path = codes "/t"; stat = folder; flag = ftw_other }
    ∷ []

nftw-callback_example :
    nftw (callback days older (days 5)) visits
    ≡ (reports days older (days 5) (plain_files visits), 0)
nftw-callback_example = nftw-callback days older (days 5) visits

search-terminal_example :
    Forked.search days true true older
      (days 5)
      (codes "/t")
      tree
      (record { shown = []; pending = [] })
    ≡ some (record {
      shown = [] ++ reports days older (days 5) (files (counts older) (codes "/t") tree);
      pending = [];
    })
search-terminal_example =
    search-terminal days true older (days 5) (codes "/t") tree [] refl tree-Fits

start_at_t : start_path (λ p. p) (codes "/t") ≡ some (codes "/t")
unfolding start_path
start_at_t = refl

-- `sscanf` reads 5/3/2017.
abbrev scanned : Tm
scanned = record { tm_year = pos 2017; tm_mon = pos 3; tm_mday = pos 5 }

at_days_5 : start_time scanned ≡ some (days 5)
unfolding start_time int_of ◌-ℤ◌
at_days_5 = refl

dates_lem_example :
    (lines : List Text) × (Walk.main days true
        (λ p. p)
        (λ p. tree)
        (λ t. scanned)
        (codes "/t" ∷ codes ">" ∷ codes "5/3/2017" ∷ [])
      ≡ some lines)
    × IsListing days newer (days 5) (files is_reg (codes "/t") tree) lines
dates_lem_example =
    dates_lem days true (λ p. p) (λ p. tree) (λ t. scanned) newer (codes "/t") [] (codes "5/3/2017")
      (codes "/t") (days 5) refl start_at_t at_days_5 tree-Fits
