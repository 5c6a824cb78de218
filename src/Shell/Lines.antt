-- ===== src/Shell/Lines.antt =====
-- How cw05/zad1/zad1.c and cw03/zad3a/zad3a.c run the lines of a file.
use mathlib.Core.List.{append_assoc, append-nil}
use agh_so.Prelude.{
  false, true, ℕ, ◌+◌, ◌*◌, ◌^◌, ◌<◌, ◌≤◌, ◌≡◌, ◌≢◌, refl, sym, ap, ◌⊎◌, true, false, inl, inr,
  List, [], ◌∷◌, ◌++◌, map, Option, some, arith, leb, lt→ltb, ◌==◌, ℕ_discrete, if◌then◌else◌,
  ◌>>=◌, length, length-append,
}
use agh_so.Prelude.Int.{pos}
use agh_so.CText.{Text, print_int, int_of, int_max}
use agh_so.CText.Decimal.{string_to_int-print_int}
use agh_so.Shell.{simple_row, Limited, limited, run_limited}
use agh_so.Shell.Pipes.{Child, alone}
use agh_so.Shell.Wiring.{HaveWords, all_wired}
use agh_so.Shell.Words.{AreWords, line_of, words-line_of}
use agh_so.Shell.Commands.{segments, trim, AtMost, row_of, row_of-append, arguments-row_of}

module _ {C : Type 0} (status : C → ℕ) where
  abbrev pub AllEnd0 : List C → Type 0
  AllEnd0 [] = Unit
  AllEnd0 (c ∷ cs) = (status c ≡ 0) × AllEnd0 cs

  -- All of some jobs are run and end with 0, and the program too; or they are run up to the first
  -- that ends with another status, and the program ends with 1.
  abbrev pub IsRunOf : List C → Option (List C × ℕ) → Type 0
  IsRunOf jobs result =
      (AllEnd0 jobs × (result ≡ some (jobs, 0)))
      ⊎ ((before : List C) × (failed : C) × (after : List C) × (jobs ≡ before ++ failed ∷ after)
          × AllEnd0 before
          × (status failed ≢ 0)
          × (result ≡ some (before ++ failed ∷ [], 1)))

  IsRunOf-first :
      (job : C) (jobs : List C) (result : Option (List C × ℕ))
      → IsRunOf jobs result
      → IsRunOf (job ∷ jobs) (
          if status job == 0
          then (do (ran, code) ← result; some (job ∷ ran, code))
          else some (job ∷ [], 1))
  IsRunOf-first job jobs result later = elim (ℕ_discrete (status job) 0) [
    | yes ok ↦
        let test : (status job == 0) ≡ true = ground arith in
        elim later [
          | inl (all, e) ↦ inl ((ok, all), rw (test, e) refl)
          | inr (before, failed, after, e, all, ne, e') ↦
              inr (
                job ∷ before,
                failed,
                after,
                ap (λ l. job ∷ l) e,
                (ok, all),
                ne,
                rw (test, e') refl,
              )
        ]
    | no ne ↦
        let test : (status job == 0) ≡ false = ground arith in
        inr ([], job, jobs, refl, tt, ne, rw test refl)
  ]

-- The processes of some commands.
abbrev pub processes_of : List (List Text) → List Child
processes_of [] = []
processes_of (c ∷ []) = alone c ∷ []
processes_of (c ∷ d ∷ cs) = all_wired (length (c ∷ d ∷ cs)) 0 (c ∷ d ∷ cs)

-- Lines that cw05/zad1/zad1.c runs: at most ten commands, each of one to nine words.
abbrev pub AreLines : List (List Text) → Type 0
AreLines [] = Unit
AreLines (ts ∷ tss) =
    AreWords ts
    × AtMost 9 (trim (segments ts))
    × HaveWords (trim (segments ts))
    × (length (trim (segments ts)) ≤ 10)
    × AreLines tss

-- The processes of the lines that have commands.
abbrev pub jobs_of : List (List Text) → List (List Child)
jobs_of [] = []
jobs_of (ts ∷ tss) =
    if length (trim (segments ts)) == 0
    then jobs_of tss
    else processes_of (trim (segments ts)) ∷ jobs_of tss

simple_row_lem :
    (ts done : List Text)
    → length done + length ts ≤ 10
    → simple_row ts (length done) (row_of done) ≡ some (row_of (done ++ ts))
unfolding simple_row
simple_row_lem [] done h = ap (λ l. some (row_of l)) (sym (append-nil done))
simple_row_lem (t ∷ ts) done h =
    let next = length-append done (t ∷ []) in
    let room = lt→ltb (length done) 10 (omega arith) in
    rw
      (
        room,
        row_of-append done t (omega arith),
        sym next,
        simple_row_lem ts (done ++ t ∷ []) (omega (arith, next)),
      )
      (ap (λ l. some (row_of l)) (append_assoc done (t ∷ []) ts))

limited_lem :
    (cpu memory : ℕ) (argv : List Text)
    → cpu ≤ int_max
    → memory < 2048
    → 0 < length argv
    → limited (print_int (pos cpu)) (print_int (pos memory)) argv
      ≡ some (record { argv = argv; cpu = cpu; memory = memory * 2 ^ 20 })
unfolding limited int_of
limited_lem cpu memory argv small small' word =
    let fits : leb (memory * 2 ^ 20) int_max ≡ true = ground arith in
    rw
      (
        string_to_int-print_int cpu small,
        string_to_int-print_int memory (omega arith),
        fits,
        lt→ltb 0 (length argv) word,
      )
      refl

abbrev pub AreSimpleLines : List (List Text) → Type 0
AreSimpleLines [] = Unit
AreSimpleLines (ts ∷ tss) = AreWords ts × (0 < length ts) × (length ts ≤ 9) × AreSimpleLines tss

-- Each line of one to nine words is run with the limits that the program is given, of which that of
-- memory is counted in megabytes and is below 2048, up to the first that ends with another status
-- than 0; `main` then returns 1, and 0 if no line does.
pub run_limited_lem :
    (status : Limited → ℕ) (cpu memory : ℕ) (tss : List (List Text))
    → cpu ≤ int_max
    → memory < 2048
    → AreSimpleLines tss
    → IsRunOf status
        (map (λ argv. record { argv = argv; cpu = cpu; memory = memory * 2 ^ 20 }) tss)
        (run_limited status (print_int (pos cpu)) (print_int (pos memory)) (map line_of tss))
unfolding run_limited
run_limited_lem status cpu memory [] small small' valid = inl (tt, refl)
run_limited_lem status cpu memory (ts ∷ tss) small small' (solid, word, short, valid) =
    let limit : List Text → Limited =
      λ argv. record { argv = argv; cpu = cpu; memory = memory * 2 ^ 20 } in
    rw
      (
        words-line_of ts solid,
        simple_row_lem ts [] (omega (arith, short)),
        arguments-row_of ts short,
        limited_lem cpu memory ts small small' word,
      )
      (IsRunOf-first status (limit ts) (map limit tss)
        (run_limited status (print_int (pos cpu)) (print_int (pos memory)) (map line_of tss))
        (run_limited_lem status cpu memory tss small small' valid))
