-- ===== src/Shell/Tests.antt =====
-- Lines of commands on small inputs, and the theorems at them.
use mathlib.Core.List.{cons≢nil}
use agh_so.Prelude.{
  Bool, false, ℕ, ◌*◌, ◌^◌, ◌≡◌, refl, false, List, [], ◌∷◌, map, none, some, arith, ◌==◌,
  if◌then◌else◌, length, get_elem?,
}
use agh_so.Prelude.Int.{pos}
use agh_so.CText.{Text, codes, print_int, strtok, cut_token}
use agh_so.Shell.{
  children, commands, words, words_from, fill_rows, fill_row, all_arguments, arguments, run_limited,
}
use agh_so.Shell.Pipes.{End, Child, same_end, pipeline, fork_all, fork, forked, make_pipe, opened}
use agh_so.Shell.Words.{AreWords, line_of}
use agh_so.Shell.Commands.{commands_lem}
use agh_so.Shell.Wiring.{HaveWords, pipeline_lem}
use agh_so.Shell.Lines.{IsRunOf, run_limited_lem}

abbrev ls : Text
ls = codes "ls"

abbrev wc : Text
wc = codes "wc"

abbrev bar : Text
bar = codes "|"

abbrev three : List (List Text)
three = (ls ∷ []) ∷ (wc ∷ []) ∷ (wc ∷ ls ∷ []) ∷ []

reads_pipe : commands (codes "ls  wc | wc |\n") ≡ some ((ls ∷ wc ∷ []) ∷ (wc ∷ []) ∷ [])
unfolding commands words words_from strtok fill_rows fill_row all_arguments arguments cut_token
reads_pipe = refl

-- With ten words a row has no NULL at its end.
ten_words : commands (codes "a a a a a a a a a a\n") ≡ none
unfolding commands words words_from strtok fill_rows fill_row all_arguments arguments cut_token
ten_words = refl

ls_then_wc : AreWords (ls ∷ bar ∷ wc ∷ [])
ls_then_wc =
    (cons≢nil, (refl, (refl, tt)), (cons≢nil, (refl, tt), (cons≢nil, (refl, (refl, tt)), tt)))

commands_lem_example : commands (line_of (ls ∷ bar ∷ wc ∷ [])) ≡ some ((ls ∷ []) ∷ (wc ∷ []) ∷ [])
commands_lem_example =
    commands_lem (ls ∷ bar ∷ wc ∷ []) ls_then_wc (omega arith, (omega arith, tt)) (omega arith)

-- The uninitialised numbers name nothing.
abbrev nothing : End → Bool
nothing e = false

three-HaveWords : HaveWords three
three-HaveWords = (omega arith, (omega arith, (omega arith, tt)))

pipeline_lem_example :
    (children : List Child) × (child : Child) × (pipeline nothing three ≡ some (children, []))
    × (get_elem? children 1 ≡ some child)
    × (child.argv ≡ wc ∷ [])
    × (child.stdin ≡ some 0)
    × (child.stdout ≡ some 1)
pipeline_lem_example = pipeline_lem nothing three 1 (wc ∷ []) (λ e. refl) three-HaveWords refl

-- One of the numbers names the standard input.
closes_input : pipeline (λ e. same_end e (End.older 0)) three ≡ none
unfolding pipeline fork_all make_pipe opened fork forked
closes_input = refl

-- A command without words.
no_words : children nothing ([] ∷ (wc ∷ []) ∷ []) ≡ none
unfolding children pipeline fork_all make_pipe opened fork forked
no_words = refl

-- The last process of a line that starts with `wc` fails.
abbrev wc_fails : List Child → ℕ
wc_fails [] = 0
wc_fails (c ∷ cs) = if length c.argv == 1 then 0 else 256

run_limited_lem_example :
    IsRunOf
      (λ c. c.cpu)
      (map (λ argv. record { argv = argv; cpu = 10; memory = 100 * 2 ^ 20 }) ((ls ∷ []) ∷ []))
      (run_limited
        (λ c. c.cpu)
        (print_int (pos 10))
        (print_int (pos 100))
        (map line_of ((ls ∷ []) ∷ [])))
run_limited_lem_example =
    run_limited_lem (λ c. c.cpu) 10 100 ((ls ∷ []) ∷ []) (omega arith) (omega arith)
      ((cons≢nil, (refl, (refl, tt)), tt), omega arith, omega arith, tt)
