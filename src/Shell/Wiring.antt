-- ===== src/Shell/Wiring.antt =====
-- How cw05/zad1/zad1.c connects the processes of a line.
use mathlib.Core.Path.{subst}
use mathlib.Core.Option
use agh_so.Prelude.{
  ◌<◌, lt→ltb, not, true, false, Bool, Bool-cases, inl, inr, ℕ, zero, suc, ◌+◌, ◌-◌, ◌≡◌, refl, ap,
  ◌∙◌, List, [], ◌∷◌, ◌++◌, Option, none, some, arith, ◌==◌, if◌then◌else◌, length, get_elem?,
}
use agh_so.CText.{Text}
use agh_so.Shell.Pipes.{
  End, Child, Parent, names_any, older_ends, opened, make_pipe, forked, fork, fork_all, new_parent,
  pipeline, slot,
}

-- The process for `j` of `i`: it reads from the pipe before its own, unless it is the first, and
-- writes to its own, unless it is the last.
abbrev pub wired : ℕ → ℕ → List Text → Child
wired i j argv =
    let own = if j + 1 == i then End.reading j ∷ End.writing j ∷ [] else End.writing j ∷ [] in
    record {
      argv = argv;
      stdin = if j == 0 then none else some (j - 1);
      stdout = if j + 1 == i then none else some j;
      ends = if j == 0 then own else own ++ End.reading (j - 1) ∷ [];
    }

abbrev pub all_wired : ℕ → ℕ → List (List Text) → List Child
all_wired i j [] = []
all_wired i j (c ∷ cs) = wired i j c ∷ all_wired i (j + 1) cs

-- The parent when the pipe for `j` has been made: it has this pipe and the one before it.
record IsAt (j : ℕ) (p : Parent) : Type 0 where
  own : slot p j ≡ some j
  last : slot p (j + 1) ≡ (if j == 0 then none else some (j - 1))
  open_ends :
      p.ends
      ≡ End.reading j
        ∷ End.writing j
        ∷ (if j == 0 then [] else End.reading (j - 1) ∷ End.writing (j - 1) ∷ [])

opened-first : IsAt 0 (opened 0 new_parent)
unfolding opened
opened-first = record { own = refl; last = refl; open_ends = refl }

opened-next : (j : ℕ) (p : Parent) → IsAt j p → IsAt (j + 1) (opened (j + 1) p)
unfolding opened
opened-next j p v = record {
  own = ground arith;
  last = ground (arith, v.own);
  open_ends = ground (arith, v.last, v.open_ends);
}

forked_lem :
    (i j : ℕ) (argv : List Text) (p : Parent) → IsAt j p → forked i j argv p ≡ wired i j argv
unfolding forked
forked_lem i j argv p v = ground (arith, v.own, v.last, v.open_ends)

-- Commands with a word at least.
abbrev pub HaveWords : List (List Text) → Type 0
HaveWords [] = Unit
HaveWords (c ∷ cs) = (0 < length c) × HaveWords cs

fork_lem :
    (i j : ℕ) (argv : List Text) (p : Parent)
    → IsAt j p
    → 0 < length argv
    → fork i j argv p ≡ some (wired i j argv)
unfolding fork
fork_lem i j argv p v word = rw (lt→ltb 0 (length argv) word) (ap some (forked_lem i j argv p v))

module _ (names : End → Bool) (nothing : (e : End) → names e ≡ false) where
  none_named : (es : List End) → names_any names es ≡ false
  none_named [] = refl
  none_named (e ∷ es) = rw (nothing e) (none_named es)

  make_pipe_lem : (j : ℕ) (p : Parent) → make_pipe names j p ≡ some (opened j p)
  unfolding make_pipe
  make_pipe_lem j p =
      let no_harm : (if j == 1 then not (names_any names (older_ends ++ p.ends)) else true) ≡ true =
        elim (Bool-cases (j == 1)) [
          | inl same ↦ rw same (ap not (none_named (older_ends ++ p.ends)))
          | inr other ↦ rw other refl
        ] in
      rw no_harm refl

  fork_all-cons :
      (i j : ℕ) (c : List Text) (cs : List (List Text)) (p : Parent) (later : List Child)
      (last : Parent)
      → IsAt j (opened j p)
      → 0 < length c
      → fork_all names i (j + 1) cs (opened j p) ≡ some (later, last)
      → fork_all names i j (c ∷ cs) p ≡ some (wired i j c ∷ later, last)
  unfolding fork_all
  fork_all-cons i j c cs p later last v word run =
      rw (make_pipe_lem j p, fork_lem i j c (opened j p) v word, run) refl

  fork_all_lem :
      (i j : ℕ) (cs : List (List Text)) (p : Parent)
      → IsAt j p
      → HaveWords cs
      → (last : Parent) × (fork_all names i (j + 1) cs p ≡ some (all_wired i (j + 1) cs, last))
        × IsAt (j + length cs) last
  fork_all_lem i j [] p v words =
      (p, unfold fork_all in refl, subst (λ n. IsAt n p) (omega arith) v)
  fork_all_lem i j (c ∷ cs) p v (word, words) =
      let v' = opened-next j p v in
      let (last, run, end) = fork_all_lem i (j + 1) cs (opened (j + 1) p) v' words in
      (
        last,
        fork_all-cons i (j + 1) c cs p (all_wired i (j + 1 + 1) cs) last v' word run,
        subst (λ n. IsAt n last) (omega arith) end,
      )

  fork_all-new :
      (c : List Text) (cs : List (List Text))
      → HaveWords (c ∷ cs)
      → (last : Parent) × (fork_all names (length (c ∷ cs)) 0 (c ∷ cs) new_parent
          ≡ some (all_wired (length (c ∷ cs)) 0 (c ∷ cs), last))
        × IsAt (length cs) last
  fork_all-new c cs (word, words) =
      let i = length (c ∷ cs) in
      let (last, run, end) = fork_all_lem i 0 cs (opened 0 new_parent) opened-first words in
      (
        last,
        fork_all-cons i 0 c cs new_parent (all_wired i 1 cs) last opened-first word run,
        subst (λ n. IsAt n last) (omega arith) end,
      )

  -- The processes of a line, with no pipe open in the parent.
  pub pipeline-wired :
      (cs : List (List Text))
      → HaveWords cs
      → pipeline names cs ≡ some (all_wired (length cs) 0 cs, [])
  unfolding pipeline
  pipeline-wired [] words = unfold fork_all in refl
  pipeline-wired (c ∷ cs) words =
      let (last, run, end) = fork_all-new c cs words in
      rw run (
        ap (λ (es : List End). some (all_wired (length (c ∷ cs)) 0 (c ∷ cs), es))
          (ground (arith, end.own, end.last, end.open_ends)))

get_elem?-all_wired :
    (i j : ℕ) (cs : List (List Text)) (k : ℕ)
    → get_elem? (all_wired i j cs) k ≡ Option.map (wired i (j + k)) (get_elem? cs k)
get_elem?-all_wired i j [] k = refl
get_elem?-all_wired i j (c ∷ cs) zero = ap (λ n. some (wired i n c)) (omega arith)
get_elem?-all_wired i j (c ∷ cs) (suc k) =
    get_elem?-all_wired i (j + 1) cs k
    ∙ ap (λ n. Option.map (wired i n) (get_elem? cs k)) (omega arith)

-- If the numbers that `pipes[1]` holds uninitialised name nothing that is open, and each command has a
-- word: the processes of a line are one for each command, in order; each reads from the pipe that the one
-- before it writes to, the first from the standard input, and the last writes to the standard output.
-- When the parent waits it has no pipe open.
pub pipeline_lem :
    (names : End → Bool) (cs : List (List Text)) (j : ℕ) (c : List Text)
    → ((e : End) → names e ≡ false)
    → HaveWords cs
    → get_elem? cs j ≡ some c
    → (children : List Child) × (child : Child) × (pipeline names cs ≡ some (children, []))
      × (get_elem? children j ≡ some child)
      × (child.argv ≡ c)
      × (child.stdin ≡ (if j == 0 then none else some (j - 1)))
      × (child.stdout ≡ (if j + 1 == length cs then none else some j))
pipeline_lem names cs j c nothing words e = (
  all_wired (length cs) 0 cs,
  wired (length cs) j c,
  pipeline-wired names nothing cs words,
  get_elem?-all_wired (length cs) 0 cs j
      ∙ (rw e (ap (λ n. some (wired (length cs) n c)) (omega arith))),
  refl,
  refl,
  refl,
)
