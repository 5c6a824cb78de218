-- ===== src/Permissions/Requests.antt =====
-- Which children the parent of cw04/zad2/zad2.c lets work.
use mathlib.Core.List.{append_assoc}
use mathlib.Core.Path.{subst, subst₂}
use agh_so.Prelude.{
  ℕ_discrete, ℕ, zero, suc, ◌+◌, ◌≤◌, ◌<◌, ◌≡◌, refl, ap, true, List, [], ◌∷◌, ◌++◌, Option, some,
  arith, ◌>>=◌, ltb, length, length-append, replicate, set-append, get_elem?-append,
}
use agh_so.Permissions.{Globals, start_globals, allow_bulk, store_pid, catch_usr1}

-- Requests one after the other.
unfoldable pub requests : ℕ → Globals → List ℕ → Option (Globals × List ℕ)
requests limit g [] = some (g, [])
requests limit g (pid ∷ pids) = do
  (g', allowed) ← catch_usr1 limit g pid
  (g'', later) ← requests limit g' pids
  some (g'', allowed ++ later)

-- The loop over the buffer gives the pids from its position on.
allow_bulk-prefix :
    (a b rest : List ℕ) → allow_bulk (length b) (a ++ (b ++ rest)) (length a) ≡ some b
unfolding allow_bulk
allow_bulk-prefix a [] rest = refl
allow_bulk-prefix a (x ∷ b) rest =
    let later =
      subst₂ (λ l i. allow_bulk (length b) l i ≡ some b) (append_assoc a (x ∷ []) (b ++ rest))
        (length-append a (x ∷ [])) (allow_bulk-prefix (a ++ x ∷ []) b rest) in
    rw (get_elem?-append a x (b ++ rest) (length a) refl, later)

stored :
    (limit n : ℕ) (asked rest : List ℕ) (x pid : ℕ)
    → length asked < limit
    → store_pid limit (record { n = n; k = length asked; child_buf = asked ++ x ∷ rest }) pid
      ≡ some (asked ++ pid ∷ rest)
unfolding store_pid
stored limit n asked rest x pid h =
    let fits : ltb (length asked) (length (asked ++ x ∷ rest)) ≡ true =
      ground (arith, length-append asked (x ∷ rest)) in
    rw (fits, set-append asked x pid rest (length asked) refl) (ground arith)

-- A request before the one that meets the limit is kept, and nobody is let work.
step-waits :
    (limit n : ℕ) (asked rest : List ℕ) (x pid : ℕ)
    → length asked + 1 < limit
    → catch_usr1 limit (record { n = n; k = length asked; child_buf = asked ++ x ∷ rest }) pid
      ≡ some (record { n = n; k = length asked + 1; child_buf = asked ++ pid ∷ rest }, [])
unfolding catch_usr1
step-waits limit n asked rest x pid h =
    rw (stored limit n asked rest x pid (omega arith)) (ground arith)

-- The request that meets the limit lets all work, in the order of their requests.
step-meets :
    (limit n : ℕ) (asked rest : List ℕ) (x pid : ℕ)
    → length asked + 1 ≡ limit
    → catch_usr1 limit (record { n = n; k = length asked; child_buf = asked ++ x ∷ rest }) pid
      ≡ some (
        record { n = n; k = length asked + 1; child_buf = asked ++ pid ∷ rest },
        asked ++ pid ∷ [],
      )
unfolding catch_usr1
step-meets limit n asked rest x pid h =
    let bulk =
      subst₂ (λ l i. allow_bulk i l 0 ≡ some (asked ++ pid ∷ []))
        (append_assoc asked (pid ∷ []) rest) (length-append asked (pid ∷ []))
        (allow_bulk-prefix [] (asked ++ pid ∷ []) rest) in
    rw (stored limit n asked rest x pid (omega arith), bulk) (ground arith)

-- A request after the limit lets its child work.
step-after :
    (limit : ℕ) (g : Globals) (pid : ℕ)
    → limit ≤ g.k
    → catch_usr1 limit g pid ≡ some (record g { k = g.k + 1 }, pid ∷ [])
unfolding catch_usr1 store_pid
step-after limit g pid h = ground arith

-- The children that are let work by some requests.
abbrev pub Allows : ℕ → Globals → List ℕ → List ℕ → Type 0
Allows limit g pids allowed = (g' : Globals) × (requests limit g pids ≡ some (g', allowed))

requests-after : (limit : ℕ) (pids : List ℕ) (g : Globals) → limit ≤ g.k → Allows limit g pids pids
unfolding requests
requests-after limit [] g h = (g, refl)
requests-after limit (pid ∷ pids) g h =
    let (g', later) = requests-after limit pids (record g { k = g.k + 1 }) (omega arith) in
    (g', rw (step-after limit g pid h, later))

-- Requests on a buffer in which `asked` have asked and `left` places are free.
abbrev waiting : ℕ → List ℕ → ℕ → Globals
waiting n asked left = record { n = n; k = length asked; child_buf = asked ++ replicate left 0 }

next_waiting :
    (n : ℕ) (asked : List ℕ) (left pid : ℕ)
    → waiting n (asked ++ pid ∷ []) left
      ≡ record { n = n; k = length asked + 1; child_buf = asked ++ pid ∷ replicate left 0 }
next_waiting n asked left pid = λ i. record {
  n = n;
  k = length-append asked (pid ∷ []) i;
  child_buf = append_assoc asked (pid ∷ []) (replicate left 0) i;
}

requests-waiting :
    (limit n : ℕ) (pids asked : List ℕ) (left : ℕ)
    → length pids ≤ left
    → length asked < limit
    → (length asked + length pids < limit → Allows limit (waiting n asked left) pids [])
      × (limit ≤ length asked + length pids
          → Allows limit (waiting n asked left) pids (asked ++ pids))
unfolding requests
requests-waiting limit n [] asked left fits h = ((λ lt. (_, refl)), λ ge. absurd (omega arith))
requests-waiting limit n (pid ∷ pids) asked zero fits h = absurd (omega arith)
requests-waiting limit n (pid ∷ pids) asked (suc left) fits h =
    let g1 : Globals = record {
      n = n;
      k = length asked + 1;
      child_buf = asked ++ pid ∷ replicate left 0;
    } in
    let grown : length (asked ++ pid ∷ []) ≡ length asked + 1 = length-append asked (pid ∷ []) in
    (
      λ lt.
          let (g', later) =
            (requests-waiting limit n pids (asked ++ pid ∷ []) left (omega arith)
                (omega (arith, grown))).0
              (omega (arith, grown)) in
          let later' =
            subst (λ g. requests limit g pids ≡ some (g', [])) (next_waiting n asked left pid)
              later in
          (g', rw (step-waits limit n asked (replicate left 0) 0 pid (omega arith), later')),
      λ ge. elim (ℕ_discrete (length asked + 1) limit) [
        | yes last ↦
            let (g', later) = requests-after limit pids g1 (omega arith) in
            (
              g',
              rw (step-meets limit n asked (replicate left 0) 0 pid last, later)
                  (ap (λ l. some (g', l)) (append_assoc asked (pid ∷ []) pids)),
            )
        | no more ↦
            let (g', later) =
              (requests-waiting limit n pids (asked ++ pid ∷ []) left (omega arith)
                  (omega (arith, grown))).1
                (omega (arith, grown)) in
            let later' =
              subst (λ g. requests limit g pids ≡ some (g', (asked ++ pid ∷ []) ++ pids))
                (next_waiting n asked left pid) later in
            (
              g',
              rw (step-waits limit n asked (replicate left 0) 0 pid (omega arith), later')
                  (ap (λ l. some (g', l)) (append_assoc asked (pid ∷ []) pids)),
            )
      ],
    )

-- The requests of at most N children. While fewer than K have asked nobody is let work. Once K have
-- asked, all that ask are let work, each once, in the order of their requests.
pub requests_lem :
    (children limit : ℕ) (pids : List ℕ)
    → length pids ≤ children
    → (length pids < limit → Allows limit (start_globals children) pids [])
      × (limit ≤ length pids → Allows limit (start_globals children) pids pids)
unfolding start_globals
requests_lem children zero pids fits = (
  (λ lt. absurd (omega arith)),
  λ ge. requests-after 0 pids (waiting 0 [] children) (omega arith),
)
requests_lem children (suc limit) pids fits =
    let (wait, meet) = requests-waiting (suc limit) 0 pids [] children fits (omega arith) in
    ((λ lt. wait (omega arith)), λ ge. meet (omega arith))
