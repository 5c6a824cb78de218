-- ===== src/Permissions.antt =====
-- cw04/zad2/zad2.c: the parent lets its children work once K of N have asked. Its handlers of
-- SIGUSR1 and of the real time signals run one after the other, and each is a step on the globals.
-- `none` is a write behind `childBuf`.
pub mod Requests
pub mod Family
pub mod Turns
pub mod Exclusive
pub mod Sums
pub mod Counts
pub mod Work
mod Tests
use agh_so.Prelude.{
  ℕ, zero, suc, ◌+◌, Bool, List, [], ◌∷◌, ◌++◌, Option, none, some, ltb, ◌==◌, if◌then◌else◌, ◌>>=◌,
  ◌>>◌, guard, length, get_elem?, set, replicate,
}

-- `n`, `k` and `childBuf`.
pub record Globals : Type 0 where
  pub n : ℕ
  pub k : ℕ
  pub child_buf : List ℕ

-- After the beginning of `main`; `calloc` fills with zeros.
unfoldable pub start_globals : ℕ → Globals
start_globals children = record { n = 0; k = 0; child_buf = replicate children 0 }

-- The loop over `childBuf`, with the rounds that are left: the children that get SIGUSR2.
unfoldable pub allow_bulk : ℕ → List ℕ → ℕ → Option (List ℕ)
allow_bulk zero buf l = some []
allow_bulk (suc rounds) buf l = do
  pid ← get_elem? buf l
  later ← allow_bulk rounds buf (l + 1)
  some (pid ∷ later)

unfoldable pub store_pid : ℕ → Globals → ℕ → Option (List ℕ)
store_pid limit g pid =
    let stored = do guard (ltb g.k (length g.child_buf)); some (set g.child_buf g.k pid)
    in if ltb g.k limit then stored else some g.child_buf

-- `limit` is K. The result has the children that get SIGUSR2, in order.
unfoldable pub catch_usr1 : ℕ → Globals → ℕ → Option (Globals × List ℕ)
catch_usr1 limit g pid = do
  buf ← store_pid limit g pid
  let bulk = allow_bulk (g.k + 1) buf 0
  allowed ←
      if ltb limit (g.k + 1) then some (pid ∷ []) else if (g.k + 1) == limit then bulk else some []
  some (record g { k = g.k + 1; child_buf = buf }, allowed)

unfoldable pub catch_sigrt : Globals → Globals
catch_sigrt g = record g { n = g.n + 1 }

-- A signal for the parent: a request of a child, or a real time signal.
pub data Signal : Type 0 where
  usr1 : ℕ → Signal
  rt : Signal

-- `while (n != N) pause();` over the signals that come.
unfoldable pub run : ℕ → ℕ → Globals → List Signal → Option (Globals × List ℕ)
run children limit g [] = some (g, [])
run children limit g (usr1 pid ∷ ss) =
    let on = do
      (g', allowed) ← catch_usr1 limit g pid
      (g'', later) ← run children limit g' ss
      some (g'', allowed ++ later)
    in if g.n == children then some (g, []) else on
run children limit g (rt ∷ ss) =
    let on = run children limit (catch_sigrt g) ss in if g.n == children then some (g, []) else on
