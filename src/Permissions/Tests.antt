-- ===== src/Permissions/Tests.antt =====
-- Requests of three children of cw04/zad2/zad2.c, two of which must have asked.
use agh_so.Prelude.{ℕ, true, false, none, ◌≤◌, ◌<◌, ◌≡◌, refl, [], ◌∷◌, some, arith}
use agh_so.Permissions.{
  start_globals, allow_bulk, store_pid, catch_usr1, usr1, rt, catch_sigrt, run,
}
use agh_so.Permissions.Family.{Place, Family, Move, Reach}
use agh_so.Permissions.Turns.{holding}
use agh_so.Permissions.Exclusive.{one_at_a_time}
use agh_so.Permissions.Requests.{Allows, requests_lem}

requests_lem_example :
    (3 < 2 → Allows 2 (start_globals 3) (11 ∷ 12 ∷ 13 ∷ []) [])
    × (2 ≤ 3 → Allows 2 (start_globals 3) (11 ∷ 12 ∷ 13 ∷ []) (11 ∷ 12 ∷ 13 ∷ []))
requests_lem_example = requests_lem 3 2 (11 ∷ 12 ∷ 13 ∷ []) (omega arith)

-- Three children ask, and are let work; with their signals the parent's loop ends.
three_children :
    (run 3 2 (start_globals 3) (usr1 11 ∷ usr1 12 ∷ rt ∷ usr1 13 ∷ rt ∷ rt ∷ usr1 14 ∷ []))
    ≡ some (record { n = 3; k = 3; child_buf = 11 ∷ 12 ∷ 0 ∷ [] }, 11 ∷ 12 ∷ 13 ∷ [])
unfolding run start_globals catch_usr1 catch_sigrt store_pid allow_bulk
three_children = refl

-- One child, up to its request.
abbrev asks : (s : Family) × Reach 1 1 s × (s.places 7 ≡ Place.asking)
asks =
    let r1 = Reach.later Reach.begin (Move.fork 7 refl (omega arith) refl) in
    let r2 = Reach.later r1 (Move.created refl refl) in
    let r3 = Reach.later r2 (Move.ask 7 0 refl refl) in (_, r3, refl)

one_at_a_time_example :
    (asks.0.usr1 ≡ none)
    × (asks.0.chld ≡ false)
    × (asks.0.posts ≡ 0)
    × (asks.0.flag ≡ 0)
    × ((q : ℕ) → holding (asks.0.places q) ≡ true → 7 ≡ q)
one_at_a_time_example = one_at_a_time 7 asks.1 refl
