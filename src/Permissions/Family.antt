-- ===== src/Permissions/Family.antt =====
-- cw04/zad2/zad2.c: the parent and its children, with the semaphore `flag` and the signals on their
-- way. SIGUSR1, SIGUSR2 and SIGCHLD are kept once for a process that has not caught them yet, real
-- time signals are queued. A handler is a step, but for its calls on `flag`. Which real time signal is
-- sent, the ends by SIGINT, and the writes into `childAr`, are left out.
use agh_so.Prelude.{
  ℕ, suc, ◌+◌, ◌<◌, ◌≡◌, ◌≢◌, Bool, true, false, List, [], ◌∷◌, Option, none, some, ◌==◌,
  if◌then◌else◌, length,
}
use agh_so.Permissions.{Globals, start_globals, catch_usr1, catch_sigrt}

-- Where a child is. `handling`, `working` and `worked` are before `sem_wait`, `sigqueue` and
-- `sem_post` of catchUSR2; they say whether the handler runs in `pause`. If not, the child comes to a
-- `pause` that nothing ends.
pub data Place : Type 0 where
  unborn : Place
  asleep : Place
  asking : Place
  asked : Place
  paused : Place
  handling : Bool → Place
  working : Bool → Place
  worked : Bool → Place
  missed : Place
  leaving : Place
  exiting : Place
  left : Place

-- Where the parent is: in the loop with `fork`, before the test of its second loop, before `pause`,
-- in `pause`, or behind the loop.
pub data Parent : Type 0 where
  creating : Parent
  testing : Parent
  tested : Parent
  pausing : Parent
  over : Parent

-- A signal that was caught ends `pause`.
abbrev pub wake : Parent → Parent
wake Parent.pausing = Parent.testing
wake p = p

-- `posts` counts the handlers of the parent that are before `sem_post`, `usr1` has the child whose
-- SIGUSR1 is on its way, `allowed` the children whose SIGUSR2 is. Children go by their process number.
pub record Family : Type 0 where
  pub flag : ℕ
  pub parent : Parent
  pub globals : Globals
  pub born : List ℕ
  pub places : ℕ → Place
  pub usr1 : Option ℕ
  pub chld : Bool
  pub rt : ℕ
  pub posts : ℕ
  pub allowed : ℕ → Bool

abbrev pub put {ℓ} : {A : Type ℓ} → (ℕ → A) → ℕ → A → (ℕ → A)
put places p x q = if p == q then x else places q

abbrev pub allow_all : (ℕ → Bool) → List ℕ → (ℕ → Bool)
allow_all allowed [] = allowed
allow_all allowed (p ∷ ps) = put (allow_all allowed ps) p true

-- SIGUSR1 of a child: while there is one, another is lost.
abbrev pub deliver : Option ℕ → ℕ → Option ℕ
deliver none p = some p
deliver (some q) p = some q

-- A step, for `children` N and `limit` K.
pub data Move (children limit : ℕ) (s : Family) : Family → Type 0 where
  fork :
      (p : ℕ)
      → s.parent ≡ Parent.creating
      → length s.born < children
      → s.places p ≡ Place.unborn
      → Move children limit s (record s { born = p ∷ s.born; places = put s.places p Place.asleep })
  created :
      s.parent ≡ Parent.creating
      → length s.born ≡ children
      → Move children limit s (record s { flag = s.flag + 1; parent = Parent.testing })
  test :
      s.parent ≡ Parent.testing
      → s.globals.n ≢ children
      → Move children limit s (record s { parent = Parent.tested })
  finish :
      s.parent ≡ Parent.testing
      → s.globals.n ≡ children
      → Move children limit s (record s { parent = Parent.over })
  wait : s.parent ≡ Parent.tested → Move children limit s (record s { parent = Parent.pausing })
  catch_request :
      (p : ℕ) (g : Globals) (allowed : List ℕ)
      → s.usr1 ≡ some p
      → catch_usr1 limit s.globals p ≡ some (g, allowed)
      → Move children limit s (record s {
        parent = wake s.parent;
        globals = g;
        usr1 = none;
        posts = s.posts + 1;
        allowed = allow_all s.allowed allowed;
      })
  catch_exit :
      s.chld ≡ true
      → Move children limit s
          (record s { parent = wake s.parent; chld = false; posts = s.posts + 1 })
  catch_rt :
      (r : ℕ)
      → s.rt ≡ suc r
      → Move children limit s
          (record s { parent = wake s.parent; globals = catch_sigrt s.globals; rt = r })
  post :
      (q : ℕ) → s.posts ≡ suc q → Move children limit s (record s { flag = s.flag + 1; posts = q })
  ask :
      (p f : ℕ)
      → s.places p ≡ Place.asleep
      → s.flag ≡ suc f
      → Move children limit s (record s { flag = f; places = put s.places p Place.asking })
  request :
      (p : ℕ)
      → s.places p ≡ Place.asking
      → Move children limit s
          (record s { places = put s.places p Place.asked; usr1 = deliver s.usr1 p })
  pause :
      (p : ℕ)
      → s.places p ≡ Place.asked
      → Move children limit s (record s { places = put s.places p Place.paused })
  interrupt :
      (p : ℕ)
      → s.places p ≡ Place.paused
      → s.allowed p ≡ true
      → Move children limit s (record s {
        places = put s.places p (Place.handling true);
        allowed = put s.allowed p false;
      })
  interrupt_early :
      (p : ℕ)
      → s.places p ≡ Place.asked
      → s.allowed p ≡ true
      → Move children limit s (record s {
        places = put s.places p (Place.handling false);
        allowed = put s.allowed p false;
      })
  start_work :
      (p f : ℕ) (in_pause : Bool)
      → s.places p ≡ Place.handling in_pause
      → s.flag ≡ suc f
      → Move children limit s
          (record s { flag = f; places = put s.places p (Place.working in_pause) })
  work :
      (p : ℕ) (in_pause : Bool)
      → s.places p ≡ Place.working in_pause
      → Move children limit s
          (record s { places = put s.places p (Place.worked in_pause); rt = s.rt + 1 })
  end_work :
      (p : ℕ) (in_pause : Bool)
      → s.places p ≡ Place.worked in_pause
      → Move children limit s (record s {
        flag = s.flag + 1;
        places = put s.places p (if in_pause then Place.leaving else Place.missed);
      })
  leave :
      (p f : ℕ)
      → s.places p ≡ Place.leaving
      → s.flag ≡ suc f
      → Move children limit s (record s { flag = f; places = put s.places p Place.exiting })
  exit :
      (p : ℕ)
      → s.places p ≡ Place.exiting
      → Move children limit s (record s { places = put s.places p Place.left; chld = true })

-- When the parent has called `sem_wait`.
abbrev pub start_family : ℕ → Family
start_family children = record {
  flag = 0;
  parent = Parent.creating;
  globals = start_globals children;
  born = [];
  places = λ p. Place.unborn;
  usr1 = none;
  chld = false;
  rt = 0;
  posts = 0;
  allowed = λ p. false;
}

-- The states that the processes can come to.
pub data Reach (children limit : ℕ) : Family → Type 0 where
  begin : Reach children limit (start_family children)
  later : {s t : Family} → Reach children limit s → Move children limit s t → Reach children limit t
