-- ===== src/ImageFilter/Threads.antt =====
-- The threads of cw08/zad1/zad1.c at work: each computes a pixel and writes it, in any order.
use agh_so.Prelude.{ℕ, ◌+◌, ◌*◌, ◌<◌, ◌≤◌, ◌≡◌, some, ◌==◌, if◌then◌else◌}
use agh_so.Prelude.Int.{ℤ}
use agh_so.ImageFilter.{Double, Grid, put, Input, pixel, start_of, end_of}

-- Where a thread is in its loops.
pub record Place : Type 0 where
  pub x : ℕ
  pub y : ℕ

pub record State : Type 0 where
  pub out : Grid ℤ
  pub places : ℕ → Place

abbrev pub move : (ℕ → Place) → ℕ → Place → (ℕ → Place)
move places i p j = if i == j then p else places j

-- A step of thread number `i`, the one that is created with `2 * i`.
pub data Step {d : Double} (g : Input d) (thread_no : ℕ) (s : State) : State → Type 0 where
  write :
      (i : ℕ) (n : ℤ) (out : Grid ℤ)
      → i < thread_no
      → (s.places i).x < end_of g.height thread_no (2 * i)
      → (s.places i).y < g.width
      → pixel g (s.places i).x (s.places i).y ≡ some n
      → put s.out (s.places i).x (s.places i).y n ≡ some out
      → Step g thread_no s (record {
        out = out;
        places = move s.places i (record { x = (s.places i).x; y = (s.places i).y + 1 });
      })
  next_row :
      (i : ℕ)
      → i < thread_no
      → (s.places i).x < end_of g.height thread_no (2 * i)
      → g.width ≤ (s.places i).y
      → Step g thread_no s (record {
        out = s.out;
        places = move s.places i (record { x = (s.places i).x + 1; y = 0 });
      })

abbrev pub start_state : {d : Double} → Input d → ℕ → Grid ℤ → State
start_state g thread_no out = record {
  out = out;
  places = λ i. record { x = start_of g.height thread_no (2 * i); y = 0 };
}

-- The states that the threads can come to from an array `out`.
pub data Reach {d : Double} (g : Input d) (thread_no : ℕ) (out : Grid ℤ) : State → Type 0 where
  begin : Reach g thread_no out (start_state g thread_no out)
  later : {s t : State} → Reach g thread_no out s → Step g thread_no s t → Reach g thread_no out t

-- All threads have left their loops.
abbrev pub AreDone : {d : Double} → Input d → ℕ → State → Type 0
AreDone g thread_no s = (i : ℕ) → i < thread_no → end_of g.height thread_no (2 * i) ≤ (s.places i).x
