-- ===== src/ImageFilter.antt =====
-- cw08/zad1/zad1.c: an image is filtered by threads, each of which computes some rows. The
-- arithmetic of double is a parameter. `none` is an access outside an array.
pub mod Threads
pub mod Cells
pub mod Pixel
pub mod Rows
pub mod Pass
pub mod Result
pub mod Shuffle
pub mod Files
pub mod Loaded
pub mod Saved
mod Tests
use agh_so.Prelude.{
  ℕ, zero, suc, ◌+◌, ◌-◌, ◌*◌, ◌/◌, Bool, List, [], ◌∷◌, Option, none, some, ltb, ◌==◌,
  if◌then◌else◌, ◌>>=◌, ◌>>◌, guard, length, get_elem?, set,
}
use agh_so.Prelude.Int.{ℤ}

-- What the program uses of double: `round` is `(int) round(s)`.
pub record Double : Type 1 where
  pub Real : Type 0
  pub nought : Real
  pub add : Real → Real → Real
  pub mul : Real → Real → Real
  pub of_int : ℤ → Real
  pub round : Real → ℤ

abbrev pub Grid : Type 0 → Type 0
Grid A = List (List A)

abbrev pub at : {A : Type 0} → Grid A → ℕ → ℕ → Option A
at rows i j = get_elem? rows i >>= λ row. get_elem? row j

abbrev pub put : {A : Type 0} → Grid A → ℕ → ℕ → A → Option (Grid A)
put rows i j v =
    get_elem? rows i >>= λ row. if ltb j (length row) then some (set rows i (set row j v)) else none

-- `index_i` and `index_j`: `x - ceil(c / 2.0) + i`, held between 0 and `size - 1`.
unfoldable pub clamp : ℕ → ℕ → ℕ → ℕ → ℕ
clamp size c x i =
    if ltb ((c + 1) / 2) (x + i)
    then (if ltb (x + i - (c + 1) / 2) (size - 1) then x + i - (c + 1) / 2 else size - 1)
    else 0

-- The globals that the threads read.
pub record Input (d : Double) : Type 0 where
  pub height : ℕ
  pub width : ℕ
  pub c : ℕ
  pub img_in : Grid ℤ
  pub filter : Grid d.Real

module _ {d : Double} (g : Input d) where
  -- The loop over `j`, with the rounds that are left, from `j` and `s`.
  unfoldable pub sum_columns : ℕ → ℕ → ℕ → ℕ → ℕ → d.Real → Option d.Real
  sum_columns x y i zero j s = some s
  sum_columns x y i (suc rounds) j s = do
    n ← at g.img_in (clamp g.height g.c x i) (clamp g.width g.c y j)
    f ← at g.filter i j
    sum_columns x y i rounds (j + 1) (d.add s (d.mul (d.of_int n) f))

  -- The loop over `i`.
  unfoldable pub sum_rows : ℕ → ℕ → ℕ → ℕ → d.Real → Option d.Real
  sum_rows x y zero i s = some s
  sum_rows x y (suc rounds) i s = do s' ← sum_columns x y i g.c 0 s; sum_rows x y rounds (i + 1) s'

  unfoldable pub pixel : ℕ → ℕ → Option ℤ
  pixel x y = do s ← sum_rows x y g.c 0 d.nought; some (d.round s)

  -- The loop over `y`, on `img_out_array`.
  unfoldable pub fill_row : ℕ → ℕ → ℕ → Grid ℤ → Option (Grid ℤ)
  fill_row x zero y out = some out
  fill_row x (suc rounds) y out = do
    n ← pixel x y
    out' ← put out x y n
    fill_row x rounds (y + 1) out'

  -- The loop over `x`.
  unfoldable pub fill_rows : ℕ → ℕ → Grid ℤ → Option (Grid ℤ)
  fill_rows zero x out = some out
  fill_rows (suc rounds) x out = do out' ← fill_row x g.width 0 out; fill_rows rounds (x + 1) out'

  unfoldable pub start_routine : ℕ → ℕ → Grid ℤ → Option (Grid ℤ)
  start_routine start end out = fill_rows (end - start) start out

-- `ar[0]` and `ar[1]` of the thread that is created with `i`.
unfoldable pub start_of : ℕ → ℕ → ℕ → ℕ
start_of height thread_no i = height / thread_no * i / 2

unfoldable pub end_of : ℕ → ℕ → ℕ → ℕ
end_of height thread_no i =
    if i == thread_no * 2 - 2 then height else height / thread_no * (i / 2 + 1)

-- The loop that creates the threads, with the rounds that are left: the bounds of each thread. The
-- identifier of a thread is stored at `i` in an array of `thread_no`.
unfoldable pub create : ℕ → ℕ → ℕ → ℕ → Option (List (ℕ × ℕ))
create height thread_no zero i = some []
create height thread_no (suc rounds) i = do
  guard (ltb i thread_no)
  later ← create height thread_no rounds (i + 2)
  some ((start_of height thread_no i, end_of height thread_no i) ∷ later)
