-- ===== src/Records.antt =====
-- cw02/zad1/zad1.c: records of one size in a file, sorted in place by their first character and
-- copied. `none` is a read that gives less than it is asked for, or an overflow of int. The variants with system calls and
-- with library functions have the same steps; the lines named are those with system calls.
pub mod Steps
pub mod Order
pub mod Sink
pub mod Sort
pub mod Generate
mod Tests
use agh_so.Prelude.{
  ℕ, zero, suc, ◌+◌, ◌-◌, ◌*◌, ◌%◌, ◌&&◌, Bool, List, [], ◌∷◌, ◌++◌, Option, none, some, ltb, leb,
  ◌==◌, if◌then◌else◌, ◌>>=◌, ◌>>◌, guard, length, take, drop,
}
use agh_so.Prelude.Int.{pos, ltb_ℤ}
use agh_so.CText.{Text, char_val, int_of}

-- An open file: its bytes, and the position in it.
pub record File : Type 0 where
  pub bytes : Text
  pub offset : ℕ

abbrev pub seek : File → ℕ → File
seek f i = record f { offset = i }

unfoldable pub read : File → ℕ → Option (Text × File)
read f n = do
  guard (leb (f.offset + n) (length f.bytes))
  some (take n (drop f.offset f.bytes), seek f (f.offset + n))

-- A write at a position of the file, or at its end.
unfoldable pub write : File → Text → File
write f s = record {
  bytes = take f.offset f.bytes ++ (s ++ drop (f.offset + length s) f.bytes);
  offset = f.offset + length s;
}

-- One character.
unfoldable pub read_char : File → Option (ℕ × File)
read_char f = do (s, f') ← read f 1; first s f'
  where
    first : Text → File → Option (ℕ × File)
    first [] f' = none
    first (c ∷ s) f' = some (c, f')

-- The two records before and at `j` change places; the position is at the first of them.
unfoldable pub swap_records : ℕ → File → ℕ → Option File
swap_records size f j = do
  (b, f1) ← read f size
  (a, f2) ← read f1 size
  some (write (write (seek f2 (j - size)) a) b)

abbrev pub less : ℕ → ℕ → Bool
less a b = ltb_ℤ (char_val a) (char_val b)

-- `while (a < b && j >= 2 * SoR)`, with fuel, from a file, `b` and `j`.
unfoldable pub sink : ℕ → ℕ → ℕ → File → ℕ → ℕ → Option (File × ℕ × ℕ)
sink zero size a f b j = none
sink (suc fuel) size a f b j =
    let again = do
      f1 ← swap_records size f j
      (b', f2) ← read_char (seek f1 (j - size - size))
      sink fuel size a (seek f2 (f2.offset - 1)) b' (j - size)
    in if less a b && leb (2 * size) j then again else some (f, b, j)

-- One round of the sort: the record at `i` sinks to its place. `j` falls by `SoR` in each round of
-- the inner loop, so that `i + 1` rounds are enough.
unfoldable pub insert_record : ℕ → File → ℕ → Option File
insert_record size f i = do
  (a, f1) ← read_char (seek f i)
  (b, f2) ← read_char (seek f1 (i - size))
  (f3, b', j) ← sink (i + 1) size a (seek f2 (f2.offset - 1)) b i
  if less a b' then swap_records size f3 j else some f3

-- The outer loop, with the rounds that are left.
unfoldable pub sort_from : ℕ → ℕ → File → ℕ → Option File
sort_from zero size f i = some f
sort_from (suc rounds) size f i = do
  f' ← insert_record size f i
  sort_from rounds size f' (i + size)

-- `NoR * SoR`, an int, bounds `i`. With it `i` and `2 * SoR` are ints too.
unfoldable pub sort_records : ℕ → ℕ → File → Option File
unfolding int_of
sort_records records size f = do
  product ← int_of (pos (records * size))
  if size == 0 then some f else sort_from (records - 1) size f size

-- The loop of `copy`, with the rounds that are left: the file read and the file written.
unfoldable pub copy_records : ℕ → ℕ → File → File → Option (File × File)
copy_records zero size from to = some (from, to)
copy_records (suc rounds) size from to = do
  (s, from') ← read from size
  copy_records rounds size from' (write to s)

-- The loop of `generateLine`, with the rounds that are left; `rand k` is what the call number `k` of
-- rand returns.
unfoldable pub letters : (ℕ → ℕ) → ℕ → ℕ → Text
letters rand k zero = []
letters rand k (suc rounds) = (97 + rand k % 26) ∷ letters rand (k + 1) rounds

-- With `n` 0 the blank is written before the buffer.
unfoldable pub generate_line : (ℕ → ℕ) → ℕ → ℕ → Option Text
generate_line rand k zero = none
generate_line rand k (suc n) = some (letters rand k n ++ 32 ∷ [])

-- The loop of `generate`, with the rounds that are left.
unfoldable pub generate : (ℕ → ℕ) → ℕ → ℕ → ℕ → File → Option File
generate rand k zero size f = some f
generate rand k (suc rounds) size f = do
  s ← generate_line rand k size
  generate rand (k + (size - 1)) rounds size (write f s)
