-- ===== src/Records/Steps.antt =====
-- The steps of cw02/zad1/zad1.c on the records of a file.
use mathlib.Core.List.{append_assoc, append-nil}
use agh_so.Prelude.{
  ℕ, zero, suc, ◌+◌, ◌-◌, ◌≤◌, ◌≡◌, refl, sym, ap, ◌∙◌, true, List, [], ◌∷◌, ◌++◌, some, arith, leb,
  length, length-append, take, drop, take-append, drop-append,
}
use agh_so.CText.{Text}
use agh_so.Records.{File, seek, read, write, swap_records, copy_records}

-- A file at a place between two parts.
abbrev pub at : Text → Text → File
at a b = record { bytes = a ++ b; offset = length a }

pub read-parts :
    (f : File) (a s b : Text) (n : ℕ)
    → f.bytes ≡ a ++ (s ++ b)
    → f.offset ≡ length a
    → n ≡ length s
    → read f n ≡ some (s, seek f (f.offset + n))
unfolding read
read-parts f a s b n e o len =
    let inside : leb (f.offset + n) (length f.bytes) ≡ true =
      ground (arith, ap length e, length-append a (s ++ b), length-append s b) in
    let text : take n (drop f.offset f.bytes) ≡ s =
      ap (λ l. take n (drop f.offset l)) e
      ∙ ap (take n) (drop-append a (s ++ b) f.offset o)
      ∙ take-append s b n len in
    rw inside (ap (λ t. some (t, seek f (f.offset + n))) text)

write-parts :
    (f : File) (a old s b : Text)
    → f.bytes ≡ a ++ (old ++ b)
    → f.offset ≡ length a
    → length old ≡ length s
    → write f s ≡ record { bytes = a ++ (s ++ b); offset = f.offset + length s }
unfolding write
write-parts f a old s b e o len =
    let front : take f.offset f.bytes ≡ a =
      ap (take f.offset) e ∙ take-append a (old ++ b) f.offset o in
    let back : drop (f.offset + length s) f.bytes ≡ b =
      ap (drop (f.offset + length s)) (e ∙ sym (append_assoc a old b))
      ∙ drop-append (a ++ old) b (f.offset + length s) (omega (arith, length-append a old)) in
    λ i. record { bytes = front i ++ (s ++ back i); offset = f.offset + length s }

-- `swap_records` exchanges two neighbouring records, leaves all other bytes and ends behind them.
pub swap_records_lem :
    (pre b a post : Text) (size : ℕ)
    → length b ≡ size
    → length a ≡ size
    → swap_records size (at pre (b ++ (a ++ post))) (length pre + size)
      ≡ some (record { bytes = pre ++ (a ++ (b ++ post)); offset = length pre + size + size })
unfolding swap_records
swap_records_lem pre b a post size hb ha =
    let f = at pre (b ++ (a ++ post)) in
    let f1 = seek f (length pre + size) in
    let f3 = seek f (length pre + size - size) in
    let f4 : File = record {
      bytes = pre ++ (a ++ (a ++ post));
      offset = length pre + size - size + length a;
    } in
    let first = read-parts f pre b (a ++ post) size refl refl (sym hb) in
    let second =
      read-parts f1 (pre ++ b) a post size (sym (append_assoc pre b (a ++ post)))
        (omega (arith, length-append pre b)) (sym ha) in
    let third = write-parts f3 pre b a (a ++ post) refl (omega arith) (hb ∙ sym ha) in
    let fourth =
      write-parts f4 (pre ++ a) a b post (sym (append_assoc pre a (a ++ post)))
        (omega (arith, length-append pre a)) (ha ∙ sym hb) in
    let place : length pre + size - size + length a + length b ≡ length pre + size + size =
      omega arith in
    rw (first, second, third, fourth)
      (λ i. some (record { bytes = append_assoc pre a (b ++ post) i; offset = place i }))

take_all : (l : Text) (n : ℕ) → n ≡ length l → take n l ≡ l
take_all [] zero e = refl
take_all [] (suc n) e = refl
take_all (x ∷ l) zero e = absurd (omega arith)
take_all (x ∷ l) (suc n) e = ap (λ t. x ∷ t) (take_all l n (omega arith))

drop_past : (l : Text) (n : ℕ) → length l ≤ n → drop n l ≡ []
drop_past [] zero h = refl
drop_past [] (suc n) h = refl
drop_past (x ∷ l) zero h = absurd (omega arith)
drop_past (x ∷ l) (suc n) h = drop_past l n (omega arith)

pub write-end :
    (f : File) (s : Text)
    → f.offset ≡ length f.bytes
    → write f s ≡ record { bytes = f.bytes ++ s; offset = f.offset + length s }
unfolding write
write-end f s e =
    let front = take_all f.bytes f.offset e in
    let back =
      ap (λ l. s ++ l) (drop_past f.bytes (f.offset + length s) (omega arith)) ∙ append-nil s in
    λ i. record { bytes = front i ++ back i; offset = f.offset + length s }

-- Records one after the other.
abbrev pub bytes_of : List Text → Text
bytes_of [] = []
bytes_of (r ∷ rs) = r ++ bytes_of rs

abbrev pub HaveSize : ℕ → List Text → Type 0
HaveSize size [] = Unit
HaveSize size (r ∷ rs) = (size ≡ length r) × HaveSize size rs

-- `copy` reads the records that follow in the one file and writes them to the end of the other.
pub copy_records_lem :
    (size : ℕ) (rs : List Text) (from to : File) (done post : Text)
    → HaveSize size rs
    → from.bytes ≡ done ++ (bytes_of rs ++ post)
    → from.offset ≡ length done
    → to.offset ≡ length to.bytes
    → (from' to' : File) × (copy_records (length rs) size from to ≡ some (from', to'))
      × (from'.bytes ≡ from.bytes)
      × (to'.bytes ≡ to.bytes ++ bytes_of rs)
unfolding copy_records
copy_records_lem size [] from to done post sizes e o end =
    (from, to, refl, refl, sym (append-nil to.bytes))
copy_records_lem size (r ∷ rs) from to done post (len, sizes) e o end =
    let e' : from.bytes ≡ done ++ (r ++ (bytes_of rs ++ post)) =
      e ∙ ap (λ l. done ++ l) (append_assoc r (bytes_of rs) post) in
    let from1 = seek from (from.offset + size) in
    let to1 : File = record { bytes = to.bytes ++ r; offset = to.offset + length r } in
    let (from', to', run, kept, copied) =
      copy_records_lem size rs from1 to1 (done ++ r) post sizes
        (e' ∙ sym (append_assoc done r (bytes_of rs ++ post))) (omega (arith, length-append done r))
        (omega (arith, length-append to.bytes r)) in
    (
      from',
      to',
      rw (read-parts from done r (bytes_of rs ++ post) size e' o len, write-end to r end) run,
      kept,
      copied ∙ append_assoc to.bytes r (bytes_of rs),
    )
