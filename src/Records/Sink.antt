-- ===== src/Records/Sink.antt =====
-- The inner loop of the sort of cw02/zad1/zad1.c on the records of a file.
use mathlib.Core.List.{append_assoc, append-nil}
use agh_so.Prelude.{
  ℕ, zero, suc, ◌+◌, ◌-◌, ◌*◌, ◌<◌, ◌≡◌, ◌≢◌, refl, sym, ap, ◌∙◌, true, false, ◌&&◌, Bool-cases,
  inl, inr, List, [], ◌∷◌, ◌++◌, Option, some, arith, leb, if◌then◌else◌, ◌>>=◌, length,
  length-append,
}
use agh_so.CText.{Text}
use agh_so.Records.{File, seek, read_char, less, swap_records, sink, insert_record}
use agh_so.Records.Steps.{at, read-parts, swap_records_lem, bytes_of, HaveSize}
use agh_so.Records.Order.{key, insert, forward}

-- The bytes of the records before a place, which are listed from the last to the first.
abbrev pub bytes_before : List Text → Text
bytes_before [] = []
bytes_before (l ∷ ls) = bytes_before ls ++ l

bytes_of-append : (rs : List Text) (l : Text) → bytes_of (rs ++ l ∷ []) ≡ bytes_of rs ++ l
bytes_of-append [] l = append-nil l
bytes_of-append (r ∷ rs) l =
    ap (λ z. r ++ z) (bytes_of-append rs l) ∙ sym (append_assoc r (bytes_of rs) l)

pub bytes_of-forward : (ls : List Text) → bytes_of (forward ls) ≡ bytes_before ls
bytes_of-forward [] = refl
bytes_of-forward (l ∷ ls) = bytes_of-append (forward ls) l ∙ ap (λ z. z ++ l) (bytes_of-forward ls)

-- The first character of a record.
read_char-key :
    (f : File) (a r b : Text) (size : ℕ)
    → size ≢ 0
    → size ≡ length r
    → f.bytes ≡ a ++ (r ++ b)
    → f.offset ≡ length a
    → read_char f ≡ some (key r, seek f (f.offset + 1))
unfolding read_char
read_char-key f a [] b size some_size len e o = absurd (some_size len)
read_char-key f a (c ∷ r) b size some_size len e o =
    rw (read-parts f a (c ∷ []) (r ++ b) 1 e o refl) refl

-- The end of a round of the sort, after the inner loop.
abbrev last_swap : ℕ → ℕ → File × ℕ × ℕ → Option File
last_swap size a (f, b, j) = if less a b then swap_records size f j else some f

-- `f` holds the bytes, and `ran` gives `f`.
abbrev Holds : Option File → Text → Type 0
Holds ran bytes = (f : File) × (ran ≡ some f) × (f.bytes ≡ bytes)

sink_stops :
    (fuel size a b j : ℕ) (f : File)
    → less a b && leb (2 * size) j ≡ false
    → sink (suc fuel) size a f b j ≡ some (f, b, j)
unfolding sink
sink_stops fuel size a b j f e = rw e refl

module _ (size : ℕ) (some_size : size ≢ 0) (r : Text) (len : size ≡ length r) where
  -- Where the inner loop ends.
  stops :
      (ls : List Text) (l post : Text) (j : ℕ)
      → size ≡ length l
      → j ≡ length (bytes_before ls) + size
      → (less (key r) (key l) ≡ true → ls ≡ [])
      → Holds
          (last_swap size (key r) (at (bytes_before ls) (l ++ (r ++ post)), key l, j))
          (bytes_before (insert r (l ∷ ls)) ++ post)
  stops ls l post j hl place ends = elim (Bool-cases (less (key r) (key l))) [
    | inl lt ↦
        let swapped : File = record {
          bytes = bytes_before ls ++ (r ++ (l ++ post));
          offset = length (bytes_before ls) + size + size;
        } in
        (
          swapped,
          rw (lt, place) (swap_records_lem (bytes_before ls) l r post size (sym hl) (sym len)),
          rw (ends lt, lt) (sym (append_assoc r l post)),
        )
    | inr ge ↦ (
      at (bytes_before ls) (l ++ (r ++ post)),
      rw ge refl,
      rw ge (
          sym (
            append_assoc (bytes_before ls ++ l) r post
            ∙ append_assoc (bytes_before ls) l (r ++ post))),
    )
  ]

  -- One round of the inner loop.
  sink_goes :
      (ls : List Text) (m l post : Text) (fuel j : ℕ)
      → size ≡ length m
      → size ≡ length l
      → j ≡ length (bytes_before (m ∷ ls)) + size
      → less (key r) (key l) ≡ true
      → sink (suc fuel) size (key r) (at (bytes_before (m ∷ ls)) (l ++ (r ++ post))) (key l) j
        ≡ sink fuel size (key r) (at (bytes_before ls) (m ++ (r ++ (l ++ post)))) (key m) (j - size)
  unfolding sink
  sink_goes ls m l post fuel j hm hl place lt =
      let pre = bytes_before ls ++ m in
      let before = length-append (bytes_before ls) m in
      let back : leb (2 * size) j ≡ true = ground (arith, before) in
      let f1 : File = record {
        bytes = pre ++ (r ++ (l ++ post));
        offset = length pre + size + size;
      } in
      let swapped : swap_records size (at pre (l ++ (r ++ post))) j ≡ some f1 =
        ap (swap_records size (at pre (l ++ (r ++ post)))) place
        ∙ swap_records_lem pre l r post size (sym hl) (sym len) in
      let bytes = append_assoc (bytes_before ls) m (r ++ (l ++ post)) in
      let next =
        read_char-key (seek f1 (j - size - size)) (bytes_before ls) m (r ++ (l ++ post)) size
          some_size hm bytes (omega (arith, before)) in
      let offset : j - size - size + 1 - 1 ≡ length (bytes_before ls) = omega (arith, before) in
      rw (lt, back, swapped, next)
        (λ i.
          sink fuel size (key r) (record { bytes = bytes i; offset = offset i }) (key m) (j - size))

  sinks :
      (ls : List Text) (l post : Text) (fuel j : ℕ)
      → HaveSize size (l ∷ ls)
      → j ≡ length (bytes_before ls) + size
      → length (bytes_before ls) < fuel
      → Holds
          (sink fuel size (key r) (at (bytes_before ls) (l ++ (r ++ post))) (key l) j
            >>= last_swap size (key r))
          (bytes_before (insert r (l ∷ ls)) ++ post)
  sinks ls l post zero j sizes place enough = absurd (omega arith)
  sinks [] l post (suc fuel) j (hl, sizes) place enough =
      let small : less (key r) (key l) && leb (2 * size) j ≡ false = ground arith in
      let (f, ran, bytes) = stops [] l post j hl place (λ lt. refl) in
      (
        f,
        ap (λ z. z >>= last_swap size (key r))
              (sink_stops fuel size (key r) (key l) j (at [] (l ++ (r ++ post))) small)
            ∙ ran,
        bytes,
      )
  sinks (m ∷ ls) l post (suc fuel) j (hl, (hm, sizes)) place enough =
      elim (Bool-cases (less (key r) (key l))) [
        | inl lt ↦
            let before = length-append (bytes_before ls) m in
            let (f, ran, bytes) =
              sinks ls m (l ++ post) fuel (j - size) (hm, sizes) (omega (arith, before))
                (omega (arith, before)) in
            (
              f,
              ap (λ z. z >>= last_swap size (key r)) (sink_goes ls m l post fuel j hm hl place lt)
                  ∙ ran,
              rw lt (bytes ∙ sym (append_assoc (bytes_before (insert r (m ∷ ls))) l post)),
            )
        | inr ge ↦
            let small : less (key r) (key l) && leb (2 * size) j ≡ false = rw ge refl in
            let (f, ran, bytes) = stops (m ∷ ls) l post j hl place (λ lt. absurd (cc)) in
            (
              f,
              ap (λ z. z >>= last_swap size (key r))
                    (sink_stops fuel size (key r) (key l) j
                      (at (bytes_before (m ∷ ls)) (l ++ (r ++ post))) small)
                  ∙ ran,
              bytes,
            )
      ]

  pub insert_record_lem :
      (ls : List Text) (l post : Text) (f : File) (i : ℕ)
      → HaveSize size (l ∷ ls)
      → f.bytes ≡ bytes_before (l ∷ ls) ++ (r ++ post)
      → i ≡ length (bytes_before (l ∷ ls))
      → Holds (insert_record size f i) (bytes_before (insert r (l ∷ ls)) ++ post)
  unfolding insert_record
  insert_record_lem ls l post f i (hl, sizes) e place =
      let before = length-append (bytes_before ls) l in
      let first =
        read_char-key (seek f i) (bytes_before (l ∷ ls)) r post size some_size len e place in
      let e' : f.bytes ≡ bytes_before ls ++ (l ++ (r ++ post)) =
        e ∙ append_assoc (bytes_before ls) l (r ++ post) in
      let second =
        read_char-key (seek f (i - size)) (bytes_before ls) l (r ++ post) size some_size hl e'
          (omega (arith, before)) in
      let back : i - size + 1 - 1 ≡ length (bytes_before ls) = omega (arith, before) in
      let (g, ran, bytes) =
        sinks ls l post (i + 1) i (hl, sizes) (omega (arith, before)) (omega (arith, before)) in
      (
        g,
        rw (first, second)
            ((λ k.
                sink (i + 1) size (key r) (record { bytes = e' k; offset = back k }) (key l) i
                >>= last_swap size (key r))
              ∙ ran),
        bytes,
      )

  pub insert-length :
      (ls : List Text) → length (bytes_before (insert r ls)) ≡ length (bytes_before ls) + size
  insert-length [] = omega (arith, len)
  insert-length (l ∷ ls) = elim (Bool-cases (less (key r) (key l))) [
    | inl lt ↦ rw lt (
        omega (
          arith,
          insert-length ls,
          length-append (bytes_before (insert r ls)) l,
          length-append (bytes_before ls) l,
        ))
    | inr ge ↦ rw ge (omega (arith, length-append (bytes_before (l ∷ ls)) r))
  ]
