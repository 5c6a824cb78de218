-- ===== src/Fifo/Printed.antt =====
-- What the master of cw05/zad2 prints of what it reads.
use mathlib.Core.List.{append_assoc, append-nil}
use agh_so.Prelude.{
  ℕ, zero, suc, ◌+◌, ◌-◌, ◌<◌, ◌≤◌, ◌≡◌, refl, sym, ap, ◌∙◌, List, [], ◌∷◌, ◌++◌, some, arith,
  length, drop, replicate,
}
use agh_so.CText.{Text, c_string}
use agh_so.CText.Strings.{NoNul, c_string-append}
use agh_so.Fifo.{Pipe, Reach, master}
use agh_so.Fifo.Traffic.{concat, texts, texts_of, traffic_lem}

-- Pieces without NUL that do not fill a buffer of `size`, none of them shorter than `n` or the one
-- before it.
abbrev pub AreGrowing : ℕ → ℕ → List Text → Type 0
AreGrowing size n [] = Unit
AreGrowing size n (c ∷ cs) =
    NoNul c × (n ≤ length c) × (length c < size) × AreGrowing size (length c) cs

-- Zeros that are left of a buffer.
abbrev pub zeros : ℕ → Text
zeros n = replicate n 0

zeros-eq : (m n : ℕ) → m ≡ n → zeros m ≡ zeros n
zeros-eq m n e = ap zeros e

drop-append_past :
    (d : Text) (k n : ℕ) → length d ≤ n → drop n (d ++ zeros k) ≡ zeros (length d + k - n)
drop-append_past [] k zero h = zeros-eq k (0 + k - 0) (omega arith)
drop-append_past [] zero (suc n) h = zeros-eq 0 (0 + 0 - suc n) (omega arith)
drop-append_past [] (suc k) (suc n) h =
    drop-append_past [] k n (omega arith) ∙ zeros-eq (0 + k - n) (0 + suc k - suc n) (omega arith)
drop-append_past (c ∷ d) k zero h = absurd (omega arith)
drop-append_past (c ∷ d) k (suc n) h =
    drop-append_past d k n (omega arith)
    ∙ zeros-eq (length d + k - n) (suc (length d) + k - suc n) (omega arith)

drop-append_within : (a r : Text) (n : ℕ) → n ≤ length a → drop n (a ++ r) ≡ drop n a ++ r
drop-append_within a r zero h = refl
drop-append_within [] r (suc n) h = absurd (omega arith)
drop-append_within (c ∷ a) r (suc n) h = drop-append_within a r n (omega arith)

NoNul-append : (a b : Text) → NoNul a → NoNul b → NoNul (a ++ b)
NoNul-append [] b h h' = h'
NoNul-append (c ∷ a) b (ne, h) h' = (ne, NoNul-append a b h h')

NoNul-drop : (a : Text) (n : ℕ) → NoNul a → NoNul (drop n a)
NoNul-drop a zero h = h
NoNul-drop [] (suc n) h = tt
NoNul-drop (c ∷ a) (suc n) (ne, h) = NoNul-drop a n h

module _ (size : ℕ) where
  -- A piece on zeros, or on a piece that is not longer, is printed as it is.
  printed :
      (before c : Text)
      → NoNul c
      → length before ≤ length c
      → length c < size
      → (drop (length c) (before ++ zeros (size - length before)) ≡ zeros (size - length c))
        × (c_string (c ++ zeros (size - length c)) ≡ some c)
  printed before c nul longer fits =
      let some_nul : size - length c ≡ suc (size - length c - 1) = omega arith in
      (
        drop-append_past before (size - length before) (length c) longer
            ∙ zeros-eq (length before + (size - length before) - length c) (size - length c)
                (omega arith),
        ap (λ m. c_string (c ++ zeros m)) some_nul
            ∙ c_string-append c (zeros (size - length c - 1)) nul,
      )

  master_growing :
      (before : Text) (chunks : List Text)
      → AreGrowing size (length before) chunks
      → master (before ++ zeros (size - length before)) chunks ≡ some (concat chunks)
  unfolding master
  master_growing before [] valid = refl
  master_growing before (c ∷ cs) (nul, longer, fits, valid) =
      let (rest, text) = printed before c nul longer fits in
      rw (rest, text, master_growing c cs valid) refl

-- On a buffer of zeros the master prints exactly what it reads, if no piece is shorter than the one
-- before it and none has a NUL or fills the buffer.
master_lem :
    (size : ℕ) (chunks : List Text)
    → AreGrowing size 0 chunks
    → master (zeros size) chunks ≡ some (concat chunks)
master_lem size chunks valid =
    ap (λ b. master b chunks) (zeros-eq size (size - 0) (omega arith))
    ∙ master_growing size [] chunks valid

-- In every state that slaves and master can come to in which the master, on a buffer of zeros, has read
-- no piece shorter than the one before it and none that has a NUL or fills the buffer: what it prints,
-- and what is in the FIFO behind it, are the lines that have been written, one after the other; and
-- the lines of each slave are those that it has written and those that it has still to write, in order.
pub print_lem :
    {slaves : ℕ → List Text} {s : Pipe} (size : ℕ)
    → Reach slaves s
    → AreGrowing size 0 s.read
    → (printed : Text) × (master (zeros size) s.read ≡ some printed)
      × (concat (texts s.written) ≡ printed ++ s.fifo)
      × ((i : ℕ) → slaves i ≡ texts_of i s.written ++ s.slaves i)
print_lem {s = s} size r valid =
    let (lines, bytes) = traffic_lem r in
    (concat s.read, master_lem size s.read valid, bytes, lines)

-- On a buffer of zeros a piece that is shorter than the one before it is printed with the end of that
-- one behind it.
pub master_shorter :
    (size : ℕ) (first second : Text)
    → NoNul first
    → NoNul second
    → length second < length first
    → length first < size
    → master (zeros size) (first ∷ second ∷ [])
      ≡ some (first ++ (second ++ drop (length second) first))
unfolding master
master_shorter size first second nul nul' shorter fits =
    let (rest, text) = printed size [] first nul (omega arith) fits in
    let stale : drop (length second) (first ++ zeros (size - length first))
        ≡ drop (length second) first ++ zeros (size - length first) =
      drop-append_within first (zeros (size - length first)) (length second) (omega arith) in
    let some_nul : size - length first ≡ suc (size - length first - 1) = omega arith in
    let text' : c_string (second ++ (drop (length second) first ++ zeros (size - length first)))
        ≡ some (second ++ drop (length second) first) =
      ap c_string
        (sym (append_assoc second (drop (length second) first) (zeros (size - length first))))
      ∙ ap (λ m. c_string ((second ++ drop (length second) first) ++ zeros m)) some_nul
      ∙ c_string-append (second ++ drop (length second) first) (zeros (size - length first - 1)) (
          NoNul-append second (drop (length second) first) nul'
            (NoNul-drop first (length second) nul)) in
    ap (λ b. master b (first ∷ second ∷ [])) (zeros-eq size (size - 0) (omega arith))
    ∙ rw (rest, text, stale, text')
        (ap (λ l. some (first ++ l)) (append-nil (second ++ drop (length second) first)))
