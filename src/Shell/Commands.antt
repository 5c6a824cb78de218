-- ===== src/Shell/Commands.antt =====
-- The commands of a line of cw05/zad1/zad1.c.
use mathlib.Core.Path.{subst}
use mathlib.Core.List.{append_assoc, append-nil, map-append, cons≢nil}
use agh_so.Prelude.{
  ℕ, zero, suc, ◌+◌, ◌-◌, ◌<◌, ◌≤◌, ◌≡◌, ◌≢◌, refl, sym, ap, ◌∙◌, true, false, Bool-cases, inl, inr,
  List, [], ◌∷◌, ◌++◌, map, none, some, arith, ltb, lt→ltb, if◌then◌else◌, length, length-append,
  length-map, set, set-append, replicate,
}
use agh_so.CText.{Text}
use agh_so.Shell.{is_bar, Row, fill_row, after_bar, fill_rows, arguments, all_arguments, commands}
use agh_so.Shell.Words.{AreWords, line_of, words-line_of}

-- The words between bars.
abbrev pub add_word : Text → List (List Text) → List (List Text)
add_word t [] = (t ∷ []) ∷ []
add_word t (seg ∷ segs) = (t ∷ seg) ∷ segs

abbrev pub segments : List Text → List (List Text)
segments [] = [] ∷ []
segments (t ∷ ts) = if is_bar t then [] ∷ segments ts else add_word t (segments ts)

-- A last part with no words is none.
abbrev pub trim : List (List Text) → List (List Text)
trim [] = []
trim ([] ∷ []) = []
trim ((t ∷ ts) ∷ []) = (t ∷ ts) ∷ []
trim (seg ∷ seg' ∷ segs) = seg ∷ trim (seg' ∷ segs)

abbrev pub AtMost : ℕ → List (List Text) → Type 0
AtMost n [] = Unit
AtMost n (seg ∷ segs) = (length seg ≤ n) × AtMost n segs

-- The words before the first bar, and what stands from it on.
abbrev cut : List Text → List Text × List Text
cut [] = ([], [])
cut (t ∷ ts) = let (seg, rest) = cut ts in if is_bar t then ([], t ∷ ts) else (t ∷ seg, rest)

abbrev pub row_of : List Text → Row
row_of ts = map some ts ++ replicate (10 - length ts) none

cut-word :
    (t : Text) (ts : List Text) → is_bar t ≡ false → cut (t ∷ ts) ≡ (t ∷ (cut ts).0, (cut ts).1)
cut-word t ts word = rw word refl

pub row_of-append :
    (done : List Text) (t : Text)
    → length done < 10
    → set (row_of done) (length done) (some t) ≡ row_of (done ++ t ∷ [])
row_of-append done t h =
    let left : 10 - length done ≡ suc (10 - length (done ++ t ∷ [])) =
      omega (arith, length-append done (t ∷ [])) in
    ap (λ n. set (map some done ++ replicate n none) (length done) (some t)) left
    ∙ set-append (map some done) none (some t) (replicate (10 - length (done ++ t ∷ [])) none)
        (length done) (sym (length-map done some))
    ∙ sym
        (append_assoc (map some done) (some t ∷ []) (replicate (10 - length (done ++ t ∷ [])) none))
    ∙ ap (λ l. l ++ replicate (10 - length (done ++ t ∷ [])) none)
        (sym (map-append some done (t ∷ [])))

fill_row_lem :
    (ts done : List Text)
    → length done + length (cut ts).0 ≤ 10
    → fill_row ts (length done) (row_of done) ≡ some (row_of (done ++ (cut ts).0), (cut ts).1)
unfolding fill_row
fill_row_lem [] done h = ap (λ l. some (row_of l, [])) (sym (append-nil done))
fill_row_lem (t ∷ ts) done h = elim (Bool-cases (is_bar t)) [
  | inl bar ↦ rw bar (ap (λ l. some (row_of l, t ∷ ts)) (sym (append-nil done)))
  | inr word ↦
      let h' : length done + suc (length (cut ts).0) ≤ 10 =
        omega (arith, h, ap (λ (c : List Text × List Text). length c.0) (cut-word t ts word)) in
      let next = length-append done (t ∷ []) in
      let at_next = fill_row_lem ts (done ++ t ∷ []) (omega (arith, next, h')) in
      let room = lt→ltb (length done) 10 (omega (arith, h')) in
      rw
        (
          word,
          room,
          row_of-append done t (omega (arith, h')),
          sym next,
          at_next,
          append_assoc done (t ∷ []) (cut ts).0,
        )
        refl
]

-- The parts behind the first.
abbrev later_segments : List Text → List (List Text)
later_segments [] = []
later_segments (t ∷ ts) = segments ts

segments_lem : (ts : List Text) → segments ts ≡ (cut ts).0 ∷ later_segments (cut ts).1
segments_lem [] = refl
segments_lem (t ∷ ts) = elim (Bool-cases (is_bar t)) [
  | inl bar ↦ rw bar refl
  | inr word ↦ rw (word, segments_lem ts) refl
]

trim-later :
    (seg rest : List Text)
    → seg ++ rest ≢ []
    → trim (seg ∷ later_segments rest) ≡ seg ∷ trim (segments (after_bar rest))
trim-later [] [] h = absurd (h refl)
trim-later (t ∷ seg) [] h = refl
trim-later seg (b ∷ rest) h =
    rw (segments_lem rest) (trim-cons seg (cut rest).0 (later_segments (cut rest).1))
  where
    trim-cons :
        (seg seg' : List Text) (segs : List (List Text))
        → trim (seg ∷ seg' ∷ segs) ≡ seg ∷ trim (seg' ∷ segs)
    trim-cons [] seg' segs = refl
    trim-cons (t ∷ seg) seg' segs = refl

append-cut : (ts : List Text) → (cut ts).0 ++ (cut ts).1 ≡ ts
append-cut [] = refl
append-cut (t ∷ ts) = elim (Bool-cases (is_bar t)) [
  | inl bar ↦ rw bar refl
  | inr word ↦ rw (word, append-cut ts) refl
]

segments-cut :
    (t : Text) (ts : List Text)
    → trim (segments (t ∷ ts)) ≡ (cut (t ∷ ts)).0 ∷ trim (segments (after_bar (cut (t ∷ ts)).1))
segments-cut t ts =
    ap trim (segments_lem (t ∷ ts))
    ∙ trim-later (cut (t ∷ ts)).0 (cut (t ∷ ts)).1
        (λ e. absurd (cons≢nil (sym (append-cut (t ∷ ts)) ∙ e)))

length-after_bar : (t : Text) (ts : List Text) → length (after_bar (cut (t ∷ ts)).1) ≤ length ts
length-after_bar t ts = elim (Bool-cases (is_bar t)) [
  | inl bar ↦ rw bar (omega arith)
  | inr word ↦ rw word (
      omega (
        arith,
        shorter (cut ts).1,
        length-append (cut ts).0 (cut ts).1,
        ap (λ (l : List Text). length l) (append-cut ts),
      ))
]
  where
    shorter : (l : List Text) → length (after_bar l) ≤ length l
    shorter [] = omega arith
    shorter (x ∷ l) = omega arith

AtMost-cut :
    (t : Text) (ts : List Text) (n : ℕ)
    → AtMost n (trim (segments (t ∷ ts)))
    → (length (cut (t ∷ ts)).0 ≤ n) × AtMost n (trim (segments (after_bar (cut (t ∷ ts)).1)))
AtMost-cut t ts n h = subst (AtMost n) (segments-cut t ts) h

fill_rows_lem :
    (fuel : ℕ) (ts : List Text) (i : ℕ)
    → length ts < fuel
    → AtMost 9 (trim (segments ts))
    → i + length (trim (segments ts)) ≤ 10
    → fill_rows fuel ts i ≡ some (map row_of (trim (segments ts)))
unfolding fill_rows
fill_rows_lem zero ts i f h n = absurd (omega arith)
fill_rows_lem (suc fuel) [] i f h n = refl
fill_rows_lem (suc fuel) (t ∷ ts) i f h n =
    let (short, shorts) = AtMost-cut t ts 9 h in
    let count = ap (λ (l : List (List Text)). length l) (segments-cut t ts) in
    let row = fill_row_lem (t ∷ ts) [] (omega (arith, short)) in
    let later =
      fill_rows_lem fuel (after_bar (cut (t ∷ ts)).1) (i + 1) (omega (arith, length-after_bar t ts))
        shorts (omega (arith, count)) in
    let room : (if is_bar t then true else ltb i 10) ≡ true =
      ground (arith, lt→ltb i 10 (omega (arith, count))) in
    rw (room, row, later, segments-cut t ts) refl

arguments-append : (ts : List Text) (row : Row) → arguments (map some ts ++ none ∷ row) ≡ some ts
unfolding arguments
arguments-append [] row = refl
arguments-append (t ∷ ts) row = rw (arguments-append ts row) refl

pub arguments-row_of : (ts : List Text) → length ts ≤ 9 → arguments (row_of ts) ≡ some ts
arguments-row_of ts h =
    let left : 10 - length ts ≡ suc (9 - length ts) = omega arith in
    ap (λ n. arguments (map some ts ++ replicate n none)) left
    ∙ arguments-append ts (replicate (9 - length ts) none)

all_arguments-row_of :
    (segs : List (List Text)) → AtMost 9 segs → all_arguments (map row_of segs) ≡ some segs
unfolding all_arguments
all_arguments-row_of [] h = refl
all_arguments-row_of (seg ∷ segs) (short, shorts) =
    rw (arguments-row_of seg short, all_arguments-row_of segs shorts) refl

-- A line of words is the commands that bars part, each of at most nine words: a line with no word has
-- none, and a bar that ends a line has no command behind it.
pub commands_lem :
    (ts : List Text)
    → AreWords ts
    → AtMost 9 (trim (segments ts))
    → length (trim (segments ts)) ≤ 10
    → commands (line_of ts) ≡ some (trim (segments ts))
unfolding commands
commands_lem ts solid short few =
    let rows = fill_rows_lem (suc (length ts)) ts 0 (omega arith) short (omega (arith, few)) in
    let room =
      lt→ltb (length (map row_of (trim (segments ts)))) 11
        (omega (arith, length-map (trim (segments ts)) row_of)) in
    rw (words-line_of ts solid, rows, room) (all_arguments-row_of (trim (segments ts)) short)
