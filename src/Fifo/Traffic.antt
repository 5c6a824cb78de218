-- ===== src/Fifo/Traffic.antt =====
-- What the master of cw05/zad2 reads is what the slaves write.
use mathlib.Core.List.{append_assoc, append-nil}
use agh_so.Prelude.{
  ℕ, ◌≡◌, refl, sym, ap, ◌∙◌, Bool-cases, inl, inr, List, [], ◌∷◌, ◌++◌, arith, ◌==◌, if◌then◌else◌,
  take, drop, take-append-drop,
}
use agh_so.CText.{Text}
use agh_so.Fifo.{Pipe, Move, Reach}

abbrev pub concat : List Text → Text
concat [] = []
concat (t ∷ ts) = t ++ concat ts

abbrev pub texts : List (ℕ × Text) → List Text
texts [] = []
texts (w ∷ ws) = w.1 ∷ texts ws

-- What a slave has written.
abbrev pub texts_of : ℕ → List (ℕ × Text) → List Text
texts_of i [] = []
texts_of i (w ∷ ws) = if w.0 == i then w.1 ∷ texts_of i ws else texts_of i ws

concat-append : (ts : List Text) (t : Text) → concat (ts ++ t ∷ []) ≡ concat ts ++ t
concat-append [] t = append-nil t
concat-append (u ∷ ts) t =
    ap (λ l. u ++ l) (concat-append ts t) ∙ sym (append_assoc u (concat ts) t)

texts-append :
    (ws : List (ℕ × Text)) (i : ℕ) (m : Text) → texts (ws ++ (i, m) ∷ []) ≡ texts ws ++ m ∷ []
texts-append [] i m = refl
texts-append (w ∷ ws) i m = ap (λ l. w.1 ∷ l) (texts-append ws i m)

texts_of-append :
    (j : ℕ) (ws : List (ℕ × Text)) (i : ℕ) (m : Text)
    → texts_of j (ws ++ (i, m) ∷ []) ≡ texts_of j ws ++ (if i == j then m ∷ [] else [])
texts_of-append j [] i m = elim (Bool-cases (i == j)) [
  | inl same ↦ rw same refl
  | inr other ↦ rw other refl
]
texts_of-append j (w ∷ ws) i m = elim (Bool-cases (w.0 == j)) [
  | inl same ↦ rw same (ap (λ l. w.1 ∷ l) (texts_of-append j ws i m))
  | inr other ↦ rw other (texts_of-append j ws i m)
]

-- In every state that slaves and master can come to: the lines of each slave are those that it has
-- written and those that it has still to write, in order; and the bytes of all that has been written,
-- line after line, are those that the master has read, in pieces of no more than PIPE_BUF, and those in
-- the FIFO.
pub traffic_lem :
    {slaves : ℕ → List Text} {s : Pipe}
    → Reach slaves s
    → ((i : ℕ) → slaves i ≡ texts_of i s.written ++ s.slaves i)
      × (concat (texts s.written) ≡ concat s.read ++ s.fifo)
traffic_lem Reach.begin = ((λ i. refl), refl)
traffic_lem {slaves} (Reach.later {s = s} r (Move.write i m ms at)) =
    let (lines, bytes) = traffic_lem r in
    (
      (λ j. lines j ∙ elim (Bool-cases (i == j)) [
        | inl same ↦
            let same_slave : i ≡ j = ground arith in
            let rest : s.slaves j ≡ m ∷ ms = ap s.slaves (sym same_slave) ∙ at in
            rw (texts_of-append j s.written i m, same, rest)
              (sym (append_assoc (texts_of j s.written) (m ∷ []) ms))
        | inr other ↦
            rw (texts_of-append j s.written i m, other)
              (ap (λ l. l ++ s.slaves j) (sym (append-nil (texts_of j s.written))))
      ]),
      ap concat (texts-append s.written i m)
          ∙ concat-append (texts s.written) m
          ∙ ap (λ l. l ++ m) bytes
          ∙ append_assoc (concat s.read) s.fifo m,
    )
traffic_lem (Reach.later {s = s} r (Move.read n some_bytes fits there)) =
    let (lines, bytes) = traffic_lem r in
    (
      lines,
      bytes
          ∙ ap (λ l. concat s.read ++ l) (sym (take-append-drop n s.fifo))
          ∙ sym (append_assoc (concat s.read) (take n s.fifo) (drop n s.fifo))
          ∙ ap (λ l. l ++ drop n s.fifo) (sym (concat-append s.read (take n s.fifo))),
    )
