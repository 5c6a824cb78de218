-- ===== src/Blocks/Dynamic/Chars.antt =====
-- The writes into one heap block of cw01/zad1/library.c.
use mathlib.Core.List.{append-nil, append_assoc}
use agh_so.Prelude.{
  ℕ, zero, suc, ◌+◌, ◌-◌, ◌≤◌, ◌<◌, ◌≡◌, refl, sym, ap, ◌∙◌, [], ◌∷◌, ◌++◌, some, none, arith,
  length, length-append, set, set-append, take, drop, take-append-drop, drop-append, length-take,
  length-drop, replicate, length-replicate, lt→ltb, ◌>>=◌, dec_lt, length-set,
}
use agh_so.CText.{Text}
use agh_so.Blocks.Dynamic.{put, put_chars, put_text, put_zeros}

put-append :
    (a : Text) (x : ℕ) (r : Text) (i v : ℕ)
    → i ≡ length a
    → put (a ++ x ∷ r) i v ≡ some (a ++ v ∷ r)
unfolding put
put-append a x r i v e = rw (
  lt→ltb i (length (a ++ x ∷ r)) (omega (arith, length-append a (x ∷ r))),
  set-append a x v r i e,
)

-- A text written over a stretch of its own length.
put_chars-append :
    (s a b r : Text) (i : ℕ)
    → i ≡ length a
    → length b ≡ length s
    → put_chars (a ++ (b ++ r)) i s ≡ some (a ++ (s ++ r))
unfolding put_chars
put_chars-append [] a [] r i e len = refl
put_chars-append [] a (y ∷ b) r i e len = absurd (omega arith)
put_chars-append (x ∷ s) a [] r i e len = absurd (omega arith)
put_chars-append (x ∷ s) a (y ∷ b) r i e len =
    rw (put-append a y (b ++ r) i x e, sym (append_assoc a (x ∷ []) (b ++ r)))
      (put_chars-append s (a ++ x ∷ []) b r (i + 1) (omega (arith, length-append a (x ∷ [])))
          (omega arith)
        ∙ ap some (append_assoc a (x ∷ []) (s ++ r)))

put_zeros-append :
    (b a r : Text) (i : ℕ)
    → i ≡ length a
    → put_zeros (length b) (a ++ (b ++ r)) i ≡ some (a ++ (replicate (length b) 0 ++ r))
unfolding put_zeros
put_zeros-append [] a r i e = refl
put_zeros-append (y ∷ b) a r i e =
    rw (put-append a y (b ++ r) i 0 e, sym (append_assoc a (0 ∷ []) (b ++ r)))
      (put_zeros-append b (a ++ 0 ∷ []) r (i + 1) (omega (arith, length-append a (0 ∷ [])))
        ∙ ap some (append_assoc a (0 ∷ []) (replicate (length b) 0 ++ r)))

-- A block of `bl` characters that holds `s` and zeros.
abbrev pub padded : ℕ → Text → Text
padded bl s = s ++ replicate (bl - length s) 0

pub length-padded : (bl : ℕ) (s : Text) → length s ≤ bl → length (padded bl s) ≡ bl
length-padded bl s h = omega (
  arith,
  length-append s (replicate (bl - length s) 0),
  length-replicate {A = ℕ} (bl - length s) 0,
)

length_nul : (s : Text) → length (s ++ 0 ∷ []) ≡ length s + 1
length_nul s = omega (arith, length-append s (0 ∷ []))

put_text-drop :
    (c s : Text) → length s < length c → put_text c s ≡ some (s ++ 0 ∷ drop (length s + 1) c)
unfolding put_text
put_text-drop c s h =
    ap (λ t. put_chars t 0 (s ++ 0 ∷ [])) (sym (take-append-drop (length s + 1) c))
    ∙ put_chars-append (s ++ 0 ∷ []) [] (take (length s + 1) c) (drop (length s + 1) c) 0 refl
        (omega (arith, length-take (length s + 1) c, length_nul s))
    ∙ ap some (append_assoc s (0 ∷ []) (drop (length s + 1) c))

-- `put_zeros` from place `length a` to the end.
put_zeros-rest :
    (a r : Text) (n i : ℕ)
    → n ≡ length r
    → i ≡ length a
    → put_zeros n (a ++ r) i ≡ some (a ++ replicate n 0)
put_zeros-rest a r n i e ei =
    let here : put_zeros (length r) (a ++ r) i ≡ some (a ++ replicate (length r) 0) =
      ap (λ t. put_zeros (length r) (a ++ t) i) (sym (append-nil r))
      ∙ put_zeros-append r a [] i ei
      ∙ ap (λ t. some (a ++ t)) (append-nil (replicate (length r) 0)) in
    rw e here

-- The writes of `addBlockDynamic` into the new block.
pub fill_new :
    (c s : Text) (bl : ℕ)
    → length c ≡ bl
    → length s < bl
    → (put_text c s >>= λ c1. put_zeros (bl - length s) c1 (length s)) ≡ some (padded bl s)
fill_new c s bl e h = rw (put_text-drop c s (omega arith)) (
    put_zeros-rest s (0 ∷ drop (length s + 1) c) (bl - length s) (length s)
      (omega (arith, length-drop (length s + 1) c)) refl)

drop-zeros :
    (t : Text) (k n : ℕ)
    → n ≡ length t + 1
    → 0 < k
    → 0 ∷ drop n (t ++ replicate k 0) ≡ replicate k 0
drop-zeros t zero n e h = absurd (omega arith)
drop-zeros t (suc k) n e h =
    ap (λ u. 0 ∷ drop n u) (sym (append_assoc t (0 ∷ []) (replicate k 0)))
    ∙ ap (λ u. 0 ∷ u)
        (drop-append (t ++ 0 ∷ []) (replicate k 0) n (omega (arith, length-append t (0 ∷ []))))

-- The writes of `insertBlockDynamic` into an old one.
pub fill_old :
    (c s : Text) (bl : ℕ)
    → length c ≡ bl
    → length s < bl
    → (put_zeros (bl - length s) c (length s) >>= λ c1. put_text c1 s) ≡ some (padded bl s)
fill_old c s bl e h =
    let k = bl - length s in
    let t = take (length s) c in
    let size : length s ≡ length t = omega (arith, length-take (length s) c) in
    let filled : put_zeros k c (length s) ≡ some (t ++ replicate k 0) =
      ap (λ u. put_zeros k u (length s)) (sym (take-append-drop (length s) c))
      ∙ put_zeros-rest t (drop (length s) c) k (length s) (omega (arith, length-drop (length s) c))
          size in
    let room : length s < length (t ++ replicate k 0) =
      omega (arith, length-append t (replicate k 0), length-replicate {A = ℕ} k 0) in
    rw filled (
      put_text-drop (t ++ replicate k 0) s room
      ∙ ap (λ u. some (s ++ u)) (drop-zeros t k (length s + 1) (omega arith) (omega arith)))

put_inside : (c : Text) (i v : ℕ) → i < length c → put c i v ≡ some (set c i v)
unfolding put
put_inside c i v h = rw (lt→ltb i (length c) h)

put_outside : (c : Text) (i v : ℕ) → length c ≤ i → put c i v ≡ none
unfolding put
put_outside c i v h = ground arith

-- A text that does not fit is written past the end of the block.
put_chars-overrun :
    (t c : Text) (i : ℕ) → i ≤ length c → length c < i + length t → put_chars c i t ≡ none
unfolding put_chars
put_chars-overrun [] c i h over = absurd (omega arith)
put_chars-overrun (x ∷ t) c i h over = elim (dec_lt i (length c)) [
  | yes lt ↦ rw (put_inside c i x lt) (
      put_chars-overrun t (set c i x) (i + 1) (omega (arith, length-set c i x))
        (omega (arith, length-set c i x)))
  | no ge ↦ rw (put_outside c i x (omega arith))
]

pub put_text-overrun : (c s : Text) → length c ≤ length s → put_text c s ≡ none
unfolding put_text
put_text-overrun c s h =
    put_chars-overrun (s ++ 0 ∷ []) c 0 (omega arith) (omega (arith, length_nul s))
