-- ===== src/Blocks/Bytes/Copy.antt =====
-- What a run of writes leaves in the static array of cw01/zad1/library.c.
use agh_so.Prelude.{
  ℕ, zero, suc, ◌+◌, ◌≤◌, ◌<◌, ◌≡◌, refl, ◌∙◌, ap, [], ◌∷◌, some, arith, lt→ltb, ◌⊎◌, length,
  get_or, replicate,
}
use agh_so.CText.{Text}
use agh_so.Blocks.Bytes.{Memory, total_bytes, update, store, copy_chars, memset}

-- The memory with a text laid over it.
abbrev pub overlay : Memory → ℕ → Text → Memory
overlay m i [] = m
overlay m i (c ∷ s) = overlay (update m i c) (i + 1) s

pub copy_chars-overlay :
    (m : Memory) (i : ℕ) (s : Text)
    → i + length s ≤ total_bytes
    → copy_chars m i s ≡ some (overlay m i s)
unfolding copy_chars store
copy_chars-overlay m i [] h = refl
copy_chars-overlay m i (c ∷ s) h =
    rw (lt→ltb i total_bytes (omega arith))
      (copy_chars-overlay (update m i c) (i + 1) s (omega arith))

pub memset-overlay :
    (count : ℕ) (m : Memory) (i v : ℕ)
    → i + count ≤ total_bytes
    → memset count m i v ≡ some (overlay m i (replicate count v))
unfolding memset store
memset-overlay zero m i v h = refl
memset-overlay (suc count) m i v h =
    rw (lt→ltb i total_bytes (omega arith))
      (memset-overlay count (update m i v) (i + 1) v (omega arith))

-- Outside the text nothing changes.
pub overlay-outside :
    (m : Memory) (i : ℕ) (s : Text) (j : ℕ) → (j < i) ⊎ (i + length s ≤ j) → overlay m i s j ≡ m j
overlay-outside m i [] j h = refl
overlay-outside m i (c ∷ s) j h = ground (arith, overlay-outside (update m i c) (i + 1) s j)

-- Inside it the text stands.
pub overlay-inside :
    (m : Memory) (i : ℕ) (s : Text) (k : ℕ) → k < length s → overlay m i s (i + k) ≡ get_or s k 0
overlay-inside m i [] k h = elim h [ ]
overlay-inside m i (c ∷ s) zero h = ground (arith, overlay-outside (update m i c) (i + 1) s (i + 0))
overlay-inside m i (c ∷ s) (suc k) h =
    ap (overlay (update m i c) (i + 1) s) (omega arith)
    ∙ overlay-inside (update m i c) (i + 1) s k (omega arith)
