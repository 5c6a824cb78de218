-- ===== src/Blocks/Static/Write.antt =====
-- What the writes of cw01/zad1/library.c leave in `StaticArray`.
use agh_so.Prelude.{
  ℕ, zero, suc, ◌+◌, ◌-◌, ◌*◌, ◌≤◌, ◌<◌, ◌≡◌, refl, ◌∙◌, ap, ◌⊎◌, inl, none, some, arith, lt→ltb,
  ◌==◌, if◌then◌else◌, length, get_or, replicate, length-replicate,
}
use agh_so.Prelude.Int.{pos}
use agh_so.CText.{Text}
use agh_so.Blocks.Bytes.{Memory, no_blocks, so_blocks, total_bytes, update, store, strcpy, memset}
use agh_so.Blocks.Bytes.Copy.{
  overlay, copy_chars-overlay, memset-overlay, overlay-outside, overlay-inside,
}
use agh_so.Blocks.Static.{write_block, insert_block_static, delete_block_static}

get_or-replicate : (count v k : ℕ) → k < count → get_or (replicate count v) k 0 ≡ v
get_or-replicate zero v k h = elim h [ ]
get_or-replicate (suc count) v zero h = refl
get_or-replicate (suc count) v (suc k) h = get_or-replicate count v k (omega arith)

-- The bytes of a run of `memset`.
pub memset_lem :
    (count : ℕ) (m : Memory) (i v : ℕ)
    → i + count ≤ total_bytes
    → (m' : Memory) × (memset count m i v ≡ some m')
      × ((k : ℕ) → k < count → m' (i + k) ≡ v)
      × ((j : ℕ) → (j < i) ⊎ (i + count ≤ j) → m' j ≡ m j)
memset_lem count m i v h = (
  overlay m i (replicate count v),
  memset-overlay count m i v h,
  λ k lt.
      overlay-inside m i (replicate count v) k (omega (arith, length-replicate count v))
      ∙ get_or-replicate count v k lt,
  λ j out. overlay-outside m i (replicate count v) j (omega (arith, length-replicate count v)),
)

-- `s` and zeros up to the end of block `n`.
pub record Holds (m : Memory) (n : ℕ) (s : Text) : Type 0 where
  pub text : (i : ℕ) → i < length s → m (n * so_blocks + i) ≡ get_or s i 0
  pub padding : (i : ℕ) → length s ≤ i → i < so_blocks → m (n * so_blocks + i) ≡ 0

-- All bytes but those of block `n` are the same.
abbrev pub SameOutside : ℕ → Memory → Memory → Type 0
SameOutside n m m' = (j : ℕ) → (j < n * so_blocks) ⊎ ((n + 1) * so_blocks ≤ j) → m' j ≡ m j

-- The memory after `write_block`.
written : Memory → ℕ → Text → Memory
written m n s =
    let base = n * so_blocks in
    overlay (overlay (update (overlay m base s) (base + length s) 0) base s) (base + length s)
      (replicate (so_blocks - length s) 0)

write_block-written :
    (m : Memory) (n : ℕ) (s : Text)
    → n * so_blocks + length s < total_bytes
    → n < no_blocks
    → length s ≤ so_blocks
    → write_block m n s ≡ some (written m n s)
unfolding write_block strcpy store written
write_block-written m n s h hn hs =
    rw
      (
        copy_chars-overlay m (n * so_blocks) s (omega arith),
        lt→ltb _ _ h,
        copy_chars-overlay (update (overlay m (n * so_blocks) s) (n * so_blocks + length s) 0)
            (n * so_blocks) s (omega arith),
      )
      (memset-overlay (so_blocks - length s) _ (n * so_blocks + length s) 0 (omega arith))

-- Outside the block and the byte behind the text nothing changes.
written-outside :
    (m : Memory) (n : ℕ) (s : Text) (j : ℕ)
    → length s ≤ so_blocks
    → (j < n * so_blocks) ⊎ ((n + 1) * so_blocks ≤ j)
    → written m n s j ≡ update m (n * so_blocks + length s) 0 j
unfolding written
written-outside m n s j h out =
    let base = n * so_blocks in
    let m1 = overlay m base s in
    overlay-outside (overlay (update m1 (base + length s) 0) base s) (base + length s)
      (replicate (so_blocks - length s) 0) j
      (omega (arith, length-replicate {A = ℕ} (so_blocks - length s) 0))
    ∙ overlay-outside (update m1 (base + length s) 0) base s j (omega arith)
    ∙ ap (λ v. if base + length s == j then 0 else v) (overlay-outside m base s j (omega arith))

written-Holds : (m : Memory) (n : ℕ) (s : Text) → length s ≤ so_blocks → Holds (written m n s) n s
unfolding written
written-Holds m n s h = record {
  text = λ i lt.
      overlay-outside
        (overlay (update (overlay m (n * so_blocks) s) (n * so_blocks + length s) 0) (n * so_blocks)
          s)
        (n * so_blocks + length s) (replicate (so_blocks - length s) 0) (n * so_blocks + i)
        (inl (omega arith))
      ∙ overlay-inside (update (overlay m (n * so_blocks) s) (n * so_blocks + length s) 0)
          (n * so_blocks) s i lt;
  padding = λ i ge lt. tail i ge lt;
}
  where
    tail : (i : ℕ) → length s ≤ i → i < so_blocks → written m n s (n * so_blocks + i) ≡ 0
    tail i ge lt =
        ap (written m n s) (omega arith)
        ∙ overlay-inside
            (overlay (update (overlay m (n * so_blocks) s) (n * so_blocks + length s) 0)
              (n * so_blocks) s)
            (n * so_blocks + length s) (replicate (so_blocks - length s) 0) (i - length s)
            (omega (arith, length-replicate {A = ℕ} (so_blocks - length s) 0))
        ∙ get_or-replicate (so_blocks - length s) 0 (i - length s) (omega arith)

insert_block_static-write :
    (m : Memory) (n : ℕ) (s : Text)
    → n < no_blocks
    → length s ≤ so_blocks
    → insert_block_static m (pos n) s ≡ write_block m n s
unfolding insert_block_static
insert_block_static-write m n s hn hs = ground arith

store-outside : (m : Memory) (i v : ℕ) → total_bytes ≤ i → store m i v ≡ none
unfolding store
store-outside m i v h = ground arith

write_block-none :
    (m : Memory) (n : ℕ) (s : Text)
    → n * so_blocks + length s ≤ total_bytes
    → total_bytes ≤ n * so_blocks + length s
    → write_block m n s ≡ none
unfolding write_block strcpy
write_block-none m n s h ge = rw (
  copy_chars-overlay m (n * so_blocks) s h,
  store-outside (overlay m (n * so_blocks) s) (n * so_blocks + length s) 0 ge,
)

-- A text shorter than a block, at an index of the array: the block then holds the text and zeros,
-- and all other blocks are as before.
pub insert_block_static_lem :
    (m : Memory) (n : ℕ) (s : Text)
    → n < no_blocks
    → length s < so_blocks
    → (m' : Memory) × (insert_block_static m (pos n) s ≡ some m')
      × Holds m' n s
      × SameOutside n m m'
insert_block_static_lem m n s hn hs = (
  written m n s,
  insert_block_static-write m n s hn (omega arith)
      ∙ write_block-written m n s (omega arith) hn (omega arith),
  written-Holds m n s (omega arith),
  λ j out. written-outside m n s j (omega arith) out ∙ ground arith,
)

-- A text of exactly `SoBlocks` characters passes the test, and its NUL is written over the first
-- character of the next block, whatever stood there; behind the last block that is undefined.
pub insert_block_static_overrun :
    (m : Memory) (n : ℕ) (s : Text)
    → length s ≡ so_blocks
    → (n + 1 < no_blocks
        → (m' : Memory) × (insert_block_static m (pos n) s ≡ some m')
          × (m' ((n + 1) * so_blocks) ≡ 0))
      × (n + 1 ≡ no_blocks → insert_block_static m (pos n) s ≡ none)
insert_block_static_overrun m n s hs = (
  λ hn. (
    written m n s,
    insert_block_static-write m n s (omega arith) (omega arith)
        ∙ write_block-written m n s (omega arith) (omega arith) (omega arith),
    written-outside m n s ((n + 1) * so_blocks) (omega arith) (omega arith) ∙ ground arith,
  ),
  λ hn.
      insert_block_static-write m n s (omega arith) (omega arith)
      ∙ write_block-none m n s (omega arith) (omega arith),
)

-- For an index outside the array `deleteBlockStatic` writes nothing. Otherwise it sets the block to
-- zeros and leaves all others.
delete_block_static_lem :
    (m : Memory) (n : ℕ)
    → (no_blocks ≤ n → delete_block_static m (pos n) ≡ some m)
      × (n < no_blocks
          → (m' : Memory) × (delete_block_static m (pos n) ≡ some m')
            × ((i : ℕ) → i < so_blocks → m' (n * so_blocks + i) ≡ 0)
            × SameOutside n m m')
unfolding delete_block_static
delete_block_static_lem m n = (
  λ ge. ground arith,
  λ lt.
      let (m', done, zeros, same) = memset_lem so_blocks m (n * so_blocks) 0 (omega arith) in
      (m', rw done (ground arith), zeros, λ j out. same j (omega arith)),
)
