-- ===== src/Blocks/Static/Create.antt =====
-- `createArrayStatic` and `deleteArrayStatic` of cw01/zad1/library.c.
use agh_so.Prelude.{
  ℕ, zero, suc, ◌+◌, ◌-◌, ◌*◌, ◌≤◌, ◌<◌, ◌≡◌, refl, ap, ◌∙◌, inl, some, arith, lt→ltb, ℕ_discrete,
}
use agh_so.Blocks.Bytes.{Memory, no_blocks, so_blocks, total_bytes, update, store}
use agh_so.Blocks.Static.{create_row, create_from, create_array_static, delete_array_static}
use agh_so.Blocks.Static.Write.{memset_lem, SameOutside}

-- What `createArrayStatic` leaves in a block.
abbrev pub IsInitial : Memory → ℕ → Type 0
IsInitial m n =
    ((i : ℕ) → i < so_blocks - 1 → m (n * so_blocks + i) ≡ b'A')
    × (m (n * so_blocks + (so_blocks - 1)) ≡ 0)

create_row_lem :
    (m : Memory) (n : ℕ)
    → n < no_blocks
    → (m' : Memory) × (create_row m n ≡ some m') × IsInitial m' n × SameOutside n m m'
unfolding create_row store
create_row_lem m n h =
    let (m1, done, letters, same) =
      memset_lem (so_blocks - 1) m (n * so_blocks) b'A' (omega arith) in
    (
      update m1 (n * so_blocks + (so_blocks - 1)) 0,
      rw (done, lt→ltb (n * so_blocks + (so_blocks - 1)) total_bytes (omega arith)),
      (λ i lt. ground (arith, letters i), ground arith),
      λ j out. ground (arith, same j),
    )

create_from_lem :
    (rounds : ℕ) (m : Memory) (i : ℕ)
    → i + rounds ≤ no_blocks
    → (m' : Memory) × (create_from rounds m i ≡ some m')
      × ((n : ℕ) → i ≤ n → n < i + rounds → IsInitial m' n)
      × ((j : ℕ) → j < i * so_blocks → m' j ≡ m j)
unfolding create_from
create_from_lem zero m i h = (m, refl, λ n ge lt. absurd (omega arith), λ j lt. refl)
create_from_lem (suc rounds) m i h =
    let (m1, first, initial, same) = create_row_lem m i (omega arith) in
    let (m2, rest, later, before) = create_from_lem rounds m1 (i + 1) (omega arith) in
    (
      m2,
      rw (first, rest),
      λ n ge lt. elim (ℕ_discrete n i) [
        | yes e ↦
            rw e (
              λ k lt'. before _ (omega arith) ∙ initial.0 k lt',
              before _ (omega arith) ∙ initial.1,
            )
        | no ne ↦ later n (omega arith) (omega arith)
      ],
      λ j lt. before j (omega arith) ∙ same j (inl lt),
    )

-- `createArrayStatic` writes a string of 99 letters into every block.
pub create_array_static_lem :
    (m : Memory)
    → (m' : Memory) × (create_array_static m ≡ some m') × ((n : ℕ) → n < no_blocks → IsInitial m' n)
unfolding create_array_static
create_array_static_lem m =
    let (m', done, initial, _) = create_from_lem no_blocks m 0 (omega arith) in
    (m', done, λ n lt. initial n (omega arith) (omega arith))

-- `deleteArrayStatic` sets every byte of the array to zero.
pub delete_array_static_lem :
    (m : Memory)
    → (m' : Memory) × (delete_array_static m ≡ some m') × ((i : ℕ) → i < total_bytes → m' i ≡ 0)
unfolding delete_array_static
delete_array_static_lem m =
    let (m', done, zeros, _) = memset_lem total_bytes m 0 0 (omega arith) in
    (m', done, λ i lt. ap m' (omega arith) ∙ zeros i lt)
