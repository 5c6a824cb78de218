-- ===== src/Blocks/Dynamic.antt =====
-- cw01/zad1/library.c: the operations on the array of pointers but the search for the nearest sum.
-- Blocks stand on a heap; `none` is an access outside a block, or through a pointer that is not one.
pub mod Rows
pub mod Chars
pub mod Array
pub mod Insert
pub mod Remove
pub mod Overwrite
use agh_so.Prelude.{
  ℕ, zero, suc, ◌+◌, ◌-◌, ◌%◌, ◌^◌, Bool, List, [], ◌∷◌, ◌++◌, Option, none, some, ltb, leb, ◌==◌,
  if◌then◌else◌, ◌>>=◌, ◌>>◌, guard, length, get_elem?, get_or, set, take,
}
use agh_so.Prelude.Int.{ℤ, pos, negsuc}
use agh_so.CText.{Text}

pub record Heap : Type 0 where
  pub block : ℕ → Option Text
  pub next : ℕ

abbrev pub put_block : (ℕ → Option Text) → ℕ → Option Text → ℕ → Option Text
put_block f p c q = if p == q then c else f q

unfoldable pub free : Heap → ℕ → Option Heap
free h p = do c ← h.block p; some (record h { block = put_block h.block p none })

-- A write into a block.
unfoldable pub put : Text → ℕ → ℕ → Option Text
put c i v = do guard (ltb i (length c)); some (set c i v)

unfoldable pub put_chars : Text → ℕ → Text → Option Text
put_chars c i [] = some c
put_chars c i (x ∷ s) = do c' ← put c i x; put_chars c' (i + 1) s

-- `strcpy` writes the text and its NUL.
unfoldable pub put_text : Text → Text → Option Text
put_text c s = put_chars c 0 (s ++ 0 ∷ [])

-- `for (i = strlen(s); i < bl; i++) block[i] = '\0'`, with the rounds that are left.
unfoldable pub put_zeros : ℕ → Text → ℕ → Option Text
put_zeros zero c i = some c
put_zeros (suc rounds) c i = do c' ← put c i 0; put_zeros rounds c' (i + 1)

abbrev pub swap_rows : List ℕ → ℕ → ℕ → List ℕ
swap_rows ar i j = set (set ar i (get_or ar j 0)) j (get_or ar i 0)

-- `while (pos != n)` of `addBlockDynamic`, at `pos = n + k`.
unfoldable pub move_back : ℕ → ℕ → List ℕ → List ℕ
move_back zero n ar = ar
move_back (suc k) n ar = move_back k n (swap_rows ar (n + k) (n + k + 1))

-- `while (pos != al - 1)` of `deleteBlockDynamic`, at `pos = al - 1 - k`.
unfoldable pub move_end : ℕ → ℕ → List ℕ → List ℕ
move_end zero at ar = ar
move_end (suc k) at ar = move_end k (at + 1) (swap_rows ar (at + 1) at)

-- `strlen(s) > bl - 1` compares as `size_t`, so `bl - 1` wraps at 0.
abbrev pub too_long : ℕ → Text → Bool
too_long bl s = ltb ((bl + (2 ^ 64 - 1)) % 2 ^ 64) (length s)

unfoldable pub delete_block_dynamic : Heap → ℤ → ℕ → List ℕ → Option (Heap × List ℕ)
delete_block_dynamic h (negsuc _) al ar = some (h, ar)
delete_block_dynamic h (pos n) al ar =
    let moved = move_end (al - 1 - n) n ar in
    let deleted = do p ← get_elem? moved (al - 1); h' ← free h p; some (h', take (al - 1) moved)
    in if leb al n then some (h, ar) else deleted

-- Neither test returns: both only print.
unfoldable pub insert_block_dynamic : Heap → ℤ → ℕ → ℕ → Text → List ℕ → Option Heap
insert_block_dynamic h (negsuc _) al bl s ar = none
insert_block_dynamic h (pos n) al bl s ar = do
  p ← get_elem? ar n
  c ← h.block p
  c1 ← put_zeros (bl - length s) c (length s)
  c2 ← put_text c1 s
  some (record h { block = put_block h.block p (some c2) })

-- Frees the rows of the array from the first on.
unfoldable pub free_rows : Heap → List ℕ → Option Heap
free_rows h [] = some h
free_rows h (p ∷ ar) = do h' ← free h p; free_rows h' ar

unfoldable pub delete_array_dynamic : Heap → List ℕ → ℕ → Option Heap
delete_array_dynamic h ar al = free_rows h (take al ar)

-- `junk` is what `malloc` leaves in a new block, by address.
module _ (junk : ℕ → ℕ → Text) where
  abbrev pub malloc : Heap → ℕ → Heap
  malloc h size = record h {
    block = put_block h.block h.next (some (junk h.next size));
    next = h.next + 1;
  }

  -- The loop of `createArrayDynamic`, with the rounds that are left.
  unfoldable pub create_rows : ℕ → ℕ → Heap → Heap × List ℕ
  create_rows zero bl h = (h, [])
  create_rows (suc rounds) bl h =
      let (h', ar) = create_rows rounds bl (malloc h bl) in (h', h.next ∷ ar)

  unfoldable pub create_array_dynamic : ℕ → ℕ → Heap → Heap × List ℕ
  create_array_dynamic al bl h = create_rows al bl h

  unfoldable pub add_block_dynamic : Heap → ℤ → ℕ → ℕ → Text → List ℕ → Option (Heap × List ℕ)
  add_block_dynamic h (negsuc _) al bl s ar = some (h, ar)
  add_block_dynamic h (pos n) al bl s ar =
      let h1 = malloc h bl in
      let added = do
        c1 ← put_text (junk h.next bl) s
        c2 ← put_zeros (bl - length s) c1 (length s)
        some (
          record h1 { block = put_block h1.block h.next (some c2) },
          move_back (al - n) n (ar ++ h.next ∷ []),
        )
      in if leb al n then some (h, ar) else if too_long bl s then some (h, ar) else added
