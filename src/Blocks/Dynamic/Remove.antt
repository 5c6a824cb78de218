-- ===== src/Blocks/Dynamic/Remove.antt =====
-- `deleteBlockDynamic` of cw01/zad1/library.c, and adding undone by it.
use mathlib.Core.Path.{subst₂, ap₂}
use mathlib.Core.List.{append_assoc, map-append}
use agh_so.Prelude.{
  ℕ, zero, suc, ◌+◌, ◌-◌, ◌^◌, ◌≤◌, ◌<◌, ◌≡◌, refl, sym, ap, ◌∙◌, List, [], ◌∷◌, ◌++◌, Option, some,
  none, arith, length, length-append, length-map, get_elem?, take, drop, take-append, drop-append,
  cut_at,
}
use agh_so.Prelude.Int.{pos}
use agh_so.CText.{Text}
use agh_so.Blocks.Dynamic.{Heap, put_block, free, move_end, add_block_dynamic, delete_block_dynamic}
use agh_so.Blocks.Dynamic.Rows.{move_end-append}
use agh_so.Blocks.Dynamic.Chars.{padded}
use agh_so.Blocks.Dynamic.Array.{contents, IsArray, contents-remove, row_allocated}
use agh_so.Blocks.Dynamic.Insert.{not_leb, add_block_dynamic_lem}

contents_without :
    (h : Heap) (a : List ℕ) (x : ℕ) (b : List ℕ)
    → take (length a) (contents h (a ++ x ∷ b)) ++ drop (length a + 1) (contents h (a ++ x ∷ b))
      ≡ contents h a ++ contents h b
contents_without h a x b =
    let size : length a ≡ length (contents h a) = sym (length-map a h.block) in
    let front : contents h (a ++ x ∷ b) ≡ (contents h a ++ h.block x ∷ []) ++ contents h b =
      map-append h.block a (x ∷ b)
      ∙ sym (append_assoc (contents h a) (h.block x ∷ []) (contents h b)) in
    ap₂ ◌++◌
      (ap (take (length a)) (map-append h.block a (x ∷ b))
        ∙ take-append (contents h a) (contents h (x ∷ b)) (length a) size)
      (ap (drop (length a + 1)) front
        ∙ drop-append (contents h a ++ h.block x ∷ []) (contents h b) (length a + 1)
            (omega (arith, size, length-append (contents h a) (h.block x ∷ []))))

get_elem?-append : (a : List ℕ) (x : ℕ) (b : List ℕ) → get_elem? (a ++ x ∷ b) (length a) ≡ some x
get_elem?-append [] x b = refl
get_elem?-append (y ∷ a) x b = get_elem?-append a x b

-- What a successful `deleteBlockDynamic` gives: the block at index `n` is gone, and the other blocks
-- keep their order and texts.
pub record Deleted (h : Heap) (n bl : ℕ) (ar : List ℕ) : Type 0 where
  pub heap : Heap
  pub array : List ℕ
  pub result : delete_block_dynamic h (pos n) (length ar) ar ≡ some (heap, array)
  pub texts : contents heap array ≡ take n (contents h ar) ++ drop (n + 1) (contents h ar)
  pub valid : IsArray heap bl array
  pub size : length array + 1 ≡ length ar

free-some :
    (h : Heap) (p : ℕ) (c : Text)
    → h.block p ≡ some c
    → free h p ≡ some (record h { block = put_block h.block p none })
unfolding free
free-some h p c e = rw e

delete_block-append :
    (h : Heap) (a : List ℕ) (x : ℕ) (b : List ℕ) (c : Text)
    → h.block x ≡ some c
    → delete_block_dynamic h (pos (length a)) (length (a ++ x ∷ b)) (a ++ x ∷ b)
      ≡ some (record h { block = put_block h.block x none }, a ++ b)
unfolding delete_block_dynamic
delete_block-append h a x b c e =
    let al = length (a ++ x ∷ b) in
    let last : al - 1 ≡ length (a ++ b) =
      omega (arith, length-append a (x ∷ b), length-append a b) in
    let rounds : al - 1 - length a ≡ length b = omega (arith, length-append a (x ∷ b)) in
    let moved : move_end (al - 1 - length a) (length a) (a ++ x ∷ b) ≡ (a ++ b) ++ x ∷ [] =
      ap (λ k. move_end k (length a) (a ++ x ∷ b)) rounds
      ∙ move_end-append b a x (length a) refl
      ∙ sym (append_assoc a b (x ∷ [])) in
    rw (
      not_leb a (x ∷ b) (λ e. cc),
      moved,
      last,
      get_elem?-append (a ++ b) x [],
      free-some h x c e,
      take-append (a ++ b) (x ∷ []) (length (a ++ b)) refl,
    )

-- A block at an index of the array is freed and its row taken out.
pub delete_block_dynamic_lem :
    (h : Heap) (n bl : ℕ) (ar : List ℕ) → IsArray h bl ar → n < length ar → Deleted h n bl ar
delete_block_dynamic_lem h n bl ar v hn =
    let (a, x, b, e, len) = cut_at ar n hn in
    subst₂ (λ k l. IsArray h bl l → Deleted h k bl l) len (sym e) (at a x b) v
  where
    at :
        (a : List ℕ) (x : ℕ) (b : List ℕ)
        → IsArray h bl (a ++ x ∷ b)
        → Deleted h (length a) bl (a ++ x ∷ b)
    at a x b v' =
        let (c, e) = row_allocated h.block bl x a b v'.rows in
        let (texts, valid) = contents-remove h bl x a b v' in
        record {
          heap = record h { block = put_block h.block x none };
          array = a ++ b;
          result = delete_block-append h a x b c e;
          texts = texts ∙ sym (contents_without h a x b);
          valid = valid;
          size = omega (arith, length-append a (x ∷ b), length-append a b);
        }

insert_then_remove :
    (l : List (Option Text)) (n : ℕ) (x : Option Text)
    → n ≤ length l
    → (let l' = take n l ++ x ∷ drop n l in take n l' ++ drop (n + 1) l') ≡ l
insert_then_remove l zero x h = refl
insert_then_remove [] (suc n) x h = absurd (omega arith)
insert_then_remove (y ∷ l) (suc n) x h =
    let e : suc n + 1 ≡ suc (n + 1) = omega arith in
    rw e (ap (λ t. y ∷ t) (insert_then_remove l n x (omega arith)))

-- A block that has been added can be deleted again: the texts are those of before.
delete_block-add_block :
    (junk : ℕ → ℕ → Text) (h : Heap) (n bl : ℕ) (s : Text) (ar : List ℕ)
    → ((p k : ℕ) → length (junk p k) ≡ k)
    → IsArray h bl ar
    → n < length ar
    → length s < bl
    → bl < 2 ^ 31
    → (h1 h2 : Heap) × (ar1 ar2 : List ℕ) × (add_block_dynamic junk h (pos n) (length ar) bl s ar
        ≡ some (h1, ar1))
      × (delete_block_dynamic h1 (pos n) (length ar + 1) ar1 ≡ some (h2, ar2))
      × (contents h2 ar2 ≡ contents h ar)
delete_block-add_block junk h n bl s ar size v hn hs small =
    let added = add_block_dynamic_lem junk h n bl s ar size v hn hs small in
    let deleted =
      delete_block_dynamic_lem added.heap n bl added.array added.valid
        (omega (arith, added.size)) in
    (
      added.heap,
      deleted.heap,
      added.array,
      deleted.array,
      added.result,
      ap (λ k. delete_block_dynamic added.heap (pos n) k added.array) (sym added.size)
          ∙ deleted.result,
      deleted.texts
          ∙ ap (λ l. take n l ++ drop (n + 1) l) added.texts
          ∙ insert_then_remove (contents h ar) n (some (padded bl s))
              (omega (arith, length-map ar h.block)),
    )
