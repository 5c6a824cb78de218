-- ===== src/Blocks/Dynamic/Insert.antt =====
-- `addBlockDynamic` of cw01/zad1/library.c.
use mathlib.Core.Path.{subst₂, fun_ext}
use mathlib.Core.List.{append-nil, append_assoc, map-append}
use agh_so.Prelude.{
  ℕ, ◌+◌, ◌-◌, ◌%◌, ◌^◌, ◌<◌, ◌≡◌, refl, sym, ap, ◌∙◌, ◌≢◌, false, List, [], ◌∷◌, ◌++◌, Option,
  some, arith, length, length-append, length-map, take, drop, take-append, drop-append, cut_at, leb,
  >>=-eq-some,
}
use agh_so.Prelude.Int.{pos}
use agh_so.CText.{Text}
use agh_so.Blocks.Dynamic.{
  Heap, put_block, put_text, put_zeros, move_back, too_long, add_block_dynamic,
}
use agh_so.Blocks.Dynamic.Rows.{move_back-append}
use agh_so.Blocks.Dynamic.Chars.{padded, length-padded, fill_new}
use agh_so.Blocks.Dynamic.Array.{contents, IsArray, contents-insert}

pub not_leb : (a b : List ℕ) → b ≢ [] → leb (length (a ++ b)) (length a) ≡ false
not_leb a [] ne = absurd (ne refl)
not_leb a (x ∷ b) ne = ground (arith, length-append a (x ∷ b))

-- The texts of two parts, cut apart again.
contents_cut :
    (h : Heap) (a b : List ℕ) (c : Option Text)
    → take (length a) (contents h (a ++ b)) ++ c ∷ drop (length a) (contents h (a ++ b))
      ≡ contents h a ++ c ∷ contents h b
contents_cut h a b c =
    let size : length a ≡ length (contents h a) = sym (length-map a h.block) in
    rw (
      map-append h.block a b,
      take-append (contents h a) (contents h b) (length a) size,
      drop-append (contents h a) (contents h b) (length a) size,
    )

put_block-put_block :
    (f : ℕ → Option Text) (p : ℕ) (c d : Option Text)
    → put_block (put_block f p c) p d ≡ put_block f p d
put_block-put_block f p c d = fun_ext λ q. ground arith

not_too_long : (bl : ℕ) (s : Text) → length s < bl → bl < 2 ^ 31 → too_long bl s ≡ false
not_too_long bl s h small =
    let wrapped : (bl + (2 ^ 64 - 1)) % 2 ^ 64 ≡ bl - 1 = omega arith in rw wrapped (ground arith)

-- The heap after a new block.
abbrev grown : Heap → Text → Heap
grown h c = record h { block = put_block h.block h.next (some c); next = h.next + 1 }

module _ (junk : ℕ → ℕ → Text) (size : (p k : ℕ) → length (junk p k) ≡ k) where
  -- `addBlockDynamic` at the end of a first part of the array.
  add_block-append :
      (h : Heap) (a b : List ℕ) (bl : ℕ) (s : Text)
      → b ≢ []
      → length s < bl
      → bl < 2 ^ 31
      → add_block_dynamic junk h (pos (length a)) (length (a ++ b)) bl s (a ++ b)
        ≡ some (grown h (padded bl s), a ++ h.next ∷ b)
  unfolding add_block_dynamic
  add_block-append h a b bl s ne hs small =
      let (c1, text, zeros) =
        >>=-eq-some (put_text (junk h.next bl) s) (λ c1. put_zeros (bl - length s) c1 (length s))
          (fill_new (junk h.next bl) s bl (size h.next bl) hs) in
      let inside : leb (length (a ++ b)) (length a) ≡ false = not_leb a b ne in
      let moved : move_back (length (a ++ b) - length a) (length a) ((a ++ b) ++ h.next ∷ [])
          ≡ a ++ h.next ∷ b =
        ap (move_back (length (a ++ b) - length a) (length a)) (append_assoc a b (h.next ∷ []))
        ∙ move_back-append (length (a ++ b) - length a) a b h.next [] (length a) refl
            (omega (arith, length-append a b))
        ∙ ap (λ l. a ++ h.next ∷ l) (append-nil b) in
      rw (
        inside,
        not_too_long bl s hs small,
        text,
        zeros,
        moved,
        put_block-put_block h.block h.next (some (junk h.next bl)) (some (padded bl s)),
      )

-- What a successful `addBlockDynamic` gives: the block stands at index `n`, and the other blocks
-- keep their order and texts.
pub record Added (junk : ℕ → ℕ → Text) (h : Heap) (n bl : ℕ) (s : Text) (ar : List ℕ) : Type 0 where
  pub heap : Heap
  pub array : List ℕ
  pub result : add_block_dynamic junk h (pos n) (length ar) bl s ar ≡ some (heap, array)
  pub texts :
      contents heap array ≡ take n (contents h ar) ++ some (padded bl s) ∷ drop n (contents h ar)
  pub valid : IsArray heap bl array
  pub size : length array ≡ length ar + 1

-- A fitting text at an index of the array is added in front of the block that stood there. `junk`
-- may be any contents of the size asked for.
pub add_block_dynamic_lem :
    (junk : ℕ → ℕ → Text) (h : Heap) (n bl : ℕ) (s : Text) (ar : List ℕ)
    → ((p k : ℕ) → length (junk p k) ≡ k)
    → IsArray h bl ar
    → n < length ar
    → length s < bl
    → bl < 2 ^ 31
    → Added junk h n bl s ar
add_block_dynamic_lem junk h n bl s ar size v hn hs small =
    let (a, x, b, e, len) = cut_at ar n hn in
    subst₂ (λ k l. IsArray h bl l → Added junk h k bl s l) len (sym e) (at a x b) v
  where
    at :
        (a : List ℕ) (x : ℕ) (b : List ℕ)
        → IsArray h bl (a ++ x ∷ b)
        → Added junk h (length a) bl s (a ++ x ∷ b)
    at a x b v' =
        let (texts, valid) =
          contents-insert h bl a (x ∷ b) (padded bl s) v' (length-padded bl s (omega arith)) in
        record {
          heap = grown h (padded bl s);
          array = a ++ h.next ∷ x ∷ b;
          result = add_block-append junk size h a (x ∷ b) bl s (λ e. cc) hs small;
          texts = texts ∙ sym (contents_cut h a (x ∷ b) (some (padded bl s)));
          valid = valid;
          size = omega (arith, length-append a (x ∷ b), length-append a (h.next ∷ x ∷ b));
        }
