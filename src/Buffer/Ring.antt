-- ===== src/Buffer/Ring.antt =====
-- The cells of the ring buffer of cw09/zad1/zad1.c and cw09/zad2/zad2.c as a queue of lines.
use native.Mathlib.Nat.{mod-add-mod, mod-eq_of_lt, mod-eq-sub-mod}
use agh_so.Prelude.{
  ℕ, zero, suc, ◌+◌, ◌-◌, ◌%◌, ◌≤◌, ◌<◌, ◌≡◌, refl, sym, ap, ◌∙◌, ◌≢◌, List, [], ◌∷◌, ◌++◌, Option,
  none, some, arith, ◌==◌, if◌then◌else◌, length, length-append, get_elem?, dec_lt, ℕ_discrete,
}
use agh_so.CText.{Text}

abbrev pub Cells : Type 0
Cells = ℕ → Option Text

abbrev pub update : Cells → ℕ → Option Text → Cells
update cells i v j = if i == j then v else cells j

update_same : (cells : Cells) (i : ℕ) (v : Option Text) (j : ℕ) → i ≡ j → update cells i v j ≡ v
update_same cells i v j e = ground arith

update_other :
    (cells : Cells) (i : ℕ) (v : Option Text) (j : ℕ) → i ≢ j → update cells i v j ≡ cells j
update_other cells i v j ne = ground arith

-- The cells from `head` on hold `held` in order, the others nothing; `tail` is the first of these.
pub record IsRing (n : ℕ) (cells : Cells) (head tail : ℕ) (held : List Text) : Type 0 where
  pub in_range : head < n
  pub tail_is : tail ≡ (head + length held) % n
  pub fits : length held ≤ n
  pub cell : (k : ℕ) → k < n → cells ((head + k) % n) ≡ get_elem? held k

place_inj : (n h a b : ℕ) → h < n → a < n → b < n → (h + a) % n ≡ (h + b) % n → a ≡ b
place_inj n h a b hh ha hb e = ground (
  arith,
  mod-eq_of_lt {n = h + a} {m = n},
  mod-eq_of_lt {n = h + b} {m = n},
  mod-eq-sub-mod {n = h + a} {m = n},
  mod-eq-sub-mod {n = h + b} {m = n},
  mod-eq_of_lt {n = h + a - n} {m = n},
  mod-eq_of_lt {n = h + b - n} {m = n},
)

pub place_zero : (n h : ℕ) → h < n → (h + 0) % n ≡ h
place_zero n h hh = ground (arith, mod-eq_of_lt {n = h + 0} {m = n})

place_round : (n h : ℕ) → h < n → (h + n) % n ≡ h
place_round n h hh =
    ground (arith, mod-eq-sub-mod {n = h + n} {m = n}, mod-eq_of_lt {n = h + n - n} {m = n})

place_next : (n h k : ℕ) → ((h + 1) % n + k) % n ≡ (h + suc k) % n
place_next n h k = mod-add-mod (h + 1) n k ∙ ap (λ i. i % n) (omega arith)

pub next_in_range : (n h : ℕ) → h < n → (h + 1) % n < n
next_in_range n h hh = ground (arith, mod-eq_of_lt {n = h + 1} {m = n}, place_round n 0)

get_elem?-push :
    (held : List Text) (x : Text) (k : ℕ)
    → get_elem? (held ++ x ∷ []) k ≡ (if k == length held then some x else get_elem? held k)
get_elem?-push [] x zero = refl
get_elem?-push [] x (suc k) = ground arith
get_elem?-push (y ∷ held) x zero = ground arith
get_elem?-push (y ∷ held) x (suc k) = ground (arith, get_elem?-push held x k)

get_elem?-past : (held : List Text) (k : ℕ) → length held ≤ k → get_elem? held k ≡ none
get_elem?-past [] k h = refl
get_elem?-past (x ∷ held) zero h = absurd (omega arith)
get_elem?-past (x ∷ held) (suc k) h = get_elem?-past held k (omega arith)

first_of : (held : List Text) → get_elem? held 0 ≡ none → held ≡ []
first_of [] h = refl
first_of (x ∷ held) h = cc

module _ {n : ℕ} {cells : Cells} {head tail : ℕ} {held : List Text}
    (r : IsRing n cells head tail held) where
  head_cell : cells head ≡ get_elem? held 0
  head_cell = ap cells (sym (place_zero n head r.in_range)) ∙ r.cell 0 (omega (arith, r.in_range))

  -- A reader that meets an empty cell has read everything.
  pub ring_empty : cells head ≡ none → held ≡ []
  ring_empty e = first_of held (sym head_cell ∙ e)

  -- A writer that meets an empty cell has room.
  pub ring_room : cells tail ≡ none → length held < n
  ring_room e = elim (dec_lt (length held) n) [
    | yes lt ↦ lt
    | no full ↦
        let here : tail ≡ head =
          r.tail_is
          ∙ ap (λ k. (head + k) % n) (omega (arith, r.fits))
          ∙ place_round n head r.in_range in
        let nothing = ring_empty (ap cells (sym here) ∙ e) in
        absurd (omega (arith, r.in_range, ap length nothing))
  ]

  -- A writer that meets a line has no room.
  pub ring_full : (x : Text) → cells tail ≡ some x → length held ≡ n
  ring_full x e = elim (dec_lt (length held) n) [
    | yes lt ↦
        let nothing : cells tail ≡ none =
          ap cells r.tail_is
          ∙ r.cell (length held) lt
          ∙ get_elem?-past held (length held) (omega arith) in
        cc
    | no full ↦ omega (arith, r.fits)
  ]

  pub IsRing-push :
      (x : Text)
      → cells tail ≡ none
      → IsRing n (update cells tail (some x)) head ((tail + 1) % n) (held ++ x ∷ [])
  IsRing-push x e =
      let room = ring_room e in
      let grown = length-append held (x ∷ []) in
      record {
        in_range = r.in_range;
        tail_is =
            ap (λ t. (t + 1) % n) r.tail_is
            ∙ mod-add-mod (head + length held) n 1
            ∙ ap (λ i. i % n) (omega (arith, grown));
        fits = omega (arith, room, grown);
        cell = λ k hk. elim (ℕ_discrete k (length held)) [
          | yes last ↦
              update_same cells tail (some x) ((head + k) % n)
                (r.tail_is ∙ ap (λ i. (head + i) % n) (sym last))
              ∙ sym (get_elem?-push held x k ∙ ground arith)
          | no other ↦
              update_other cells tail (some x) ((head + k) % n) (λ same.
                other (place_inj n head k (length held) r.in_range hk room (sym same ∙ r.tail_is)))
              ∙ r.cell k hk
              ∙ sym (get_elem?-push held x k ∙ ground arith)
        ];
      }

popped :
    (n : ℕ) (cells : Cells) (head tail : ℕ) (held : List Text) (x : Text)
    → IsRing n cells head tail held
    → cells head ≡ some x
    → (rest : List Text) × (held ≡ x ∷ rest)
      × IsRing n (update cells head none) ((head + 1) % n) tail rest
popped n cells head tail [] x r e = absurd (cc (head_cell r))
popped n cells head tail (y ∷ rest) x r e =
    let same : y ≡ x = cc (head_cell r) in
    (
      rest,
      ap (λ z. z ∷ rest) same,
      record {
        in_range = next_in_range n head r.in_range;
        tail_is = r.tail_is ∙ sym (place_next n head (length rest));
        fits = omega (arith, r.fits);
        cell = λ k hk. elim (ℕ_discrete (k + 1) n) [
          | yes last ↦
              update_same cells head none (((head + 1) % n + k) % n) (
                sym (
                  place_next n head k
                  ∙ ap (λ i. (head + i) % n) (omega arith)
                  ∙ place_round n head r.in_range))
              ∙ sym (get_elem?-past rest k (omega (arith, r.fits)))
          | no more ↦
              update_other cells head none (((head + 1) % n + k) % n) (λ e'. absurd (
                omega (
                  arith,
                  place_inj n head 0 (suc k) r.in_range (omega (arith, r.in_range)) (omega arith)
                      (place_zero n head r.in_range ∙ e' ∙ place_next n head k),
                )))
              ∙ ap cells (place_next n head k)
              ∙ r.cell (suc k) (omega arith)
        ];
      },
    )

-- A reader that meets a line takes the first.
pub IsRing-pop :
    {n : ℕ} {cells : Cells} {head tail : ℕ} {held : List Text}
    → IsRing n cells head tail held
    → (x : Text) → cells head ≡ some x
    → (rest : List Text) × (held ≡ x ∷ rest)
      × IsRing n (update cells head none) ((head + 1) % n) tail rest
IsRing-pop r x e = popped _ _ _ _ _ x r e
