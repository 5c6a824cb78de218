-- ===== src/Records/Sort.antt =====
-- The sort of cw02/zad1/zad1.c on a file of records.
use mathlib.Core.Path.{subst}
use mathlib.Core.List.{Perm, perm_middle, append_assoc, append-nil}
use mathlib.Core.List.Perm
use agh_so.Prelude.{
  ℕ, ◌+◌, ◌-◌, ◌*◌, ◌≤◌, leb, true, ◌≡◌, ◌≢◌, refl, sym, ap, ◌∙◌, false, Bool-cases, inl, inr, List,
  [], ◌∷◌, ◌++◌, some, arith, ◌==◌, length,
}
use agh_so.CText.{Text, int_max, int_of}
use agh_so.Records.{File, less, sort_from, sort_records}
use agh_so.Records.Steps.{bytes_of, HaveSize}
use agh_so.Records.Order.{
  key, IsFalling, IsSorted, insert, insert-IsFalling, insert-Perm, insert-HaveSize, forward,
  forward-IsSorted, forward-Perm,
}
use agh_so.Records.Sink.{bytes_before, bytes_of-forward, insert_record_lem, insert-length}

-- What the sort leaves in the file: the same records in order, and the bytes behind them.
pub record IsSortOf (rs : List Text) (post : Text) (f : File) : Type 0 where
  pub sorted : List Text
  pub in_order : IsSorted sorted
  pub same : Perm sorted rs
  pub holds : f.bytes ≡ bytes_of sorted ++ post

some_left : (r : Text) (ls : List Text) → insert r ls ≢ []
some_left r [] e = cc
some_left r (l ∷ ls) e = elim (Bool-cases (less (key r) (key l))) [ inl lt ↦ cc | inr ge ↦ cc ]

sort_from_lem :
    (size : ℕ) (all rs ls : List Text) (post : Text) (f : File) (i : ℕ)
    → size ≢ 0
    → ls ≢ []
    → HaveSize size rs
    → HaveSize size ls
    → IsFalling ls
    → Perm (ls ++ rs) all
    → f.bytes ≡ bytes_before ls ++ (bytes_of rs ++ post)
    → i ≡ length (bytes_before ls)
    → (g : File) × (sort_from (length rs) size f i ≡ some g) × IsSortOf all post g
unfolding sort_from
sort_from_lem size all [] ls post f i some_size some_ls sizes sizes' falling perm e place = (
  f,
  refl,
  record {
    sorted = forward ls;
    in_order = forward-IsSorted ls falling;
    same = Perm.trans (forward-Perm ls) (subst (λ z. Perm z all) (append-nil ls) perm);
    holds = e ∙ ap (λ z. z ++ post) (sym (bytes_of-forward ls));
  },
)
sort_from_lem size all (r ∷ rs) [] post f i some_size some_ls sizes sizes' falling perm e place =
    absurd (some_ls refl)
sort_from_lem size all (r ∷ rs) (l ∷ ls) post f i some_size some_ls (hr, sizes) sizes' falling perm
      e place =
    let e' = e ∙ ap (λ z. bytes_before (l ∷ ls) ++ z) (append_assoc r (bytes_of rs) post) in
    let (f1, ran, bytes) =
      insert_record_lem size some_size r hr ls l (bytes_of rs ++ post) f i sizes' e' place in
    let (g, rest, sorted) =
      sort_from_lem size all rs (insert r (l ∷ ls)) post f1 (i + size) some_size
        (some_left r (l ∷ ls)) sizes (insert-HaveSize size r (l ∷ ls) (hr, sizes'))
        (insert-IsFalling r (l ∷ ls) falling)
        (Perm.trans (Perm.append_right rs (insert-Perm r (l ∷ ls)))
          (Perm.trans (Perm.symm (perm_middle (l ∷ ls) rs)) perm))
        bytes (omega (arith, insert-length size some_size r hr (l ∷ ls))) in
    (g, rw ran rest, sorted)

-- If the file begins with records of one size that is not 0, as many as are sorted, and their number
-- times their size is an int, the sort ends, within its fuel, with
-- the same records in its place, none of which starts with a smaller character than one before it;
-- the bytes behind them stay.
pub sort_records_lem :
    (size : ℕ) (rs : List Text) (post : Text) (f : File)
    → size ≢ 0
    → length rs * size ≤ int_max
    → HaveSize size rs
    → f.bytes ≡ bytes_of rs ++ post
    → (g : File) × (sort_records (length rs) size f ≡ some g) × IsSortOf rs post g
unfolding sort_records sort_from int_of
sort_records_lem size [] post f some_size small sizes e =
    (f, ground arith, record { sorted = []; in_order = tt; same = Perm.refl []; holds = e })
sort_records_lem size (r ∷ rs) post f some_size small (hr, sizes) e =
    let (g, ran, sorted) =
      sort_from_lem size (r ∷ rs) rs (r ∷ []) post f size some_size (λ z. cc) sizes (hr, tt)
        (tt, tt) (Perm.refl (r ∷ rs)) (e ∙ append_assoc r (bytes_of rs) post) hr in
    let some_bytes : (size == 0) ≡ false = ground arith in
    let less_one : length (r ∷ rs) - 1 ≡ length rs = omega arith in
    let fits : leb (length (r ∷ rs) * size) int_max ≡ true = ground arith in
    (g, rw (fits, some_bytes, less_one) ran, sorted)
