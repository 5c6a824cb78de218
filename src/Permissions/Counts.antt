-- ===== src/Permissions/Counts.antt =====
-- The counters of the parent of cw04/zad2/zad2.c, and the children that it lets work.
use agh_so.Prelude.{
  ℕ, zero, suc, ◌+◌, ◌≤◌, ◌<◌, ◌≡◌, ◌≢◌, refl, sym, ap, ◌∙◌, ◌⊎◌, Bool, true, false, Bool-cases,
  inl, inr, List, [], ◌∷◌, Option, some, arith, ltb, lt→ltb, ◌==◌, length, length-set, get_elem?-lt,
  set,
}
use agh_so.Permissions.{Globals, allow_bulk, store_pid, catch_usr1}
use agh_so.Permissions.Family.{Place, Family, put, allow_all}
use agh_so.Permissions.Sums.{
  is_born, has_asked, has_worked, pending, IsSum, IsSum-bounds, IsSum-put,
}

-- What a request does to the counters, and that nobody is let work before `limit` requests.
pub record IsCaught (limit : ℕ) (g g' : Globals) (allowed : List ℕ) : Type 0 where
  pub one_more : g'.k ≡ g.k + 1
  pub others : g'.n ≡ g.n
  pub size : length g'.child_buf ≡ length g.child_buf
  pub late : allowed ≢ [] → limit ≤ g.k + 1

store_pid_total :
    (limit : ℕ) (g : Globals) (p : ℕ)
    → g.k < length g.child_buf
    → (buf : List ℕ) × (store_pid limit g p ≡ some buf) × (length buf ≡ length g.child_buf)
unfolding store_pid
store_pid_total limit g p h = elim (Bool-cases (ltb g.k limit)) [
  | inl early ↦ (
    set g.child_buf g.k p,
    rw (early, lt→ltb g.k (length g.child_buf) h) refl,
    length-set g.child_buf g.k p,
  )
  | inr late ↦ (g.child_buf, rw late refl, refl)
]

allow_bulk_total :
    (rounds : ℕ) (buf : List ℕ) (l : ℕ)
    → l + rounds ≤ length buf
    → (pids : List ℕ) × (allow_bulk rounds buf l ≡ some pids)
unfolding allow_bulk
allow_bulk_total zero buf l h = ([], refl)
allow_bulk_total (suc rounds) buf l h =
    let (pid, e) = get_elem?-lt buf l (omega arith) in
    let (later, run) = allow_bulk_total rounds buf (l + 1) (omega arith) in
    (pid ∷ later, rw (e, run) refl)

-- A request is caught without a write outside `childBuf` if there is a place for it.
pub catch_usr1_total :
    (limit : ℕ) (g : Globals) (p : ℕ)
    → g.k < length g.child_buf
    → (g' : Globals) × (allowed : List ℕ) × (catch_usr1 limit g p ≡ some (g', allowed))
      × IsCaught limit g g' allowed
unfolding catch_usr1
catch_usr1_total limit g p h =
    let (buf, stored, size) = store_pid_total limit g p h in
    let (pids, bulk) = allow_bulk_total (g.k + 1) buf 0 (omega (arith, size)) in
    let g' : Globals = record g { k = g.k + 1; child_buf = buf } in
    elim (Bool-cases (ltb limit (g.k + 1))) [
      | inl past ↦ (
        g',
        p ∷ [],
        rw (stored, past) refl,
        record { one_more = refl; others = refl; size = size; late = λ ne. ground arith },
      )
      | inr not_past ↦ elim (Bool-cases (g.k + 1 == limit)) [
        | inl meets ↦ (
          g',
          pids,
          rw (stored, not_past, meets, bulk) refl,
          record { one_more = refl; others = refl; size = size; late = λ ne. ground arith },
        )
        | inr before ↦ (
          g',
          [],
          rw (stored, not_past, before) refl,
          record { one_more = refl; others = refl; size = size; late = λ ne. absurd (ne refl) },
        )
      ]
    ]

-- SIGUSR2 has been caught.
abbrev pub let_work : Place → Bool
let_work (Place.handling b) = true
let_work (Place.working b) = true
let_work (Place.worked b) = true
let_work Place.missed = true
let_work Place.leaving = true
let_work Place.exiting = true
let_work Place.left = true
let_work _ = false

-- What the counters count, of what the steps of a child change.
pub record IsCount (children limit : ℕ) (g : Globals) (born : List ℕ) (places : ℕ → Place)
    (usr1 : Option ℕ) (rt : ℕ) (allowed : ℕ → Bool) : Type 0 where
  pub few : length born ≤ children
  pub size : length g.child_buf ≡ children
  pub sum : IsSum born places (g.k + pending usr1) (g.n + rt)
  pub early : (p : ℕ) → allowed p ≡ true → limit ≤ g.k
  pub let_go : (p : ℕ) → let_work (places p) ≡ true → limit ≤ g.k

abbrev pub IsCounted : ℕ → ℕ → Family → Type 0
IsCounted children limit s = IsCount children limit s.globals s.born s.places s.usr1 s.rt s.allowed

pub let_go-put :
    {L : Type 0} (places : ℕ → Place) (p : ℕ) (y : Place)
    → ((q : ℕ) → let_work (places q) ≡ true → L)
    → (let_work y ≡ true → L)
    → (q : ℕ) → let_work (put places p y q) ≡ true
    → L
let_go-put {L} places p y h hy q = elim (Bool-cases (p == q)) [
  | inl same ↦ let now : put places p y q ≡ y = rw same refl in λ e. hy (sym (ap let_work now) ∙ e)
  | inr other ↦
      let before : put places p y q ≡ places q = rw other refl in
      λ e. h q (sym (ap let_work before) ∙ e)
]

early-put :
    {L : Type 0} (allowed : ℕ → Bool) (p : ℕ)
    → ((q : ℕ) → allowed q ≡ true → L)
    → (q : ℕ) → put allowed p false q ≡ true
    → L
early-put {L} allowed p h q = elim (Bool-cases (p == q)) [
  | inl same ↦ let now : put allowed p false q ≡ false = rw same refl in λ e. absurd (cc)
  | inr other ↦
      let before : put allowed p false q ≡ allowed q = rw other refl in λ e. h q (sym before ∙ e)
]

pub allow_all-cases :
    (allowed : ℕ → Bool) (ps : List ℕ) (q : ℕ)
    → allow_all allowed ps q ≡ true
    → (allowed q ≡ true) ⊎ (ps ≢ [])
allow_all-cases allowed [] q h = inl h
allow_all-cases allowed (p ∷ ps) q h = inr (λ e. cc)

module _ {children limit : ℕ} {g : Globals} {born : List ℕ} {places : ℕ → Place} {usr1 : Option ℕ}
    {rt : ℕ} {allowed : ℕ → Bool} (v : IsCount children limit g born places usr1 rt allowed) where
  -- There is a place in `childBuf` for a request on its way.
  pub place_left : (p : ℕ) → usr1 ≡ some p → g.k < length g.child_buf
  place_left p e = omega (arith, (IsSum-bounds v.sum).0, v.few, v.size, ap pending e)

  -- A child goes from `x` to `y`.
  pub child_moves :
      (p : ℕ) (x y : Place) (usr1' : Option ℕ) (rt' : ℕ)
      → places p ≡ x
      → is_born x ≡ 1
      → is_born y ≡ 1
      → g.k + pending usr1' + has_asked x ≡ g.k + pending usr1 + has_asked y
      → g.n + rt' + has_worked x ≡ g.n + rt + has_worked y
      → (let_work y ≡ true → limit ≤ g.k)
      → IsCount children limit g born (put places p y) usr1' rt' allowed
  child_moves p x y usr1' rt' at bx by ea en go = record {
    few = v.few;
    size = v.size;
    sum = IsSum-put v.sum p (g.k + pending usr1') (g.n + rt') x y at bx by ea en;
    early = v.early;
    let_go = let_go-put places p y v.let_go go;
  }

  pub was_let : (p : ℕ) (x : Place) → places p ≡ x → let_work x ≡ true → limit ≤ g.k
  was_let p x at h = v.let_go p (ap let_work at ∙ h)

  pub interrupted :
      (p : ℕ) (x : Place) (b : Bool)
      → places p ≡ x
      → is_born x ≡ 1
      → has_asked x ≡ 1
      → has_worked x ≡ 0
      → allowed p ≡ true
      → IsCount children limit g born
          (put places p (Place.handling b))
          usr1
          rt
          (put allowed p false)
  interrupted p x b at bx ax wx sent =
      let moved =
        child_moves p x (Place.handling b) usr1 rt at bx refl (omega (arith, ax))
          (omega (arith, wx)) (λ h. v.early p sent) in
      record {
        few = moved.few;
        size = moved.size;
        sum = moved.sum;
        early = early-put allowed p v.early;
        let_go = moved.let_go;
      }
