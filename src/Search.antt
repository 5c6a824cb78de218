-- ===== src/Search.antt =====
-- What the three searches for files by date share: cw02/zad2a/zad2a.c, cw02/zad2b/zad2b.c and
-- cw03/zad1/zad1.c have the same comparison, the same line for a file and the same arguments. The
-- lines named are those of cw02/zad2a/zad2a.c. `localtime`, `realpath` and `sscanf` are parameters.
pub mod Order
pub mod Walk
pub mod Visits
pub mod Forked
mod Tests
use agh_so.Prelude.{
  ℕ, zero, suc, ◌+◌, ◌-◌, ◌*◌, ◌/◌, ◌%◌, Bool, true, false, ◌&&◌, ◌||◌, not, List, [], ◌∷◌, ◌++◌,
  Option, none, some, ltb, leb, ◌==◌, if◌then◌else◌, ◌>>=◌, ◌>>◌, guard, length,
}
use agh_so.Prelude.Int.{ℤ, pos, negsuc, ◌+ℤ◌, ◌-ℤ◌, ltb_ℤ}
use agh_so.CText.{Text, int_of, print_int, codes}

-- The fields of `struct tm` that are read.
pub record Tm : Type 0 where
  pub tm_year : ℤ
  pub tm_mon : ℤ
  pub tm_mday : ℤ

-- -1, 0 or 1 by two integers, or what is said of later fields when they are the same.
abbrev pub cmp_field : ℤ → ℤ → ℤ → ℤ
cmp_field a b later = if ltb_ℤ a b then negsuc 0 else if ltb_ℤ b a then pos 1 else later

unfoldable pub cmp_tm : Tm → Tm → ℤ
cmp_tm first second =
    cmp_field first.tm_year second.tm_year
      (cmp_field first.tm_mon second.tm_mon (cmp_field first.tm_mday second.tm_mday (pos 0)))

-- The fields of `struct stat` that are read.
pub record Stat : Type 0 where
  pub st_mode : ℕ
  pub st_size : ℕ
  pub st_mtime : ℕ

-- `st_mode & S_IFMT` against `S_IFREG`, `S_IFDIR` and `S_IFLNK`.
abbrev pub is_kind : ℕ → ℕ → Bool
is_kind mode kind = mode / 4096 % 16 == kind

abbrev pub is_reg : ℕ → Bool
is_reg mode = is_kind mode 8

abbrev pub is_dir : ℕ → Bool
is_dir mode = is_kind mode 4

abbrev pub is_link : ℕ → Bool
is_link mode = is_kind mode 10

-- `(st_mode & bit) ? letter : "-"`
abbrev pub perm_char : ℕ → ℕ → ℕ → ℕ
perm_char mode bit letter = if mode / bit % 2 == 1 then letter else b'-'

unfoldable pub perm_text : ℕ → Text
perm_text mode =
    perm_char mode 256 b'r'
    ∷ perm_char mode 128 b'w'
    ∷ perm_char mode 64 b'x'
    ∷ perm_char mode 32 b'r'
    ∷ perm_char mode 16 b'w'
    ∷ perm_char mode 8 b'x'
    ∷ perm_char mode 4 b'r'
    ∷ perm_char mode 2 b'w'
    ∷ perm_char mode 1 b'x'
    ∷ []

-- What is printed for a file.
unfoldable pub report : Text → Stat → Tm → Text
report path s t =
    path
    ++ codes "\n "
    ++ print_int (pos s.st_size)
    ++ codes "B  "
    ++ print_int t.tm_mday
    ++ codes "/"
    ++ print_int (t.tm_mon +ℤ pos 1)
    ++ codes "/"
    ++ print_int (t.tm_year +ℤ pos 1900)
    ++ codes "  "
    ++ perm_text s.st_mode
    ++ codes "\n"

-- The three searches.
pub data Which : Type 0 where
  older newer same_date : Which

-- What `cmpTM` has to return for a file to be printed.
unfoldable pub wanted : Which → ℤ
wanted older = negsuc 0
wanted newer = pos 1
wanted same_date = pos 0

abbrev pub eq_ℤ : ℤ → ℤ → Bool
eq_ℤ a b = not (ltb_ℤ a b) && not (ltb_ℤ b a)

unfoldable pub matches : Which → Tm → Tm → Bool
matches w modified time = eq_ℤ (cmp_tm modified time) (wanted w)

-- The directory that is searched: `char path[300]`, copied or resolved.
unfoldable pub start_path : (Text → Text) → Text → Option Text
start_path realpath arg = do
  guard (ltb 0 (length arg))
  let absolute = first_is b'/' arg
  let path = if absolute then arg else realpath arg
  guard (ltb (length path) 300)
  some path
  where
    first_is : ℕ → Text → Bool
    first_is c [] = false
    first_is c (x ∷ s) = x == c

-- The date that `sscanf` read, as `struct tm` counts.
unfoldable pub start_time : Tm → Option Tm
start_time t = do
  year ← int_of (t.tm_year -ℤ pos 1900)
  mon ← int_of (t.tm_mon -ℤ pos 1)
  some (record t { tm_year = year; tm_mon = mon })

-- The search that the second argument asks for.
unfoldable pub which_of : Text → Option Which
which_of [] = none
which_of (c ∷ s) =
    if c == b'<'
    then some older
    else if c == b'>'
    then some newer
    else if c == b'='
    then some same_date
    else none
