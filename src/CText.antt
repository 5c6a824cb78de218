-- ===== src/CText.antt =====
-- C strings and `int`, as every program of the repository uses them: `stringToInt` (one text in a
-- dozen files; the lines named are those of cw06/zad1/server.c), and what the programs rely on of
-- `strlen`, `strtok` and `sprintf("%d")`. A string is the list of its bytes before the NUL.
pub mod Decimal
pub mod Tokens
pub mod Strings
use Prim.Native.Char.{code}
use Prim.Native.String.{String}
use agh_so.Prelude.{
  ℕ, zero, suc, ◌+◌, ◌-◌, ◌/◌, ◌%◌, ◌^◌, ◌≡◌, refl, Bool, ◌&&◌, ◌||◌, List, [], ◌∷◌, ◌++◌, Option,
  none, some, ltb, leb, ◌==◌, if◌then◌else◌, ◌>>=◌,
}
use agh_so.Prelude.Int.{ℤ, pos, negsuc, pos_part, neg_part, ◌+ℤ◌, ◌-ℤ◌, ◌*ℤ◌}

abbrev pub Text : Type 0
Text = List ℕ

abbrev pub codes : String → Text
codes String.[] = []
codes (String.◌∷◌ c s) = code c ∷ codes s

abbrev pub int_max : ℕ
int_max = 2147483647

-- The C string in some bytes: those before the first NUL.
unfoldable pub c_string : Text → Option Text
c_string [] = none
c_string (c ∷ s) = let rest = c_string s in if c == 0 then some [] else do t ← rest; some (c ∷ t)

-- The value of a plain `char`, which is signed.
abbrev pub char_val : ℕ → ℤ
char_val c = if ltb c 128 then pos c else negsuc (255 - c)

-- The result of an `int` operation: overflow is undefined behaviour.
unfoldable pub int_of : ℤ → Option ℤ
int_of z = if leb (pos_part z) int_max && leb (neg_part z) (int_max + 1) then some z else none

-- The loop of `stringToInt`, with `result` so far and the characters that are left.
unfoldable pub string_to_int_from : ℤ → Text → Option ℤ
unfolding int_of ◌*ℤ◌ ◌+ℤ◌ ◌-ℤ◌
string_to_int_from result [] = some result
string_to_int_from result (c ∷ s) = do
  r ← int_of (result *ℤ pos 10)
  r' ← int_of (r +ℤ (char_val c -ℤ pos 48))
  string_to_int_from r' s

unfoldable pub string_to_int : Text → Option ℤ
unfolding string_to_int_from
string_to_int s = string_to_int_from (pos 0) s

-- The decimal digits of a number, most significant first, in front of `out`.
unfoldable pub digits_from : ℕ → ℕ → Text → Text
digits_from zero n out = out
digits_from (suc fuel) n out =
    let shorter = digits_from fuel (n / 10) ((48 + n % 10) ∷ out) in
    if n / 10 == 0 then (48 + n % 10) ∷ out else shorter

-- `sprintf("%d")`
unfoldable pub print_int : ℤ → Text
unfolding digits_from
print_int (pos n) = digits_from (suc n) n []
print_int (negsuc n) = b'-' ∷ digits_from (suc (suc n)) (suc n) []

-- The delimiters that the programs give to `strtok`: " \n".
abbrev pub is_delimiter : ℕ → Bool
is_delimiter c = c == 32 || c == 10

-- The characters up to the first delimiter, and what follows it.
unfoldable pub cut_token : Text → Text × Text
cut_token [] = ([], [])
cut_token (c ∷ s) = let (t, rest) = cut_token s in if is_delimiter c then ([], s) else (c ∷ t, rest)

-- One call of `strtok`: a token, and the text that the next call goes on with.
unfoldable pub strtok : Text → Option (Text × Text)
strtok [] = none
strtok (c ∷ s) = let later = strtok s in if is_delimiter c then later else some (cut_token (c ∷ s))

reads_127 : string_to_int (codes "127") ≡ some (pos 127)
unfolding string_to_int
reads_127 = refl

-- A minus sign is read as the digit -3.
reads_minus : string_to_int (codes "-5") ≡ some (negsuc 24)
unfolding string_to_int
reads_minus = refl

overflows : string_to_int (codes "2147483648") ≡ none
unfolding string_to_int
overflows = refl

prints : print_int (negsuc 119) ++ print_int (pos 0) ≡ codes "-1200"
unfolding print_int
prints = refl

splits : strtok (codes "  12 7\n") ≡ some (codes "12", codes "7\n")
unfolding strtok cut_token
splits = refl
