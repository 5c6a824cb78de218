-- ===== src/Shell/Words.antt =====
-- The words of a line of cw05/zad1/zad1.c and cw03/zad2/zad2.c.
use agh_so.Prelude.{
  ℕ, zero, suc, ◌<◌, ◌≡◌, ◌≢◌, refl, ap, List, [], ◌∷◌, ◌++◌, arith, length, length-append,
}
use agh_so.CText.{Text, strtok}
use agh_so.CText.Tokens.{IsSolid, strtok-append}
use agh_so.Shell.{words_from, words}

abbrev pub AreWords : List Text → Type 0
AreWords [] = Unit
AreWords (t ∷ ts) = (t ≢ []) × IsSolid t × AreWords ts

-- A line of words, with a blank behind each.
abbrev pub line_of : List Text → Text
line_of [] = 10 ∷ []
line_of (t ∷ ts) = t ++ 32 ∷ line_of ts

words_from-line_of :
    (ts : List Text) (fuel : ℕ) → AreWords ts → length ts < fuel → words_from fuel (line_of ts) ≡ ts
unfolding words_from
words_from-line_of ts zero solid h = absurd (omega arith)
words_from-line_of [] (suc fuel) solid h = unfold strtok in refl
words_from-line_of (t ∷ ts) (suc fuel) (some_t, solid_t, solid) h =
    rw (strtok-append t 32 (line_of ts) some_t solid_t refl, words_from)
      (ap (λ l. t ∷ l) (words_from-line_of ts fuel solid (omega arith)))

length-line_of : (ts : List Text) → length ts < length (line_of ts)
length-line_of [] = omega arith
length-line_of (t ∷ ts) = omega (arith, length-line_of ts, length-append t (32 ∷ line_of ts))

pub words-line_of : (ts : List Text) → AreWords ts → words (line_of ts) ≡ ts
unfolding words
words-line_of ts solid = words_from-line_of ts (length (line_of ts)) solid (length-line_of ts)
