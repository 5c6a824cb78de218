-- ===== src/MsgServer/Requests.antt =====
-- What the requests are answered with: cw06/zad1/server.c, `case MIRROR` to `case TIME`.
use agh_so.Prelude.{ℕ, zero, suc, ◌+◌, ◌*◌, ◌≤◌, ◌≡◌, refl, ◌≢◌, ◌∷◌, ◌++◌, some, arith}
use agh_so.Prelude.Int.{ℤ, pos, sub_ℕ, ◌+ℤ◌, ◌-ℤ◌, ◌*ℤ◌}
use agh_so.CText.{Text, codes, int_max, int_of, print_int}
use agh_so.CText.Decimal.{string_to_int-print_int}
use agh_so.CText.Tokens.{strtok-append, strtok-IsSolid, print_int-IsSolid}
use agh_so.MsgServer.{two_args, div_text, answer, Case}

-- A client's two numbers, as `sprintf("%d %d")` writes them.
abbrev pub operands : ℕ → ℕ → Text
operands a b = print_int (pos a) ++ 32 ∷ print_int (pos b)

two_args-operands :
    (a b : ℕ) → a ≤ int_max → b ≤ int_max → two_args (operands a b) ≡ some (pos a, pos b)
unfolding two_args
two_args-operands a b ha hb =
    let (solid_a, some_a) = print_int-IsSolid a in
    let (solid_b, some_b) = print_int-IsSolid b in
    rw (
      strtok-append (print_int (pos a)) 32 (print_int (pos b)) some_a solid_a refl,
      string_to_int-print_int a ha,
      strtok-IsSolid (print_int (pos b)) some_b solid_b,
      string_to_int-print_int b hb,
    )

int_of-pos : (n : ℕ) → n ≤ int_max → int_of (pos n) ≡ some (pos n)
unfolding int_of
int_of-pos n h = ground arith

int_of-sub_ℕ : (a b : ℕ) → a ≤ int_max → b ≤ int_max → int_of (sub_ℕ a b) ≡ some (sub_ℕ a b)
unfolding int_of
int_of-sub_ℕ a b ha hb = ground arith

pos-arith :
    (a b : ℕ)
    → (pos a +ℤ pos b ≡ pos (a + b)) × (pos a *ℤ pos b ≡ pos (a * b)) × (pos a -ℤ pos b ≡ sub_ℕ a b)
unfolding ◌+ℤ◌ ◌*ℤ◌ ◌-ℤ◌
pos-arith a b = (ground arith, ground arith, ground arith)

div_text-pos :
    (quotient : ℤ → ℤ → Text) (a b : ℕ)
    → b ≢ 0
    → div_text quotient (pos a) (pos b) ≡ quotient (pos a) (pos b)
unfolding div_text
div_text-pos quotient a zero ne = absurd (ne refl)
div_text-pos quotient a (suc b) ne = refl

-- The answers to `request` on the printed numbers `a` and `b`, when the result fits in an `int`.
abbrev pub Answers : (ℤ → ℤ → Text) → Case → ℕ → ℕ → Text → Type 0
Answers quotient request a b text =
    (clock : Text) → answer quotient clock request (operands a b) ≡ some text

module _ (quotient : ℤ → ℤ → Text) (a b : ℕ) (ha : a ≤ int_max) (hb : b ≤ int_max) where
  answer-add : a + b ≤ int_max → Answers quotient Case.add a b (print_int (pos (a + b)))
  answer-add h clock =
      unfold answer in rw (two_args-operands a b ha hb, (pos-arith a b).0, int_of-pos (a + b) h)

  answer-mul : a * b ≤ int_max → Answers quotient Case.mul a b (print_int (pos (a * b)))
  answer-mul h clock =
      unfold answer in rw (two_args-operands a b ha hb, (pos-arith a b).1, int_of-pos (a * b) h)

  answer-sub : Answers quotient Case.sub a b (print_int (sub_ℕ a b))
  answer-sub clock =
      unfold answer in rw (two_args-operands a b ha hb, (pos-arith a b).2, int_of-sub_ℕ a b ha hb)

  answer-div : b ≢ 0 → Answers quotient Case.div a b (quotient (pos a) (pos b))
  answer-div ne clock =
      unfold answer in rw (two_args-operands a b ha hb, div_text-pos quotient a b ne)

  answer-div_zero : b ≡ 0 → Answers quotient Case.div a b (codes "Division by zero!")
  answer-div_zero e clock = unfold answer div_text in rw (two_args-operands a b ha hb, e)

-- ADD, MUL, SUB and DIV on two numbers as `sprintf("%d %d")` writes them answer with the printed sum,
-- product and signed difference, when the result is in the range of `int`, and with the quotient.
pub answer-operands :
    (quotient : ℤ → ℤ → Text) (a b : ℕ)
    → a ≤ int_max
    → b ≤ int_max
    → (a + b ≤ int_max → Answers quotient Case.add a b (print_int (pos (a + b))))
      × (a * b ≤ int_max → Answers quotient Case.mul a b (print_int (pos (a * b))))
      × Answers quotient Case.sub a b (print_int (sub_ℕ a b))
      × (b ≢ 0 → Answers quotient Case.div a b (quotient (pos a) (pos b)))
      × (b ≡ 0 → Answers quotient Case.div a b (codes "Division by zero!"))
answer-operands quotient a b ha hb = (
  answer-add quotient a b ha hb,
  answer-mul quotient a b ha hb,
  answer-sub quotient a b ha hb,
  answer-div quotient a b ha hb,
  answer-div_zero quotient a b ha hb,
)
