-- ===== src/Fifo/Tests.antt =====
-- Two slaves and a master on small inputs, and the theorems at them.
use agh_so.Prelude.{ℕ, zero, suc, ◌≡◌, refl, List, [], ◌∷◌, ◌++◌, some, arith}
use agh_so.Prelude.Int.{◌+ℤ◌, ◌-ℤ◌, ◌*ℤ◌}
use agh_so.CText.{Text, codes, string_to_int, print_int, int_of}
use agh_so.Fifo.{slave, slave_loop, line_of, Pipe, Move, Reach, master}
use agh_so.Fifo.Traffic.{texts_of}
use agh_so.Fifo.Printed.{AreGrowing, zeros, print_lem, master_shorter}

two_lines :
    slave (λ i. codes "now") 7 (codes "2")
    ≡ some
        (codes "My pid from pipe: 7, date: now\n" ∷ codes "My pid from pipe: 7, date: now\n" ∷ [])
unfolding slave slave_loop line_of string_to_int print_int int_of ◌+ℤ◌ ◌-ℤ◌ ◌*ℤ◌
two_lines = refl

abbrev slaves : ℕ → List Text
slaves zero = codes "abc" ∷ []
slaves (suc i) = codes "de" ∷ []

-- Both slaves have written, and the master has read four bytes.
abbrev read_4 : (s : Pipe) × Reach slaves s
read_4 =
    let r1 = Reach.later Reach.begin (Move.write 1 (codes "de") [] refl) in
    let r2 = Reach.later r1 (Move.write 0 (codes "abc") [] refl) in
    (_, Reach.later r2 (Move.read 4 (omega arith) (omega arith) (omega arith)))

no_nul_4 : AreGrowing 8 0 read_4.0.read
no_nul_4 = (
  ((λ e. omega arith), ((λ e. omega arith), ((λ e. omega arith), ((λ e. omega arith), tt)))),
  omega arith,
  omega arith,
  tt,
)

print_lem_example :
    (printed : Text) × (master (zeros 8) (codes "deab" ∷ []) ≡ some printed)
    × (codes "deabc" ≡ printed ++ codes "c")
    × ((i : ℕ) → slaves i ≡ texts_of i read_4.0.written ++ read_4.0.slaves i)
print_lem_example = print_lem 8 read_4.1 no_nul_4

master_shorter_example : master (zeros 8) (codes "abc" ∷ codes "de" ∷ []) ≡ some (codes "abcdec")
master_shorter_example =
    master_shorter 8 (codes "abc") (codes "de")
      ((λ e. omega arith), ((λ e. omega arith), ((λ e. omega arith), tt)))
      ((λ e. omega arith), ((λ e. omega arith), tt)) (omega arith) (omega arith)
