-- ===== src/Records/Tests.antt =====
-- Small files of cw02/zad1/zad1.c.
use agh_so.Prelude.{ℕ, ◌-◌, ◌≡◌, refl, [], ◌∷◌, some, none, arith}
use agh_so.CText.{codes, int_of}
use agh_so.Records.{
  File, read, write, read_char, swap_records, sink, insert_record, sort_from, sort_records, letters,
  generate_line, generate,
}
use agh_so.Records.Sort.{IsSortOf, sort_records_lem}
use agh_so.Records.Generate.{IsGenerated, new_file, generate_then_sort}

abbrev source : File
source = record { bytes = codes "c a b "; offset = 0 }

abbrev target : File
target = record { bytes = []; offset = 0 }

sorts : sort_records 3 2 source ≡ some (record { bytes = codes "a b c "; offset = 0 })
unfolding sort_records sort_from insert_record sink swap_records read_char read write int_of
sorts = refl

sort_records_lem_example :
    (g : File) × (sort_records 3 2 source ≡ some g)
    × IsSortOf (codes "c " ∷ codes "a " ∷ codes "b " ∷ []) [] g
sort_records_lem_example =
    sort_records_lem 2 (codes "c " ∷ codes "a " ∷ codes "b " ∷ []) [] source (omega arith)
      (omega arith) (refl, (refl, (refl, tt))) refl

-- A rand that counts down.
abbrev counting : ℕ → ℕ
counting k = 100 - k

generate_then_sort_example :
    (f g : File) × (generate counting 0 3 2 new_file ≡ some f)
    × (v : IsGenerated 3 2 [] f) × (sort_records 3 2 f ≡ some g)
    × IsSortOf v.lines [] g
generate_then_sort_example = generate_then_sort counting 3 2 (omega arith) (omega arith)

generates : generate counting 0 3 2 new_file ≡ some (record { bytes = codes "w v u "; offset = 6 })
unfolding generate generate_line letters write
generates = refl

-- A million records of 4096 bytes.
overflows : sort_records 1000000 4096 source ≡ none
unfolding sort_records int_of
overflows = refl
