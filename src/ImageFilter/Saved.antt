-- ===== src/ImageFilter/Saved.antt =====
-- A file that cw08/zad1/zad1.c writes is one that it reads. `words_of` gives the words of a file, which
-- fscanf("%s") takes apart at white space.
use mathlib.Core.Path.{subst}
use mathlib.Core.List.{append_assoc, append-nil}
use agh_so.Prelude.{
  Bool, false, ◌&&◌, ◌||◌, leb, zero, suc, ◌+◌, ◌/◌, ◌%◌, ◌==◌, Bool-cases, inl, inr, ℕ, ◌<◌, ◌≤◌,
  ◌≡◌, ◌≢◌, refl, sym, ap, ◌∙◌, true, List, [], ◌∷◌, ◌++◌, map, some, arith, lt→ltb, length,
  length-map,
}
use agh_so.Prelude.Int.{ℤ, pos}
use agh_so.CText.{digits_from, Text, int_max, print_int}
use agh_so.CText.Decimal.{string_to_int-print_int}
use agh_so.CText.Strings.{length-print_int}
use agh_so.CText.Tokens.{print_int-IsSolid}
use agh_so.ImageFilter.{Grid}
use agh_so.ImageFilter.Files.{scan, read_row, read_rows, Image, read_image, save}
use agh_so.ImageFilter.Cells.{IsGrid}
use agh_so.ImageFilter.Loaded.{row_text, rows_text, save_lem, nil-IsGrid, cons-IsGrid}

-- `isspace`: a blank, or a tab, a line feed, a vertical tab, a form feed or a carriage return.
abbrev pub is_space : ℕ → Bool
is_space c = (c == 32) || (leb 9 c && leb c 13)

abbrev pub HasNoSpace : Text → Type 0
HasNoSpace [] = Unit
HasNoSpace (c ∷ t) = (is_space c ≡ false) × HasNoSpace t

digits_from-HasNoSpace :
    (fuel n : ℕ) (out : Text) → HasNoSpace out → HasNoSpace (digits_from fuel n out)
unfolding digits_from
digits_from-HasNoSpace zero n out h = h
digits_from-HasNoSpace (suc fuel) n out h =
    let digit : is_space (48 + n % 10) ≡ false = ground arith in
    elim (Bool-cases (n / 10 == 0)) [
      | inl last ↦ rw last (digit, h)
      | inr more ↦ rw more (digits_from-HasNoSpace fuel (n / 10) ((48 + n % 10) ∷ out) (digit, h))
    ]

print_int-HasNoSpace : (n : ℕ) → HasNoSpace (print_int (pos n))
unfolding print_int
print_int-HasNoSpace n = digits_from-HasNoSpace (suc n) n [] tt

abbrev pub AreSmall : List ℕ → Type 0
AreSmall [] = Unit
AreSmall (n ∷ row) = (n ≤ int_max) × AreSmall row

-- `h` rows of `w` numbers.
abbrev pub AreRows : ℕ → List (List ℕ) → Type 0
AreRows w [] = Unit
AreRows w (row ∷ rows) = (length row ≡ w) × AreSmall row × AreRows w rows

abbrev pub grid_of : List (List ℕ) → Grid ℤ
grid_of = map (map pos)

abbrev words_row : List ℕ → List Text
words_row [] = []
words_row (n ∷ row) = print_int (pos n) ∷ words_row row

abbrev words_rows : List (List ℕ) → List Text
words_rows [] = []
words_rows (row ∷ rows) = words_row row ++ words_rows rows

scan_lem :
    (n : ℕ) (ws : List Text) (buffer : Text)
    → n ≤ int_max
    → scan (print_int (pos n) ∷ ws) buffer ≡ some (ws, print_int (pos n))
unfolding scan
scan_lem n ws buffer h =
    rw (lt→ltb (length (print_int (pos n))) 70 (omega (arith, length-print_int n h))) refl

abbrev pub header_of : Text → ℕ → ℕ → ℕ → Text
header_of magic w h grey =
    magic
    ++ (10 ∷ print_int (pos w)
        ++ (32 ∷ print_int (pos h) ++ (10 ∷ print_int (pos grey) ++ (10 ∷ []))))

module _ (words_of : Text → List Text) (strtol : Text → ℤ) (end_of_file : words_of [] ≡ [])
    (word : (w : Text) (d : ℕ) (rest : Text)
      → w ≢ []
      → HasNoSpace w
      → is_space d ≡ true
      → words_of (w ++ d ∷ rest) ≡ w ∷ words_of rest)
    (number : (n : ℕ) → n ≤ int_max → strtol (print_int (pos n)) ≡ pos n) where
  word-print_int :
      (n d : ℕ) (rest : Text)
      → is_space d ≡ true
      → words_of (print_int (pos n) ++ d ∷ rest) ≡ print_int (pos n) ∷ words_of rest
  word-print_int n d rest h =
      let (solid, ne) = print_int-IsSolid n in
      word (print_int (pos n)) d rest ne (print_int-HasNoSpace n) h

  words_of-row_text :
      (row : List ℕ) (rest : Text)
      → words_of (row_text (map pos row) ++ rest) ≡ words_row row ++ words_of rest
  words_of-row_text [] rest = refl
  words_of-row_text (n ∷ row) rest =
      ap words_of (append_assoc (print_int (pos n)) (10 ∷ row_text (map pos row)) rest)
      ∙ word-print_int n 10 (row_text (map pos row) ++ rest) refl
      ∙ ap (λ l. print_int (pos n) ∷ l) (words_of-row_text row rest)

  words_of-rows_text :
      (rows : List (List ℕ)) → words_of (rows_text (grid_of rows)) ≡ words_rows rows
  words_of-rows_text [] = end_of_file
  words_of-rows_text (row ∷ rows) =
      words_of-row_text row (rows_text (grid_of rows))
      ∙ ap (λ l. words_row row ++ l) (words_of-rows_text rows)

  words_of-header_of :
      (magic : Text) (w h grey : ℕ) (rest : Text)
      → magic ≢ []
      → HasNoSpace magic
      → words_of (header_of magic w h grey ++ rest)
        ≡ magic ∷ print_int (pos w) ∷ print_int (pos h) ∷ print_int (pos grey) ∷ words_of rest
  words_of-header_of magic w h grey rest ne solid =
      let p = λ (n : ℕ). print_int (pos n) in
      rw
        (
          append_assoc magic (10 ∷ p w ++ (32 ∷ p h ++ (10 ∷ p grey ++ (10 ∷ [])))) rest,
          word magic 10 ((p w ++ (32 ∷ p h ++ (10 ∷ p grey ++ (10 ∷ [])))) ++ rest) ne solid refl,
          append_assoc (p w) (32 ∷ p h ++ (10 ∷ p grey ++ (10 ∷ []))) rest,
          word-print_int w 32 ((p h ++ (10 ∷ p grey ++ (10 ∷ []))) ++ rest) refl,
          append_assoc (p h) (10 ∷ p grey ++ (10 ∷ [])) rest,
          word-print_int h 10 ((p grey ++ (10 ∷ [])) ++ rest) refl,
          append_assoc (p grey) (10 ∷ []) rest,
          word-print_int grey 10 rest refl,
        )
        refl

  read_row_lem :
      (row : List ℕ) (ws : List Text) (buffer : Text)
      → AreSmall row
      → (buffer' : Text) × (read_row strtol (length row) (words_row row ++ ws) buffer
          ≡ some (map pos row, ws, buffer'))
  unfolding read_row
  read_row_lem [] ws buffer small = (buffer, refl)
  read_row_lem (n ∷ row) ws buffer (here, small) =
      let (buffer', run) = read_row_lem row ws (print_int (pos n)) small in
      (buffer', rw (scan_lem n (words_row row ++ ws) buffer here, run, number n here) refl)

  read_rows_lem :
      (w : ℕ) (rows : List (List ℕ)) (ws : List Text) (buffer : Text)
      → AreRows w rows
      → (buffer' : Text) × (read_rows strtol w (length rows) (words_rows rows ++ ws) buffer
          ≡ some (grid_of rows, ws, buffer'))
  unfolding read_rows
  read_rows_lem w [] ws buffer valid = (buffer, refl)
  read_rows_lem w (row ∷ rows) ws buffer (len, small, valid) =
      let (buffer1, first) = read_row_lem row (words_rows rows ++ ws) buffer small in
      let first' : read_row strtol w (words_row row ++ (words_rows rows ++ ws)) buffer
          ≡ some (map pos row, words_rows rows ++ ws, buffer1) =
        ap (λ k. read_row strtol k (words_row row ++ (words_rows rows ++ ws)) buffer) (sym len)
        ∙ first in
      let (buffer2, later) = read_rows_lem w rows ws buffer1 valid in
      (buffer2, rw (append_assoc (words_row row) (words_rows rows) ws, first', later) refl)

  read_image_lem :
      (magic : Text) (w h grey : ℕ) (rows : List (List ℕ)) (buffer : Text)
      → magic ≢ []
      → HasNoSpace magic
      → length magic < 70
      → w ≤ int_max
      → h ≤ int_max
      → grey ≤ int_max
      → length rows ≡ h
      → AreRows w rows
      → (buffer' : Text) × (read_image strtol
            (words_of (header_of magic w h grey ++ rows_text (grid_of rows)))
            buffer
          ≡ some (record {
            header = header_of magic w h grey;
            width = w;
            height = h;
            cells = grid_of rows;
            buffer = buffer';
          }))
  unfolding read_image
  read_image_lem magic w h grey rows buffer ne solid short hw hh hg high valid =
      let (buffer', run) = read_rows_lem w rows [] (print_int (pos grey)) valid in
      let run' : read_rows strtol w h (words_rows rows) (print_int (pos grey))
          ≡ some (grid_of rows, [], buffer') =
        ap (λ k. read_rows strtol w k (words_rows rows) (print_int (pos grey))) (sym high)
        ∙ ap (λ ws. read_rows strtol w (length rows) ws (print_int (pos grey)))
            (sym (append-nil (words_rows rows)))
        ∙ run in
      let later = print_int (pos w) ∷ print_int (pos h) ∷ print_int (pos grey) ∷ words_rows rows in
      let first : scan (magic ∷ later) buffer ≡ some (later, magic) =
        unfold scan in rw (lt→ltb (length magic) 70 short) refl in
      (
        buffer',
        rw
            (
              words_of-header_of magic w h grey (rows_text (grid_of rows)) ne solid,
              words_of-rows_text rows,
              first,
              scan_lem w (print_int (pos h) ∷ print_int (pos grey) ∷ words_rows rows) magic hw,
              string_to_int-print_int w hw,
              scan_lem h (print_int (pos grey) ∷ words_rows rows) (print_int (pos w)) hh,
              string_to_int-print_int h hh,
              scan_lem grey (words_rows rows) (print_int (pos h)) hg,
              string_to_int-print_int grey hg,
              run',
            )
            refl,
      )

grid_of-IsGrid :
    (w : ℕ) (rows : List (List ℕ)) → AreRows w rows → IsGrid (length rows) w (grid_of rows)
grid_of-IsGrid w [] valid = nil-IsGrid w
grid_of-IsGrid w (row ∷ rows) (len, small, valid) =
    cons-IsGrid (map pos row) (grid_of rows) (length-map row pos ∙ len)
      (grid_of-IsGrid w rows valid)

-- The file that main writes for an image of `h` rows of `w` numbers, from 0 on, is one that main reads
-- as this image and the same header, if the first word of the image that was read is short enough for
-- `buffer` and the sizes are ints.
pub saved_file_lem :
    (words_of : Text → List Text) (strtol : Text → ℤ)
    → (words_of [] ≡ [])
    → ((w : Text) (d : ℕ) (rest : Text)
        → w ≢ []
        → HasNoSpace w
        → is_space d ≡ true
        → words_of (w ++ d ∷ rest) ≡ w ∷ words_of rest)
    → ((n : ℕ) → n ≤ int_max → strtol (print_int (pos n)) ≡ pos n)
    → (magic : Text) (w h grey : ℕ) (rows : List (List ℕ)) (buffer : Text) → magic ≢ []
    → HasNoSpace magic
    → length magic < 70
    → w ≤ int_max
    → h ≤ int_max
    → grey ≤ int_max
    → length rows ≡ h
    → AreRows w rows
    → (file : Text) × (image : Image) × (save (header_of magic w h grey) h w (grid_of rows)
        ≡ some file)
      × (read_image strtol (words_of file) buffer ≡ some image)
      × (image.header ≡ header_of magic w h grey)
      × (image.width ≡ w)
      × (image.height ≡ h)
      × (image.cells ≡ grid_of rows)
saved_file_lem words_of strtol end_of_file word number magic w h grey rows buffer ne solid short hw
      hh hg high valid =
    let (buffer', read) =
      read_image_lem words_of strtol end_of_file word number magic w h grey rows buffer ne solid
        short hw hh hg high valid in
    (
      header_of magic w h grey ++ rows_text (grid_of rows),
      record {
        header = header_of magic w h grey;
        width = w;
        height = h;
        cells = grid_of rows;
        buffer = buffer';
      },
      save_lem (header_of magic w h grey) h w (grid_of rows)
          (subst (λ n. IsGrid n w (grid_of rows)) high (grid_of-IsGrid w rows valid)),
      read,
      refl,
      refl,
      refl,
      refl,
    )
