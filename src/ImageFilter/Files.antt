-- ===== src/ImageFilter/Files.antt =====
-- cw08/zad1/zad1.c: the files that main reads and writes. A file that is read is its words, which
-- fscanf("%s") gives one after another; at the end of a file fscanf leaves `buffer` as it is. What
-- strtol and strtod make of a word is a parameter, and so is what `buffer` holds at first.
use agh_so.Prelude.{
  ℕ, zero, suc, ◌+◌, List, [], ◌∷◌, ◌++◌, Option, some, ltb, ◌>>=◌, ◌>>◌, guard, length,
}
use agh_so.Prelude.Int.{ℤ, pos_part}
use agh_so.CText.{Text, string_to_int, print_int}
use agh_so.ImageFilter.{Double, Grid, at, Input}

-- `fscanf(f, "%s", buffer)`, with the words that are left.
unfoldable pub scan : List Text → Text → Option (List Text × Text)
scan [] buffer = some ([], buffer)
scan (w ∷ ws) buffer = do guard (ltb (length w) 70); some (ws, w)

module _ {A : Type 0} (convert : Text → A) where
  -- The loop over `j`, with the rounds that are left: the cells, the words behind them and `buffer`.
  unfoldable pub read_row : ℕ → List Text → Text → Option (List A × List Text × Text)
  unfolding scan
  read_row zero ws buffer = some ([], ws, buffer)
  read_row (suc rounds) ws buffer = do
    (ws1, buffer1) ← scan ws buffer
    (cells, ws2, buffer2) ← read_row rounds ws1 buffer1
    some (convert buffer1 ∷ cells, ws2, buffer2)

  -- The loop over `i`.
  unfoldable pub read_rows : ℕ → ℕ → List Text → Text → Option (Grid A × List Text × Text)
  read_rows width zero ws buffer = some ([], ws, buffer)
  read_rows width (suc rounds) ws buffer = do
    (row, ws1, buffer1) ← read_row width ws buffer
    (rows, ws2, buffer2) ← read_rows width rounds ws1 buffer1
    some (row ∷ rows, ws2, buffer2)

-- What main reads from the image: what it has written by then, the sizes, and the cells. A size
-- below 0 makes loops of no rounds.
pub record Image : Type 0 where
  pub header : Text
  pub width : ℕ
  pub height : ℕ
  pub cells : Grid ℤ
  pub buffer : Text

unfoldable pub read_image : (Text → ℤ) → List Text → Text → Option Image
unfolding scan read_rows string_to_int
read_image strtol ws0 buffer0 = do
  (ws1, magic) ← scan ws0 buffer0
  (ws2, width_text) ← scan ws1 magic
  width ← string_to_int width_text
  (ws3, height_text) ← scan ws2 width_text
  height ← string_to_int height_text
  (ws4, grey_text) ← scan ws3 height_text
  max_grey_value ← string_to_int grey_text
  (cells, ws5, buffer) ← read_rows strtol (pos_part width) (pos_part height) ws4 grey_text
  some (record {
    header = magic ++ (10 ∷ width_text ++ (32 ∷ height_text ++ (10 ∷ grey_text ++ (10 ∷ []))));
    width = pos_part width;
    height = pos_part height;
    cells = cells;
    buffer = buffer;
  })

-- The filter: its size and its cells.
unfoldable pub read_filter : {A : Type 0} → (Text → A) → List Text → Text → Option (ℕ × Grid A)
unfolding scan read_rows string_to_int
read_filter strtod ws0 buffer0 = do
  (ws1, size_text) ← scan ws0 buffer0
  c ← string_to_int size_text
  (cells, ws2, buffer) ← read_rows strtod (pos_part c) (pos_part c) ws1 size_text
  some (pos_part c, cells)

-- All that main reads: the header of the file that it writes, and the globals of the threads.
unfoldable pub load :
    (d : Double)
    → (Text → ℤ)
    → (Text → d.Real)
    → List Text
    → List Text
    → Text
    → Option (Text × Input d)
unfolding read_image read_filter
load d strtol strtod img_in filter buffer = do
  image ← read_image strtol img_in buffer
  (c, cells) ← read_filter strtod filter image.buffer
  some (
    image.header,
    record {
      height = image.height;
      width = image.width;
      c = c;
      img_in = image.cells;
      filter = cells;
    },
  )

-- The loop over `j` that writes a row, with the rounds that are left.
unfoldable pub write_row : Grid ℤ → ℕ → ℕ → ℕ → Option Text
write_row out i zero j = some []
write_row out i (suc rounds) j = do
  n ← at out i j
  later ← write_row out i rounds (j + 1)
  some (print_int n ++ (10 ∷ later))

-- The loop over `i`.
unfoldable pub write_rows : Grid ℤ → ℕ → ℕ → ℕ → Option Text
unfolding write_row
write_rows out width zero i = some []
write_rows out width (suc rounds) i = do
  row ← write_row out i width 0
  later ← write_rows out width rounds (i + 1)
  some (row ++ later)

-- The file that main writes, from the header and `img_out_array`.
unfoldable pub save : Text → ℕ → ℕ → Grid ℤ → Option Text
unfolding write_rows
save header height width out = do lines ← write_rows out width height 0; some (header ++ lines)
