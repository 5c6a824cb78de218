-- ===== src/ImageFilter/Loaded.antt =====
-- What cw08/zad1/zad1.c reads fits its threads, and what it writes.
use mathlib.Core.Path.{subst}
use mathlib.Core.List.{append_assoc}
use agh_so.Prelude.{
  some_inj, length-append, get_elem?-append, ℕ, zero, suc, ◌+◌, ◌≡◌, ◌≢◌, refl, sym, ap, ◌∙◌, List,
  [], ◌∷◌, ◌++◌, some, arith, >>=-eq-some, length, get_elem?,
}
use agh_so.Prelude.Int.{ℤ, pos_part}
use agh_so.CText.{Text, string_to_int, print_int}
use agh_so.ImageFilter.{Double, Grid, Input, start_routine}
use agh_so.ImageFilter.Files.{
  scan, read_row, read_rows, Image, read_image, read_filter, load, write_row, write_rows, save,
}
use agh_so.ImageFilter.Cells.{IsGrid}
use agh_so.ImageFilter.Pixel.{IsSized}
use agh_so.ImageFilter.Threads.{State, Reach, AreDone}
use agh_so.ImageFilter.Result.{threads_lem}

pub nil-IsGrid : {A : Type 0} (w : ℕ) → IsGrid {A = A} 0 w []
nil-IsGrid w = record { high = refl; wide = λ i row e. absurd (cc) }

pub cons-IsGrid :
    {A : Type 0} {h w : ℕ} (row : List A) (rows : Grid A)
    → length row ≡ w
    → IsGrid h w rows
    → IsGrid (suc h) w (row ∷ rows)
cons-IsGrid {A} {h} {w} row rows len grid = record { high = ap suc grid.high; wide = wide }
  where
    wide : (i : ℕ) (row' : List A) → get_elem? (row ∷ rows) i ≡ some row' → length row' ≡ w
    wide zero row' e = ap length (sym (some_inj e)) ∙ len
    wide (suc i) row' e = grid.wide i row' e

module _ {A : Type 0} (convert : Text → A) where
  length-read_row :
      (rounds : ℕ) (ws : List Text) (buffer : Text) (cells : List A) (ws' : List Text)
      (buffer' : Text)
      → read_row convert rounds ws buffer ≡ some (cells, ws', buffer')
      → length cells ≡ rounds
  unfolding read_row
  length-read_row zero ws buffer cells ws' buffer' e =
      let none_read : [] ≡ cells = cc in ap length (sym none_read)
  length-read_row (suc rounds) ws buffer cells ws' buffer' e =
      let ((ws1, buffer1), s, e1) = >>=-eq-some (scan ws buffer) _ e in
      let ((later, ws2, buffer2), r, e2) = >>=-eq-some (read_row convert rounds ws1 buffer1) _ e1 in
      let same : convert buffer1 ∷ later ≡ cells = cc in
      ap length (sym same) ∙ ap suc (length-read_row rounds ws1 buffer1 later ws2 buffer2 r)

  read_rows-IsGrid :
      (width rounds : ℕ) (ws : List Text) (buffer : Text) (rows : Grid A) (ws' : List Text)
      (buffer' : Text)
      → read_rows convert width rounds ws buffer ≡ some (rows, ws', buffer')
      → IsGrid rounds width rows
  unfolding read_rows
  read_rows-IsGrid width zero ws buffer rows ws' buffer' e =
      let none_read : [] ≡ rows = cc in subst (IsGrid 0 width) none_read (nil-IsGrid width)
  read_rows-IsGrid width (suc rounds) ws buffer rows ws' buffer' e =
      let ((row, ws1, buffer1), s, e1) = >>=-eq-some (read_row convert width ws buffer) _ e in
      let ((later, ws2, buffer2), r, e2) =
        >>=-eq-some (read_rows convert width rounds ws1 buffer1) _ e1 in
      let same : row ∷ later ≡ rows = cc in
      subst (IsGrid (suc rounds) width) same (
        cons-IsGrid row later (length-read_row width ws buffer row ws1 buffer1 s)
          (read_rows-IsGrid width rounds ws1 buffer1 later ws2 buffer2 r))

read_image-IsGrid :
    (strtol : Text → ℤ) (ws : List Text) (buffer : Text) (image : Image)
    → read_image strtol ws buffer ≡ some image
    → IsGrid image.height image.width image.cells
unfolding read_image
read_image-IsGrid strtol ws buffer image e =
    let ((ws1, magic), s1, e1) = >>=-eq-some (scan ws buffer) _ e in
    let ((ws2, width_text), s2, e2) = >>=-eq-some (scan ws1 magic) _ e1 in
    let (width, n2, e3) = >>=-eq-some (string_to_int width_text) _ e2 in
    let ((ws3, height_text), s3, e4) = >>=-eq-some (scan ws2 width_text) _ e3 in
    let (height, n3, e5) = >>=-eq-some (string_to_int height_text) _ e4 in
    let ((ws4, grey_text), s4, e6) = >>=-eq-some (scan ws3 height_text) _ e5 in
    let (grey, n4, e7) = >>=-eq-some (string_to_int grey_text) _ e6 in
    let ((cells, ws5, buffer'), r, e8) =
      >>=-eq-some (read_rows strtol (pos_part width) (pos_part height) ws4 grey_text) _ e7 in
    let grid =
      read_rows-IsGrid strtol (pos_part width) (pos_part height) ws4 grey_text cells ws5 buffer'
        r in
    subst (λ (i : Image). IsGrid i.height i.width i.cells) (some_inj e8) grid

read_filter-IsGrid :
    {A : Type 0} (strtod : Text → A) (ws : List Text) (buffer : Text) (c : ℕ) (cells : Grid A)
    → read_filter strtod ws buffer ≡ some (c, cells)
    → IsGrid c c cells
unfolding read_filter
read_filter-IsGrid {A} strtod ws buffer c cells e =
    let ((ws1, size_text), s1, e1) = >>=-eq-some (scan ws buffer) _ e in
    let (n, n1, e2) = >>=-eq-some (string_to_int size_text) _ e1 in
    let ((cells', ws2, buffer'), r, e3) =
      >>=-eq-some (read_rows strtod (pos_part n) (pos_part n) ws1 size_text) _ e2 in
    let grid =
      read_rows-IsGrid strtod (pos_part n) (pos_part n) ws1 size_text cells' ws2 buffer' r in
    subst (λ (p : ℕ × Grid A). IsGrid p.0 p.0 p.1) (some_inj e3) grid

load-IsSized :
    (d : Double) (strtol : Text → ℤ) (strtod : Text → d.Real) (img_in filter : List Text)
    (buffer header : Text) (g : Input d)
    → load d strtol strtod img_in filter buffer ≡ some (header, g)
    → IsSized g
unfolding load
load-IsSized d strtol strtod img_in filter buffer header g e =
    let (image, r, e1) = >>=-eq-some (read_image strtol img_in buffer) _ e in
    let ((c, cells), r', e2) = >>=-eq-some (read_filter strtod filter image.buffer) _ e1 in
    let loaded : IsSized (record {
      height = image.height;
      width = image.width;
      c = c;
      img_in = image.cells;
      filter = cells;
    }) =
      record {
        image = read_image-IsGrid strtol img_in buffer image r;
        square = read_filter-IsGrid strtod filter image.buffer c cells r';
      } in
    subst (λ (p : Text × Input d). IsSized p.1) (some_inj e2) loaded

-- The text of a row.
abbrev pub row_text : List ℤ → Text
row_text [] = []
row_text (n ∷ row) = print_int n ++ (10 ∷ row_text row)

abbrev pub rows_text : Grid ℤ → Text
rows_text [] = []
rows_text (row ∷ rows) = row_text row ++ rows_text rows

write_row_lem :
    (out : Grid ℤ) (i : ℕ) (done row : List ℤ)
    → get_elem? out i ≡ some (done ++ row)
    → write_row out i (length row) (length done) ≡ some (row_text row)
unfolding write_row
write_row_lem out i done [] e = refl
write_row_lem out i done (n ∷ row) e =
    let here = get_elem?-append done n row (length done) refl in
    let next : write_row out i (length row) (length done + 1) ≡ some (row_text row) =
      ap (write_row out i (length row)) (omega (arith, length-append done (n ∷ [])))
      ∙ write_row_lem out i (done ++ n ∷ []) row
          (e ∙ ap some (sym (append_assoc done (n ∷ []) row))) in
    rw (e, here, next) refl

write_rows_lem :
    (w : ℕ) (done rows : Grid ℤ)
    → ((i : ℕ) (row : List ℤ) → get_elem? rows i ≡ some row → length row ≡ w)
    → write_rows (done ++ rows) w (length rows) (length done) ≡ some (rows_text rows)
unfolding write_rows
write_rows_lem w done [] wide = refl
write_rows_lem w done (row ∷ rows) wide =
    let here = get_elem?-append done row rows (length done) refl in
    let this : write_row (done ++ row ∷ rows) (length done) w 0 ≡ some (row_text row) =
      ap (λ k. write_row (done ++ row ∷ rows) (length done) k 0) (sym (wide 0 row refl))
      ∙ write_row_lem (done ++ row ∷ rows) (length done) [] row here in
    let next : write_rows (done ++ row ∷ rows) w (length rows) (length done + 1)
        ≡ some (rows_text rows) =
      ap (write_rows (done ++ row ∷ rows) w (length rows))
        (omega (arith, length-append done (row ∷ [])))
      ∙ ap (λ l. write_rows l w (length rows) (length (done ++ row ∷ [])))
          (sym (append_assoc done (row ∷ []) rows))
      ∙ write_rows_lem w (done ++ row ∷ []) rows (λ i r e. wide (suc i) r e) in
    rw (this, next) refl

pub save_lem :
    (header : Text) (h w : ℕ) (out : Grid ℤ)
    → IsGrid h w out
    → save header h w out ≡ some (header ++ rows_text out)
unfolding save
save_lem header h w out grid =
    let written : write_rows out w h 0 ≡ some (rows_text out) =
      ap (λ k. write_rows out w k 0) (sym grid.high) ∙ write_rows_lem w [] out grid.wide in
    rw written refl

-- Whatever the files hold that main can read, if there is a thread: when all threads have left their
-- loops, `img_out_array` is what a single pass over all rows makes of it, in whatever order they have
-- taken their steps. Whether main waits for this is not said, nor what it overwrites with the
-- identifiers of the threads.
pub loaded_threads :
    (d : Double) (strtol : Text → ℤ) (strtod : Text → d.Real) (img_in filter : List Text)
    (buffer header : Text) (g : Input d) (t : ℕ) (out : Grid ℤ) (s : State)
    → load d strtol strtod img_in filter buffer ≡ some (header, g)
    → t ≢ 0
    → IsGrid g.height g.width out
    → Reach g t out s
    → AreDone g t s
    → start_routine g 0 g.height out ≡ some s.out
loaded_threads d strtol strtod img_in filter buffer header g t out s loaded some_t grid r done =
    let sized = load-IsSized d strtol strtod img_in filter buffer header g loaded in
    threads_lem g t out s sized some_t grid r done
