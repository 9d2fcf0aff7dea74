-- ===== src/Console/Fonts.antt =====
-- The font of the console: a font file that kernel/src/psf.rs has accepted.
use mxos_v.Base.{
  ℕ, zero, suc, ◌+◌, ◌*◌, ◌/◌, ◌^◌, ◌<◌, ◌≡◌, refl, Bool, Option, none, some, List, map, length,
  take, drop, ◌>>=◌, arith,
}
use mxos_v.Psf.Outcome.{Outcome, ok, err, panic}
use mxos_v.Psf.File.{PsfFile, Glyph, get_glyph, parse}
use mxos_v.Psf.File.Laws.{IsFont, parse-IsFont, get_glyph_lem, length-glyph}
use mxos_v.Psf.Row.{rows}
use mxos_v.Psf.Row.Pixels.{length-pixels}
use mxos_v.Psf.Row.Collect.{collect}
use mxos_v.Psf.Row.Glyphs.{pixel_rows, rows-pixel_rows}
use mxos_v.Console.{Font}
use mxos_v.Console.Buffer.{AllShort, FitsFont}

-- `get_glyph(id).unwrap()`
abbrev pub unwrap : Outcome (Option Glyph) → Option Glyph
unwrap (ok g) = g
unwrap (err e) = none
unwrap panic = none

-- The pixels of a glyph, as the loops of `putchar` read them.
unfoldable pub glyph_pixels : PsfFile → ℕ → Option (List (List Bool))
glyph_pixels f id =
    unwrap (get_glyph f id) >>= λ g. rows g >>= λ its. some (map (collect (g.width + 1)) its)

unfoldable pub font_of : PsfFile → Font
font_of f = record {
  glyph_width = f.glyph_width;
  glyph_height = f.glyph_height;
  get_glyph = glyph_pixels f;
}

length-pixel_rows : (bytes : List ℕ) (k w h : ℕ) → length (pixel_rows bytes k w h) ≡ h
length-pixel_rows bytes k w zero = refl
length-pixel_rows bytes k w (suc h) = omega (arith, length-pixel_rows (drop k bytes) k w h)

pixel_rows-AllShort : (bytes : List ℕ) (k w h : ℕ) → AllShort w (pixel_rows bytes k w h)
pixel_rows-AllShort bytes k w zero = tt
pixel_rows-AllShort bytes k w (suc h) =
    (omega (arith, length-pixels bytes 0 w), pixel_rows-AllShort (drop k bytes) k w h)

-- A glyph of a font, as an accepted file lays it out.
abbrev pub glyph_of_file : List ℕ → PsfFile → ℕ → List (List Bool)
glyph_of_file bytes f id =
    pixel_rows (take f.glyph_size (drop (f.header_size + id * f.glyph_size) bytes))
      ((f.glyph_width + 7) / 8) f.glyph_width f.glyph_height

font-pixels :
    (f : PsfFile)
    → IsFont f
    → length f.raw_bytes < 2 ^ 32
    → 0 < f.glyph_width
    → (id : ℕ) → id < f.num_glyphs
    → glyph_pixels f id ≡ some (glyph_of_file f.raw_bytes f id)
unfolding glyph_pixels
font-pixels f font small wide id inside =
    let bytes = take f.glyph_size (drop (f.header_size + id * f.glyph_size) f.raw_bytes) in
    let g : Glyph = record { bytes = bytes; width = f.glyph_width } in
    let (its, runs, same) =
      rows-pixel_rows g f.glyph_height (f.glyph_width + 1) wide (font.2)
        (omega (arith, length-glyph f font small id inside, font.1)) (omega arith) in
    rw (glyph_pixels, get_glyph_lem f font small id inside, runs, same) refl

-- Every glyph of an accepted font file of less than 4 GiB whose glyphs have a column is there, has
-- the pixels of its bytes in the file, row by row, and has the size that the console expects.
pub parse-FitsFont :
    (bytes : List ℕ) (f : PsfFile) (id : ℕ)
    → parse bytes ≡ ok f
    → length bytes < 2 ^ 32
    → 0 < f.glyph_width
    → id < f.num_glyphs
    → ((font_of f).get_glyph id ≡ some (glyph_of_file bytes f id)) × FitsFont (font_of f) id
unfolding font_of
parse-FitsFont bytes f id accepted small wide inside =
    let (font, whole) = parse-IsFont bytes accepted in
    let small' : length f.raw_bytes < 2 ^ 32 = rw whole small in
    let pixels' : glyph_pixels f id ≡ some (glyph_of_file bytes f id) =
      rw (← whole) (font-pixels f font small' wide id inside) in
    let glyph = glyph_of_file bytes f id in
    let part = take f.glyph_size (drop (f.header_size + id * f.glyph_size) bytes) in
    (
      pixels',
      (
        glyph,
        pixels',
        omega
            (arith, length-pixel_rows part ((f.glyph_width + 7) / 8) f.glyph_width f.glyph_height),
        pixel_rows-AllShort part ((f.glyph_width + 7) / 8) f.glyph_width f.glyph_height,
      ),
    )
