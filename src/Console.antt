-- ===== src/Console.antt =====
-- kernel/src/output/console.rs: the text console on a frame buffer. Characters are code points,
-- `none` is a panic. The font and the table of glyphs are arguments.
pub mod Buffer
pub mod Cursor
pub mod Fonts
pub mod Start
mod Tests
use mxos_v.Base.{
  ℕ, zero, suc, ◌+◌, ◌-◌, ◌*◌, min, Bool, true, false, Option, none, some, ◌>>=◌, ◌>>◌, assert,
  List, [], ◌∷◌, ◌++◌, length, drop, set, ◌==◌, leb, if◌then◌else◌,
}

-- `FrameBufferInfo`
pub record Info : Type 0 where
  pub width : ℕ
  pub height : ℕ
  pub stride : ℕ
  pub bytes_per_pixel : ℕ

-- `PsfFile` as the console uses it: the size of a glyph, and the pixels of a glyph by rows.
pub record Font : Type 0 where
  pub glyph_width : ℕ
  pub glyph_height : ℕ
  pub get_glyph : ℕ → Option (List (List Bool))

pub record Point : Type 0 where
  pub x : ℕ
  pub y : ℕ

pub record ConsoleGraphics : Type 0 where
  pub font : Font
  pub info : Info
  pub buffer : List ℕ
  pub table : ℕ → Option ℕ
  pub cursor : Point

-- `slice.fill(value)` on `n` bytes from `i` on.
unfoldable pub fill_at : ℕ → ℕ → ℕ → List ℕ → List ℕ
fill_at i zero value buf = buf
fill_at i (suc n) value buf = fill_at (i + 1) n value (set buf i value)

unfoldable pub clear : ConsoleGraphics → ConsoleGraphics
clear c = record c {
  buffer = fill_at 0 (length c.buffer) 0 c.buffer;
  cursor = record { x = 0; y = 0 };
}

-- `copy_within(offset.., 0)`, then the last `offset` bytes are cleared.
unfoldable pub scroll_buffer : ℕ → List ℕ → Option (List ℕ)
scroll_buffer offset buf = do
  assert (leb offset (length buf))
  let copied = drop offset buf ++ drop (length buf - offset) buf
  some (fill_at (length buf - offset) offset 0 copied)

unfoldable pub scrollup : ConsoleGraphics → ℕ → Option ConsoleGraphics
scrollup c lines =
    let y_offset = min c.info.height (c.font.glyph_height * lines) in
    let offset = c.info.bytes_per_pixel * c.info.stride * y_offset in
    scroll_buffer offset c.buffer >>= λ b.
    some (record c { buffer = b; cursor = record { x = c.cursor.x; y = c.cursor.y - y_offset } })

unfoldable pub move_down : ConsoleGraphics → Option ConsoleGraphics
move_down c =
    let c' : ConsoleGraphics = record c {
      cursor = record { x = c.cursor.x; y = c.cursor.y + c.font.glyph_height };
    } in
    elim (leb c.info.height (c'.cursor.y + c.font.glyph_height)) [
      | true ↦ scrollup c' 1
      | false ↦ some c'
    ]

unfoldable pub move_right : ConsoleGraphics → ℕ → Option ConsoleGraphics
move_right c n =
    let x' = c.cursor.x + n * c.font.glyph_width in
    elim (leb c.info.width (x' + c.font.glyph_width)) [
      | true ↦ move_down (record c { cursor = record { x = 0; y = c.cursor.y } })
      | false ↦ some (record c { cursor = record { x = x'; y = c.cursor.y } })
    ]

-- The inner loop of `putchar`: one row of pixels from `x` on.
unfoldable pub draw_row : Info → ℕ → ℕ → List Bool → List ℕ → Option (List ℕ)
draw_row info x y [] buf = some buf
draw_row info x y (p ∷ ps) buf =
    let idx = info.bytes_per_pixel * (info.stride * y + x) in
    assert (leb (idx + info.bytes_per_pixel) (length buf))
    >> draw_row info (x + 1) y ps (fill_at idx info.bytes_per_pixel (if p then 255 else 0) buf)

-- The outer loop: the rows of a glyph.
unfoldable pub draw_rows : Info → ℕ → ℕ → List (List Bool) → List ℕ → Option (List ℕ)
draw_rows info x y [] buf = some buf
draw_rows info x y (row ∷ rows) buf = draw_row info x y row buf >>= draw_rows info x (y + 1) rows

-- `Option::or_else`
abbrev pub or_else : Option ℕ → Option ℕ → Option ℕ
or_else none b = b
or_else (some id) b = some id

-- The glyph that stands for a character, if any: its own, that of U+FFFD, or that of `?`.
unfoldable pub glyph_of : (ℕ → Option ℕ) → ℕ → Option ℕ
glyph_of table ch = or_else (or_else (table ch) (table 0xFFFD)) (table 0x3F)

unfoldable pub draw : ConsoleGraphics → ℕ → Option ConsoleGraphics
draw c ch = elim (glyph_of c.table ch) [
  | none ↦ some c
  | some id ↦ c.font.get_glyph id >>= λ glyph.
      draw_rows c.info c.cursor.x c.cursor.y glyph c.buffer >>= λ b. some (record c { buffer = b })
]

abbrev pub is_some : Option ℕ → Bool
is_some none = false
is_some (some id) = true

-- The status and the console.
unfoldable pub putchar : ConsoleGraphics → ℕ → Option (Bool × ConsoleGraphics)
putchar c ch =
    if ch == 0x0D
    then some (true, record c { cursor = record { x = 0; y = c.cursor.y } })
    else if ch == 0x0A
    then (move_down (record c { cursor = record { x = 0; y = c.cursor.y } }) >>= λ c'.
        some (true, c'))
    else if ch == 0x09
    then (move_right c 4 >>= λ c'. some (true, c'))
    else (draw c ch >>= λ c'. move_right c' 1 >>= λ c''. some (is_some (c.table ch), c''))

-- `write_str`
unfoldable pub write_str : ConsoleGraphics → List ℕ → Option ConsoleGraphics
write_str c [] = some c
write_str c (ch ∷ s) = putchar c ch >>= λ r. write_str r.1 s
