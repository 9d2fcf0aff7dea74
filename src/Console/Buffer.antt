-- ===== src/Console/Buffer.antt =====
-- The writes to the frame buffer: their bounds, and the length of the buffer.
use mxos_v.Base.{
  ℕ, zero, suc, ◌+◌, ◌-◌, ◌*◌, ◌≤◌, ◌<◌, ◌≡◌, refl, ◌∙◌, Bool, Option, some, List, [], ◌∷◌, ◌++◌,
  length, drop, set, length-append, length-set, le→leb, if◌then◌else◌, arith,
}
use native.Mathlib.Nat.{mul-le-mul_left, mul-add}
use mxos_v.Console.{Info, Font, fill_at, scroll_buffer, draw_row, draw_rows}

pub length-fill_at : (i n value : ℕ) (buf : List ℕ) → length (fill_at i n value buf) ≡ length buf
unfolding fill_at
length-fill_at i zero value buf = refl
length-fill_at i (suc n) value buf =
    length-fill_at (i + 1) n value (set buf i value) ∙ length-set buf i value

length-drop : (n : ℕ) (xs : List ℕ) → length (drop n xs) ≡ length xs - n
length-drop zero xs = omega arith
length-drop (suc n) [] = omega arith
length-drop (suc n) (x ∷ xs) = omega (arith, length-drop n xs)

-- Every row has at most `w` pixels.
abbrev pub AllShort : ℕ → List (List Bool) → Type 0
AllShort w [] = Unit
AllShort w (row ∷ rows) = (length row ≤ w) × AllShort w rows

-- The glyph exists and has the size of the font, or less.
abbrev pub FitsFont : Font → ℕ → Type 0
FitsFont font id =
    (glyph : List (List Bool)) × (font.get_glyph id ≡ some glyph)
    × (length glyph ≤ font.glyph_height)
    × AllShort font.glyph_width glyph

-- The last byte of a pixel.
pixel_end :
    (bpp stride height x y : ℕ)
    → x < stride
    → y < height
    → bpp * (stride * y + x) + bpp ≤ bpp * (stride * height)
pixel_end bpp stride height x y hx hy =
    let rows : stride * (y + 1) ≤ stride * height = mul-le-mul_left stride (omega arith) in
    let one_more : stride * y + x + 1 ≤ stride * height = omega (arith, rows, mul-add stride y 1) in
    let scaled : bpp * (stride * y + x + 1) ≤ bpp * (stride * height) =
      mul-le-mul_left bpp one_more in
    omega (arith, scaled, mul-add bpp (stride * y + x) 1)

-- A buffer of the same length.
abbrev pub Kept : Option (List ℕ) → List ℕ → Type 0
Kept result buf = (b : List ℕ) × (result ≡ some b) × (length b ≡ length buf)

module _ (info : Info) (stride : info.width ≤ info.stride) where
  draw_row-Kept :
      (x y : ℕ) (ps : List Bool) (buf : List ℕ)
      → x + length ps ≤ info.width
      → y < info.height
      → info.bytes_per_pixel * (info.stride * info.height) ≤ length buf
      → Kept (draw_row info x y ps buf) buf
  unfolding draw_row
  draw_row-Kept x y [] buf hx hy room = (buf, refl, refl)
  draw_row-Kept x y (p ∷ ps) buf hx hy room =
      let idx = info.bytes_per_pixel * (info.stride * y + x) in
      let ends = pixel_end info.bytes_per_pixel info.stride info.height x y (omega arith) hy in
      let value : ℕ = if p then 255 else 0 in
      let same = length-fill_at idx info.bytes_per_pixel value buf in
      let (b, runs, len) =
        draw_row-Kept (x + 1) y ps (fill_at idx info.bytes_per_pixel value buf) (omega arith) hy
          (rw same room) in
      (
        b,
        rw (le→leb (idx + info.bytes_per_pixel) (length buf) (omega arith), runs) refl,
        len ∙ same,
      )

  pub draw_rows-Kept :
      (w x y : ℕ) (rows : List (List Bool)) (buf : List ℕ)
      → x + w ≤ info.width
      → AllShort w rows
      → y + length rows ≤ info.height
      → info.bytes_per_pixel * (info.stride * info.height) ≤ length buf
      → Kept (draw_rows info x y rows buf) buf
  unfolding draw_rows
  draw_rows-Kept w x y [] buf hx short hy room = (buf, refl, refl)
  draw_rows-Kept w x y (row ∷ rows) buf hx short hy room =
      let row_fits = short.0 in
      let (b, runs, len) = draw_row-Kept x y row buf (omega arith) (omega arith) room in
      let (b', runs', len') =
        draw_rows-Kept w x (y + 1) rows b hx (short.1) (omega arith) (rw len room) in
      (b', rw (runs, runs') refl, len' ∙ len)

pub scroll_buffer-Kept :
    (offset : ℕ) (buf : List ℕ) → offset ≤ length buf → Kept (scroll_buffer offset buf) buf
unfolding scroll_buffer
scroll_buffer-Kept offset buf h =
    let copied = drop offset buf ++ drop (length buf - offset) buf in
    (
      fill_at (length buf - offset) offset 0 copied,
      rw (le→leb offset (length buf) h) refl,
      length-fill_at (length buf - offset) offset 0 copied
          ∙ omega (
            arith,
            length-append (drop offset buf) (drop (length buf - offset) buf),
            length-drop offset buf,
            length-drop (length buf - offset) buf,
          ),
    )
