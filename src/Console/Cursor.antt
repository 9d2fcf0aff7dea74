-- ===== src/Console/Cursor.antt =====
-- The cursor stays inside the frame buffer, and no write is out of bounds.
use mxos_v.Base.{
  ℕ, ◌+◌, ◌-◌, ◌*◌, ◌≤◌, ◌<◌, min, ◌≡◌, refl, Bool, true, Option, none, some, List, [], ◌∷◌, length,
  ◌==◌, leb, ◌||◌, ◌⊎◌, Bool-cases, Option-cases, inl, inr, arith,
}
use native.Mathlib.Nat.{mul-le-mul_left, mul_assoc}
use mxos_v.Console.{
  ConsoleGraphics, scrollup, move_down, move_right, or_else, glyph_of, draw, is_some, putchar,
  write_str,
}
use mxos_v.Console.Buffer.{FitsFont, draw_rows-Kept, scroll_buffer-Kept}

-- There is room for a glyph at the cursor and beyond, the buffer has a place for every pixel, and
-- the glyphs of the table fit the font.
pub record IsConsole (c : ConsoleGraphics) : Type 0 where
  pub wide : c.cursor.x + c.font.glyph_width < c.info.width
  pub tall : c.cursor.y + c.font.glyph_height < c.info.height
  pub stride : c.info.width ≤ c.info.stride
  pub room : c.info.bytes_per_pixel * (c.info.stride * c.info.height) ≤ length c.buffer
  pub glyphs : (ch id : ℕ) → c.table ch ≡ some id → FitsFont c.font id

-- What each operation keeps.
abbrev Stays : Option ConsoleGraphics → Type 0
Stays result = (c' : ConsoleGraphics) × (result ≡ some c') × IsConsole c'

-- The console with another cursor.
abbrev at : ConsoleGraphics → ℕ → ℕ → ConsoleGraphics
at c x y = record c { cursor = record { x = x; y = y } }

module _ (c : ConsoleGraphics) (ok : IsConsole c) where
  moved :
      (x y : ℕ)
      → x + c.font.glyph_width < c.info.width
      → y + c.font.glyph_height < c.info.height
      → IsConsole (at c x y)
  moved x y hx hy = record {
    wide = hx;
    tall = hy;
    stride = ok.stride;
    room = ok.room;
    glyphs = ok.glyphs;
  }

  line_start : IsConsole (at c 0 c.cursor.y)
  line_start = moved 0 c.cursor.y (omega (arith, ok.wide)) ok.tall

-- One glyph row below a console whose cursor is inside: scrolling brings it back.
scrollup-Stays :
    (c : ConsoleGraphics)
    → IsConsole c
    → Stays (scrollup (at c c.cursor.x (c.cursor.y + c.font.glyph_height)) 1)
unfolding scrollup
scrollup-Stays c ok =
    let y_offset = min c.info.height (c.font.glyph_height * 1) in
    let offset = c.info.bytes_per_pixel * c.info.stride * y_offset in
    let up : y_offset ≡ c.font.glyph_height = omega (arith, ok.tall) in
    let lines : y_offset ≤ c.info.height = omega arith in
    let part : c.info.bytes_per_pixel * (c.info.stride * y_offset)
        ≤ c.info.bytes_per_pixel * (c.info.stride * c.info.height) =
      mul-le-mul_left c.info.bytes_per_pixel (mul-le-mul_left c.info.stride lines) in
    let flat = mul_assoc c.info.bytes_per_pixel c.info.stride y_offset in
    let (b, runs, len) = scroll_buffer-Kept offset c.buffer (omega (arith, flat, part, ok.room)) in
    (
      record c {
        buffer = b;
        cursor = record { x = c.cursor.x; y = c.cursor.y + c.font.glyph_height - y_offset };
      },
      rw runs refl,
      record {
        wide = ok.wide;
        tall = omega (arith, up, ok.tall);
        stride = ok.stride;
        room = omega (arith, len, ok.room);
        glyphs = ok.glyphs;
      },
    )

move_down-Stays : (c : ConsoleGraphics) → IsConsole c → Stays (move_down c)
unfolding move_down
move_down-Stays c ok =
    let y' = c.cursor.y + c.font.glyph_height in
    elim (Bool-cases (leb c.info.height (y' + c.font.glyph_height))) [
      | inl last ↦
          let (c', runs, ok') = scrollup-Stays c ok in (c', rw (move_down, last, runs), ok')
      | inr more ↦ (
        at c c.cursor.x y',
        rw (move_down, more),
        moved c ok c.cursor.x y' ok.wide (ground (arith, more)),
      )
    ]

move_right-Stays : (c : ConsoleGraphics) (n : ℕ) → IsConsole c → Stays (move_right c n)
unfolding move_right
move_right-Stays c n ok =
    let x' = c.cursor.x + n * c.font.glyph_width in
    elim (Bool-cases (leb c.info.width (x' + c.font.glyph_width))) [
      | inl last ↦
          let (c', runs, ok') = move_down-Stays (at c 0 c.cursor.y) (line_start c ok) in
          (c', rw (move_right, last, runs), ok')
      | inr more ↦ (
        at c x' c.cursor.y,
        rw (move_right, more),
        moved c ok x' c.cursor.y (ground (arith, more)) ok.tall,
      )
    ]

or_else-some : (a b : Option ℕ) {id : ℕ} → or_else a b ≡ some id → (a ≡ some id) ⊎ (b ≡ some id)
or_else-some none b h = inr h
or_else-some (some k) b h = inl h

glyph_of-table :
    (table : ℕ → Option ℕ) (ch id : ℕ) → glyph_of table ch ≡ some id → (k : ℕ) × (table k ≡ some id)
unfolding glyph_of
glyph_of-table table ch id h =
    elim (or_else-some (or_else (table ch) (table 0xFFFD)) (table 0x3F) h) [
      | inr e ↦ (0x3F, e)
      | inl e ↦ elim (or_else-some (table ch) (table 0xFFFD) e) [
        | inl own ↦ (ch, own)
        | inr other ↦ (0xFFFD, other)
      ]
    ]

draw-Stays : (c : ConsoleGraphics) (ch : ℕ) → IsConsole c → Stays (draw c ch)
unfolding draw
draw-Stays c ch ok = elim (Option-cases (glyph_of c.table ch)) [
  | inl none_known ↦ (c, rw (draw, none_known), ok)
  | inr (id, e) ↦
      let (k, in_table) = glyph_of-table c.table ch id e in
      let (glyph, gets, high, short) = ok.glyphs k id in_table in
      let (b, runs, len) =
        draw_rows-Kept c.info ok.stride c.font.glyph_width c.cursor.x c.cursor.y glyph c.buffer
          (omega (arith, ok.wide)) short (omega (arith, ok.tall, high)) ok.room in
      (
        record c { buffer = b },
        rw (draw, e, gets, runs) refl,
        record {
          wide = ok.wide;
          tall = ok.tall;
          stride = ok.stride;
          room = omega (arith, len, ok.room);
          glyphs = ok.glyphs;
        },
      )
]

-- `putchar` on a console with room for a glyph at the cursor does not panic, whatever the character,
-- and leaves such a console. It reports whether the character has a glyph of its own, and reports
-- success on the three control characters.
pub putchar-IsConsole :
    (c : ConsoleGraphics) (ch : ℕ)
    → IsConsole c
    → (status : Bool) × (c' : ConsoleGraphics) × (putchar c ch ≡ some (status, c'))
      × IsConsole c'
      × (status ≡ ((ch == 0x0D) || (ch == 0x0A) || (ch == 0x09) || is_some (c.table ch)))
unfolding putchar
putchar-IsConsole c ch ok = elim (Bool-cases (ch == 0x0D)) [
  | inl cr ↦ (true, at c 0 c.cursor.y, rw cr, line_start c ok, rw cr)
  | inr e ↦ elim (Bool-cases (ch == 0x0A)) [
    | inl lf ↦
        let (c', runs, ok') = move_down-Stays (at c 0 c.cursor.y) (line_start c ok) in
        (true, c', rw (e, lf, runs) refl, ok', rw (e, lf))
    | inr e' ↦ elim (Bool-cases (ch == 0x09)) [
      | inl tab ↦
          let (c', runs, ok') = move_right-Stays c 4 ok in
          (true, c', rw (e, e', tab, runs) refl, ok', rw (e, e', tab))
      | inr e'' ↦
          let (c', runs, ok') = draw-Stays c ch ok in
          let (c'', runs', ok'') = move_right-Stays c' 1 ok' in
          (is_some (c.table ch), c'', rw (e, e', e'', runs, runs') refl, ok'', rw (e, e', e''))
    ]
  ]
]

-- Printing a text on a console with room for a glyph at the cursor does not panic, and leaves such
-- a console.
write_str-IsConsole :
    (c : ConsoleGraphics) (s : List ℕ)
    → IsConsole c
    → (c' : ConsoleGraphics) × (write_str c s ≡ some c') × IsConsole c'
unfolding write_str
write_str-IsConsole c [] ok = (c, refl, ok)
write_str-IsConsole c (ch ∷ s) ok =
    let (status, c', runs, ok', _) = putchar-IsConsole c ch ok in
    let (c'', runs', ok'') = write_str-IsConsole c' s ok' in (c'', rw (runs, runs'), ok'')
