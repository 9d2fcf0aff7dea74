-- ===== src/Console/Tests.antt =====
-- The console at a small frame buffer.
use mxos_v.Base.{
  ℕ, ◌≡◌, refl, Bool, true, false, Option, some, none, [], ◌∷◌, replicate, ◌==◌, if◌then◌else◌,
  arith,
}
use mxos_v.Psf.Tests.{font_a, file_a, parse_a, font_a-AllBytes}
use mxos_v.Console.Buffer.{FitsFont}
use mxos_v.Console.Fonts.{font_of, glyph_of_file, parse-FitsFont}
use mxos_v.Console.Start.{init, init-IsConsole}
use mxos_v.Console.{Info, Font, ConsoleGraphics, putchar}
use mxos_v.Console.Cursor.{IsConsole, putchar-IsConsole}

-- Glyphs of one pixel, and `?` alone has one.
abbrev dots : Font
dots = record { glyph_width = 1; glyph_height = 1; get_glyph = λ id. some ((true ∷ []) ∷ []) }

abbrev question : ℕ → Option ℕ
question ch = if ch == 0x3F then some 0 else none

abbrev small : ConsoleGraphics
small = record {
  font = dots;
  info = record { width = 4; height = 3; stride = 4; bytes_per_pixel = 1 };
  buffer = replicate 12 0;
  table = question;
  cursor = record { x = 2; y = 1 };
}

small-IsConsole : IsConsole small
small-IsConsole = record {
  wide = omega arith;
  tall = omega arith;
  stride = omega arith;
  room = omega arith;
  glyphs = λ ch id h. ((true ∷ []) ∷ [], refl, omega arith, (omega arith, tt));
}

putchar-IsConsole_example :
    (status : Bool) × (c' : ConsoleGraphics) × (putchar small 0x41 ≡ some (status, c'))
    × IsConsole c'
    × (status ≡ false)
putchar-IsConsole_example = putchar-IsConsole small 0x41 small-IsConsole

-- The font of the letter A on a screen of 4 by 3 pixels.
abbrev screen : Info
screen = record { width = 4; height = 3; stride = 4; bytes_per_pixel = 1 }

init-IsConsole_example :
    (c : ConsoleGraphics) × (init file_a screen (replicate 12 0) ≡ some c) × IsConsole c
init-IsConsole_example =
    init-IsConsole font_a file_a screen (replicate 12 0) parse_a font_a-AllBytes (omega arith)
      (omega arith) (omega arith) (omega arith) (omega arith) (omega arith)

parse-FitsFont_example :
    ((font_of file_a).get_glyph 0 ≡ some (glyph_of_file font_a file_a 0))
    × FitsFont (font_of file_a) 0
parse-FitsFont_example =
    parse-FitsFont font_a file_a 0 parse_a (omega arith) (omega arith) (omega arith)
