-- ===== src/Psf/Tests.antt =====
-- The reader of fonts at small files.
use mxos_v.Base.{
  ◌+◌, ◌^◌, ℕ, ◌<◌, ◌≡◌, ◌↔◌, inl, refl, Bool, true, some, List, [], ◌∷◌, ◌++◌, map, length,
  get_elem?, ltb, ltb→lt, Bool-cases, inr, ◌&&◌, arith,
}
use mxos_v.Psf.Outcome.{ok, panic}
use mxos_v.Psf.Ucs2.{from_bytes, chars, get, str_len, verify, chunk_is_char}
use mxos_v.Psf.Ucs2.Laws.{AllBytes, encode, from_bytes-encode, from_bytes-chars}
use mxos_v.Psf.File.{
  PsfFile, Glyph, PsfVersion, parse, process_unicode_table, unicode_table_start, parse2, accept2,
  header_num, size_of, accept_size, read_header2, with_table, scan, scan_utf8, finish,
}
use mxos_v.Psf.Utf8.{from_utf8}
use mxos_v.Psf.File.Panics.{process_unicode_table-panics}
use mxos_v.Psf.Entries.{UnicodeTableEntry, unicode_table_entries}
use mxos_v.Psf.Entries.Run.{run, AllBelow}
use mxos_v.Psf.Entries.Laws.{parse-entries}
use mxos_v.Psf.Row.{GlyphRowIter, next, next_back, nth, rows, size_hint, split_indices}
use mxos_v.Psf.Row.Pixels.{IsRow, Steps, remaining, next-Steps}
use mxos_v.Psf.Row.Back.{StepsBack, next_back-StepsBack}
use mxos_v.Psf.Row.Collect.{collect, collect-remaining, size_hint_lem, predecessor}
use mxos_v.Psf.Row.Nth.{nth_lem}
use mxos_v.Psf.Row.Glyphs.{pixel_rows, rows-pixel_rows}

-- A PSF2 file with one glyph of one pixel, for the letter A.
abbrev header_a : List ℕ
header_a =
    0x72 ∷ 0xB5 ∷ 0x4A ∷ 0x86 ∷ 0 ∷ 0 ∷ 0 ∷ 0 ∷ 32 ∷ 0 ∷ 0 ∷ 0 ∷ 1 ∷ 0 ∷ 0 ∷ 0 ∷ 1 ∷ 0 ∷ 0 ∷ 0 ∷ 1
    ∷ 0 ∷ 0 ∷ 0 ∷ 1 ∷ 0 ∷ 0 ∷ 0 ∷ 1 ∷ 0 ∷ 0 ∷ 0 ∷ []

abbrev pub font_a : List ℕ
font_a = header_a ++ (0x80 ∷ 0x41 ∷ 0xFF ∷ [])

abbrev pub file_a : PsfFile
file_a = record {
  raw_bytes = font_a;
  version = PsfVersion.psf2;
  header_size = 32;
  has_unicode_table = true;
  glyph_size = 1;
  glyph_width = 1;
  glyph_height = 1;
  num_glyphs = 1;
  longest_glyph = 1;
}

pub parse_a : parse font_a ≡ ok file_a
unfolding parse parse2 accept2 header_num size_of accept_size process_unicode_table read_header2
    with_table unicode_table_start scan scan_utf8 from_utf8 finish
parse_a = refl

abbrev all_below : ℕ → List ℕ → Bool
all_below n [] = true
all_below n (b ∷ bs) = ltb b n && all_below n bs

all_below-AllBytes : (bs : List ℕ) → all_below 0x100 bs ≡ true → AllBytes bs
all_below-AllBytes [] h = tt
all_below-AllBytes (b ∷ bs) h = elim (Bool-cases (ltb b 0x100)) [
  | inl small ↦ (ltb→lt b 0x100 small, all_below-AllBytes bs (rw small at h))
  | inr large ↦ absurd (cc (rw large at h))
]

pub font_a-AllBytes : AllBytes font_a
font_a-AllBytes = all_below-AllBytes font_a refl

parse-entries_example :
    (xs : List UnicodeTableEntry) × (run 36 (unicode_table_entries file_a) ≡ some xs)
    × AllBelow 1 xs
parse-entries_example =
    parse-entries font_a file_a 36 parse_a font_a-AllBytes (omega arith) (omega arith)

process_unicode_table-panics_example :
    (process_unicode_table (record file_a { raw_bytes = header_a }) ≡ panic) ↔ (
      (true ≡ true)
      × (length header_a < unicode_table_start (record file_a { raw_bytes = header_a })))
process_unicode_table-panics_example =
    process_unicode_table-panics (record file_a { raw_bytes = header_a })

-- "Aß"
from_bytes-encode_example :
    (from_bytes (0x41 ∷ 0 ∷ 0xDF ∷ 0 ∷ []) ≡ some (0x41 ∷ 0 ∷ 0xDF ∷ 0 ∷ []))
    × (chars (0x41 ∷ 0 ∷ 0xDF ∷ 0 ∷ []) ≡ 0x41 ∷ 0xDF ∷ [])
from_bytes-encode_example =
    from_bytes-encode (0x41 ∷ 0xDF ∷ []) (inl (omega arith), (inl (omega arith), tt))

-- A dagger and an A.
abbrev dagger_a : List ℕ
dagger_a = 0x20 ∷ 0x20 ∷ 0x41 ∷ 0 ∷ []

from_bytes-chars_example :
    (dagger_a ≡ dagger_a)
    × (encode (chars dagger_a) ≡ dagger_a)
    × (str_len dagger_a ≡ length (chars dagger_a))
    × ((i : ℕ) → i + 1 < 2 ^ 63 → get dagger_a i ≡ get_elem? (chars dagger_a) i)
unfolding from_bytes verify chunk_is_char
from_bytes-chars_example =
    from_bytes-chars dagger_a dagger_a (all_below-AllBytes dagger_a refl) refl

-- A row of ten pixels, of which three have been read.
abbrev ten : GlyphRowIter
ten = record { bytes = 0xA5 ∷ 0xC0 ∷ []; indices = 0x13 }

ten-IsRow : IsRow ten
ten-IsRow = (3, 1, omega arith, omega arith, refl)

next-Steps_example : Steps (remaining ten) (next ten)
next-Steps_example = next-Steps ten ten-IsRow

next_back-StepsBack_example : StepsBack (remaining ten) (next_back ten)
next_back-StepsBack_example = next_back-StepsBack ten ten-IsRow

collect-remaining_example : collect 8 ten ≡ remaining ten
unfolding split_indices
collect-remaining_example = collect-remaining 8 ten ten-IsRow (omega arith)

size_hint_lem_example : size_hint ten ≡ predecessor (length (remaining ten))
size_hint_lem_example = size_hint_lem ten ten-IsRow

nth_lem_example : (nth 2 ten).0 ≡ get_elem? (remaining ten) 10
nth_lem_example = nth_lem ten 2 ten-IsRow

-- Two rows of ten pixels.
abbrev square : Glyph
square = record { bytes = 0xFF ∷ 0xC0 ∷ 0x80 ∷ 0x40 ∷ []; width = 10 }

rows-pixel_rows_example :
    (its : List GlyphRowIter) × (rows square ≡ some its)
    × (map (collect 11) its ≡ pixel_rows (0xFF ∷ 0xC0 ∷ 0x80 ∷ 0x40 ∷ []) 2 10 2)
rows-pixel_rows_example = rows-pixel_rows square 2 11 (omega arith) (omega arith) refl (omega arith)
