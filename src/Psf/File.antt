-- ===== src/Psf/File.antt =====
-- kernel/src/psf.rs: the header of a font file, its unicode table, and the bytes of a glyph.
pub mod Laws
pub mod Panics
use mxos_v.Base.{
  ℕ, zero, suc, ◌+◌, ◌*◌, ◌/◌, ◌-◌, ◌%◌, ◌^◌, max, bit_and, Bool, true, false, ◌&&◌, ◌||◌, not,
  Option, none, some, List, [], ◌∷◌, length, take, drop, get_or, get_range, chunks, split_inclusive,
  split_last, leb, ltb, ◌==◌, if◌then◌else◌,
}
use Prim.Native.Nat.{compare, Ordering}
use mxos_v.Psf.Outcome.{Error, Outcome, ok, err, panic, ◌>>=◌, ◌>>◌, ok_or, check, require}
use mxos_v.Psf.Ucs2.{u16_from_le, is_char, list_eq}
use mxos_v.Psf.Utf8.{from_utf8}

pub data PsfVersion : Type 0 where
  psf1 : PsfVersion
  psf2 : PsfVersion

pub record PsfFile : Type 0 where
  pub raw_bytes : List ℕ
  pub version : PsfVersion
  pub header_size : ℕ
  pub has_unicode_table : Bool
  pub glyph_size : ℕ
  pub glyph_width : ℕ
  pub glyph_height : ℕ
  pub num_glyphs : ℕ
  pub longest_glyph : ℕ

-- `starts_with` and `ends_with`
abbrev pub starts_with : List ℕ → List ℕ → Bool
starts_with bytes prefix = list_eq (take (length prefix) bytes) prefix

abbrev pub ends_with : List ℕ → List ℕ → Bool
ends_with bytes suffix = list_eq (drop (length bytes - length suffix) bytes) suffix

unfoldable pub unicode_table_start : PsfFile → ℕ
unicode_table_start f = f.header_size + f.num_glyphs * f.glyph_size

abbrev pub is_separator : ℕ → Bool
is_separator ch = (ch == 0xFFFE) || (ch == 0xFFFF)

-- The loop over the code units of a PSF1 table: the longest entry and the number of entries.
unfoldable pub scan_ucs2 : List (List ℕ) → ℕ → ℕ → ℕ → Outcome (ℕ × ℕ)
scan_ucs2 [] len longest entries = ok (longest, entries)
scan_ucs2 ((a ∷ b ∷ []) ∷ cs) len longest entries = elim (is_separator (u16_from_le a b)) [
  | true ↦ scan_ucs2 cs 0 (max longest len) (entries + bit_and (u16_from_le a b) 1)
  | false ↦ elim (is_char (u16_from_le a b)) [
    | true ↦ scan_ucs2 cs (len + 1) longest entries
    | false ↦ err Error.ucs2_error
  ]
]
scan_ucs2 (_ ∷ cs) len longest entries = err Error.ucs2_error

-- The bytes 0xFE and 0xFF, which end an entry of a PSF2 table.
abbrev pub ends_entry : ℕ → Bool
ends_entry b = ltb 0xFD b

-- The loop over the entries of a PSF2 table.
unfoldable pub scan_utf8 : List (List ℕ) → ℕ → ℕ → Outcome (ℕ × ℕ)
scan_utf8 [] longest entries = ok (longest, entries)
scan_utf8 (s ∷ ss) longest entries = ok_or (split_last s) Error.unterminated_unicode_table >>= λ p.
    ok_or (from_utf8 p.1) Error.utf8_error >>= λ cs.
    scan_utf8 ss (max longest (length cs)) (entries + bit_and p.0 1)

-- Both loops, with their test of the end of the file.
unfoldable pub scan : PsfVersion → List ℕ → ℕ → Outcome (ℕ × ℕ)
scan PsfVersion.psf1 bytes start = scan_ucs2 (chunks 2 (drop start bytes)) 0 0 0 >>= λ r.
    check (ends_with bytes (0xFF ∷ 0xFF ∷ [])) Error.unterminated_unicode_table >> ok r
scan PsfVersion.psf2 bytes start =
    scan_utf8 (split_inclusive ends_entry (drop start bytes)) 0 0 >>= λ r.
    check (ends_with bytes (0xFF ∷ [])) Error.unterminated_unicode_table >> ok r

-- A file without a table ends with its glyphs.
unfoldable pub without_table : PsfFile → Outcome PsfFile
without_table f = elim (compare (length f.raw_bytes) (unicode_table_start f)) [
  | Ordering.lt ↦ err Error.unexpected_end
  | Ordering.eq ↦ ok f
  | Ordering.gt ↦ err Error.unexpected_unicode_table
]

-- The end of the function, on the longest entry and the number of entries.
unfoldable pub finish : PsfFile → ℕ × ℕ → Outcome PsfFile
finish f r =
    check (r.1 == f.num_glyphs) (Error.invalid_unicode_table_size f.num_glyphs (r.1))
    >> ok (record f { longest_glyph = r.0 % 2 ^ 8 })

-- The table starts in the file, or its slice panics.
unfoldable pub with_table : PsfFile → Outcome PsfFile
with_table f =
    require (leb (unicode_table_start f) (length f.raw_bytes))
    >> (scan f.version f.raw_bytes (unicode_table_start f) >>= finish f)

unfoldable pub process_unicode_table : PsfFile → Outcome PsfFile
process_unicode_table f = elim f.has_unicode_table [ false ↦ without_table f | true ↦ with_table f ]

-- The fields that a PSF1 header gives.
unfoldable pub read_header1 : List ℕ → List ℕ → PsfFile
read_header1 bytes header = record {
  raw_bytes = bytes;
  version = PsfVersion.psf1;
  header_size = 4;
  num_glyphs = if bit_and (get_or header 2 0) 1 == 0 then 256 else 512;
  has_unicode_table = not (bit_and (get_or header 2 0) 6 == 0);
  glyph_size = get_or header 3 0;
  glyph_height = get_or header 3 0;
  glyph_width = 8;
  longest_glyph = 0;
}

unfoldable pub accept1 : List ℕ → List ℕ → Outcome PsfFile
accept1 bytes header = do
  check ((get_or header 0 0 == 0x36) && (get_or header 1 0 == 0x04)) Error.invalid_magic
  process_unicode_table (read_header1 bytes header)

unfoldable pub parse1 : List ℕ → Outcome PsfFile
parse1 bytes = ok_or (get_range bytes 0 4) Error.unexpected_end >>= accept1 bytes

-- `header_num`: a little-endian 32-bit word of the header
unfoldable pub header_num : List ℕ → ℕ → ℕ
header_num header i =
    get_or header (4 * i) 0
    + 0x100 * get_or header (4 * i + 1) 0
    + 0x10000 * get_or header (4 * i + 2) 0
    + 0x1000000 * get_or header (4 * i + 3) 0

-- `height * ((width + 7) / 8)` in 32 bits, where an overflow panics.
unfoldable pub size_of : ℕ → ℕ → Outcome ℕ
size_of height width = do
  require (ltb (width + 7) (2 ^ 32))
  require (ltb (height * ((width + 7) / 8)) (2 ^ 32))
  ok (height * ((width + 7) / 8))

-- The fields that a PSF2 header gives, with the size of a glyph.
unfoldable pub read_header2 : List ℕ → List ℕ → ℕ → PsfFile
read_header2 bytes header size = record {
  raw_bytes = bytes;
  version = PsfVersion.psf2;
  header_size = max (header_num header 2) 32;
  has_unicode_table = not (bit_and (header_num header 3) 1 == 0);
  num_glyphs = header_num header 4;
  glyph_height = header_num header 6;
  glyph_width = header_num header 7;
  glyph_size = size;
  longest_glyph = 0;
}

unfoldable pub accept_size : List ℕ → List ℕ → ℕ → Outcome PsfFile
accept_size bytes header size = do
  check (header_num header 5 == size) Error.invalid_glyph_size
  process_unicode_table (read_header2 bytes header size)

unfoldable pub accept2 : List ℕ → List ℕ → Outcome PsfFile
accept2 bytes header = do
  check (header_num header 0 == 0x864ab572) Error.invalid_magic
  check (header_num header 1 == 0) (Error.unknown_psf2_version (header_num header 1))
  size_of (header_num header 6) (header_num header 7) >>= accept_size bytes header

unfoldable pub parse2 : List ℕ → Outcome PsfFile
parse2 bytes = ok_or (get_range bytes 0 32) Error.unexpected_end >>= accept2 bytes

unfoldable pub parse : List ℕ → Outcome PsfFile
parse bytes = elim (starts_with bytes (0x72 ∷ 0xB5 ∷ 0x4A ∷ 0x86 ∷ [])) [
  | true ↦ parse2 bytes
  | false ↦ elim (starts_with bytes (0x36 ∷ 0x04 ∷ [])) [
    | true ↦ parse1 bytes
    | false ↦ err Error.invalid_magic
  ]
]

pub record Glyph : Type 0 where
  pub bytes : List ℕ
  pub width : ℕ

-- The start of a glyph is computed in 32 bits, where an overflow panics.
unfoldable pub get_glyph : PsfFile → ℕ → Outcome (Option Glyph)
get_glyph f entry =
    let start = f.header_size + entry * f.glyph_size in
    require (ltb (entry * f.glyph_size) (2 ^ 32))
    >> require (ltb start (2 ^ 32))
    >> elim (get_range f.raw_bytes start (start + f.glyph_size)) [
      | none ↦ ok none
      | some bytes ↦ ok (some (record { bytes = bytes; width = f.glyph_width }))
    ]
