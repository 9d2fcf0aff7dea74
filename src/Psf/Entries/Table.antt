-- ===== src/Psf/Entries/Table.antt =====
-- Well-formed unicode tables, as a relation between the bytes and the number of glyphs.
use mxos_v.Base.{
  ℕ, ◌+◌, ◌≤◌, ◌≡◌, ◌≢◌, refl, some, List, [], length, take, drop, get_elem?, ◌==◌, if◌then◌else◌,
  length-drop, arith,
}
use mxos_v.Psf.File.{PsfVersion}
use mxos_v.Psf.Entries.{Value, string_length, separator_length, string_value}

-- 1 for the separator that ends the strings of a glyph.
abbrev pub glyph_end : ℕ → ℕ
glyph_end sep = if sep == 0xFF then 1 else 0

-- `count` glyphs: strings with their separators, where the last string ends a glyph.
pub data Table (v : PsfVersion) : List ℕ → ℕ → Type 0 where
  finished : Table v [] 0
  entry :
      (t : List ℕ)
      → (len sep count : ℕ) → (value : Value) → string_length v t ≡ some len
      → len + separator_length v ≤ length t
      → get_elem? t len ≡ some sep
      → string_value v (take len t) ≡ some value
      → 1 ≤ glyph_end sep + count
      → Table v (drop (len + separator_length v) t) count
      → Table v t (glyph_end sep + count)

pub separator_length_pos : (v : PsfVersion) → 1 ≤ separator_length v
separator_length_pos PsfVersion.psf1 = omega arith
separator_length_pos PsfVersion.psf2 = omega arith

glyph_end_small : (sep : ℕ) → glyph_end sep ≤ 1
glyph_end_small sep = ground arith

-- There are no more glyphs than bytes.
pub Table-small : {v : PsfVersion} {t : List ℕ} {count : ℕ} → Table v t count → count ≤ length t
Table-small Table.finished = omega arith
Table-small {v} (Table.entry t len sep count value _ fits _ _ _ rest) = omega (
  arith,
  Table-small rest,
  glyph_end_small sep,
  separator_length_pos v,
  fits,
  length-drop (len + separator_length v) t,
)

-- A table with bytes has a glyph.
pub Table-pos : {v : PsfVersion} {t : List ℕ} {count : ℕ} → Table v t count → t ≢ [] → 1 ≤ count
Table-pos Table.finished ne = absurd (ne refl)
Table-pos (Table.entry t len sep count value _ _ _ _ pos rest) ne = pos
