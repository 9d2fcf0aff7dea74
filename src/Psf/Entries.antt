-- ===== src/Psf/Entries.antt =====
-- kernel/src/psf.rs: the iterator over the unicode table.
pub mod Table
pub mod Scan1
pub mod Scan2
pub mod Run
pub mod Laws
use mxos_v.Base.{
  ℕ, ◌+◌, ◌*◌, ◌^◌, Bool, true, false, Option, none, some, List, [], ◌∷◌, length, drop, get_elem?,
  get_range, chunks, position, leb, ltb, ◌==◌, ◌&&◌, ◌||◌, if◌then◌else◌, ◌>>=◌, ◌>>◌, assert,
}
use mxos_v.Psf.Ucs2.{from_bytes}
use mxos_v.Psf.Utf8.{from_utf8}
use mxos_v.Psf.File.{PsfVersion, PsfFile, unicode_table_start, ends_entry}

pub record UnicodeTableEntries : Type 0 where
  pub raw_bytes : List ℕ
  pub version : PsfVersion
  pub entry_index : ℕ
  pub index : ℕ

-- A string of the table: its characters, or the bytes of its code units.
pub data Value : Type 0 where
  utf8 : List ℕ → Value
  ucs2 : List ℕ → Value

pub record UnicodeTableEntry : Type 0 where
  pub index : ℕ
  pub value : Value

unfoldable pub unicode_table_entries : PsfFile → UnicodeTableEntries
unicode_table_entries f = record {
  raw_bytes = f.raw_bytes;
  version = f.version;
  entry_index = 0;
  index = unicode_table_start f;
}

-- The chunk is `[0xFF | 0xFE, 0xFF]`.
abbrev pub is_end_chunk : List ℕ → Bool
is_end_chunk (a ∷ b ∷ []) = ((a == 0xFF) || (a == 0xFE)) && (b == 0xFF)
is_end_chunk _ = false

-- The number of bytes of the first string of the rest of a table; `none` is the panic of a table
-- without a separator.
unfoldable pub string_length : PsfVersion → List ℕ → Option ℕ
string_length PsfVersion.psf1 rest = position is_end_chunk (chunks 2 rest) >>= λ p. some (2 * p)
string_length PsfVersion.psf2 rest = position ends_entry rest

-- The number of bytes of a separator.
abbrev pub separator_length : PsfVersion → ℕ
separator_length PsfVersion.psf1 = 2
separator_length PsfVersion.psf2 = 1

unfoldable pub string_value : PsfVersion → List ℕ → Option Value
string_value PsfVersion.psf1 bytes = from_bytes bytes >>= λ s. some (Value.ucs2 s)
string_value PsfVersion.psf2 bytes = from_utf8 bytes >>= λ s. some (Value.utf8 s)

-- `next`: its item and the iterator after it; the outer `none` is a panic.
unfoldable pub next : UnicodeTableEntries → Option (Option UnicodeTableEntry × UnicodeTableEntries)
next e = elim (e.index == length e.raw_bytes) [
  | true ↦ some (none, e)
  | false ↦
      assert (leb e.index (length e.raw_bytes))
      >> string_length e.version (drop e.index e.raw_bytes)
      >>= λ len.
          let str_end = e.index + len in
          get_elem? e.raw_bytes str_end >>= λ sep.
          let entry_index' : ℕ = if sep == 0xFF then e.entry_index + 1 else e.entry_index in
          assert (ltb entry_index' (2 ^ 32)) >> get_range e.raw_bytes e.index str_end >>= λ bytes.
          string_value e.version bytes >>= λ value. some (
            some (record { index = e.entry_index; value = value }),
            record e { entry_index = entry_index'; index = str_end + separator_length e.version },
          )
]
