-- ===== src/Psf/Entries/Scan2.antt =====
-- A PSF2 table that the scan accepts is well formed.
use mxos_v.Base.{
  ℕ, zero, suc, ◌+◌, ◌-◌, ◌≤◌, ◌<◌, max, bit_and, ◌≡◌, ◌≢◌, ◌⊎◌, refl, sym, ap, ◌∙◌, inl, inr, true,
  false, some, List, [], ◌∷◌, length, take, drop, get_elem?, position, split_inclusive, split_last,
  length-drop, ◌==◌, Bool-cases, ==_iff, arith,
}
use mxos_v.Psf.Outcome.{Error, ok, ok_or, >>=-eq-ok, ok_or-eq-ok}
use mxos_v.Psf.Ucs2.Laws.{AllBytes}
use mxos_v.Psf.Utf8.{from_utf8}
use mxos_v.Psf.File.{PsfVersion, ends_entry, scan_utf8}
use mxos_v.Psf.Entries.{Value, string_length, string_value}
use mxos_v.Psf.Entries.Table.{Table, glyph_end, Table-pos}

-- The last byte, if any, is 0xFF.
abbrev pub EndsGlyph : List ℕ → Type 0
EndsGlyph [] = Unit
EndsGlyph (x ∷ []) = x ≡ 0xFF
EndsGlyph (x ∷ y ∷ ys) = EndsGlyph (y ∷ ys)

-- The first piece of a table: `len` bytes and a separator.
record Head (t : List ℕ) : Type 0 where
  len : ℕ
  sep : ℕ
  is_position : position ends_entry t ≡ some len
  first :
      split_inclusive ends_entry t
      ≡ take (suc len) t ∷ split_inclusive ends_entry (drop (suc len) t)
  inside : suc len ≤ length t
  is_sep : get_elem? t len ≡ some sep
  parts : split_last (take (suc len) t) ≡ some (sep, take len t)
  value : (sep ≡ 0xFE) ⊎ (sep ≡ 0xFF)
  ends : EndsGlyph (drop (suc len) t)
  bytes : AllBytes (drop (suc len) t)
  more : sep ≡ 0xFE → drop (suc len) t ≢ []

piece-cons : (x y : ℕ) (ys : List ℕ) → ends_entry x ≡ false → Head (y ∷ ys) → Head (x ∷ y ∷ ys)
piece-cons x y ys inner p = record {
  len = suc p.len;
  sep = p.sep;
  is_position = rw (inner, p.is_position) refl;
  first = rw (inner, p.first) refl;
  inside = omega (arith, p.inside);
  is_sep = p.is_sep;
  parts = rw (p.parts) refl;
  value = p.value;
  ends = p.ends;
  bytes = p.bytes;
  more = p.more;
}

separator_value : (x : ℕ) → x < 0x100 → ends_entry x ≡ true → (x ≡ 0xFE) ⊎ (x ≡ 0xFF)
separator_value x hx sep = elim (Bool-cases (x == 0xFE)) [
  | inl e ↦ inl ((==_iff x 0xFE).0 e)
  | inr e ↦ inr (ground arith)
]

EndsGlyph-tail : (x : ℕ) (ys : List ℕ) → EndsGlyph (x ∷ ys) → EndsGlyph ys
EndsGlyph-tail x [] h = tt
EndsGlyph-tail x (y ∷ ys) h = h

more_after : (x : ℕ) (ys : List ℕ) → EndsGlyph (x ∷ ys) → x ≡ 0xFE → ys ≢ []
more_after x [] h e empty = omega arith
more_after x (y ∷ ys) h e empty = cc

piece_here :
    (x : ℕ) (ys : List ℕ)
    → ends_entry x ≡ true
    → EndsGlyph (x ∷ ys)
    → AllBytes (x ∷ ys)
    → Head (x ∷ ys)
piece_here x ys sep end (hx, small) = record {
  len = 0;
  sep = x;
  is_position = rw sep refl;
  first = rw sep refl;
  inside = omega arith;
  is_sep = refl;
  parts = refl;
  value = separator_value x hx sep;
  ends = EndsGlyph-tail x ys end;
  bytes = small;
  more = more_after x ys end;
}

piece : (x : ℕ) (ys : List ℕ) → EndsGlyph (x ∷ ys) → AllBytes (x ∷ ys) → Head (x ∷ ys)
piece x [] end small = piece_here x [] (ground (arith, end)) end small
piece x (y ∷ ys) end (hx, small) = elim (Bool-cases (ends_entry x)) [
  | inl sep ↦ piece_here x (y ∷ ys) sep end (hx, small)
  | inr inner ↦ piece-cons x y ys inner (piece y ys end small)
]

glyph_end-bit : (sep : ℕ) → (sep ≡ 0xFE) ⊎ (sep ≡ 0xFF) → bit_and sep 1 ≡ glyph_end sep
glyph_end-bit sep (inl e) = rw e refl
glyph_end-bit sep (inr e) = rw e refl

scan_piece :
    (s : List ℕ) (ss : List (List ℕ)) (sep : ℕ) (bytes : List ℕ) (longest entries : ℕ) {r : ℕ × ℕ}
    → split_last s ≡ some (sep, bytes)
    → scan_utf8 (s ∷ ss) longest entries ≡ ok r
    → (cs : List ℕ) × (from_utf8 bytes ≡ some cs)
      × (scan_utf8 ss (max longest (length cs)) (entries + bit_and sep 1) ≡ ok r)
unfolding scan_utf8
scan_piece s ss sep bytes longest entries {r} parts h =
    let h₁ = (rw (scan_utf8, parts) at h) in
    let (cs, is_cs, h₂) =
      >>=-eq-ok (ok_or (from_utf8 bytes) Error.utf8_error)
        (λ cs. scan_utf8 ss (max longest (length cs)) (entries + bit_and sep 1)) h₁ in
    (cs, ok_or-eq-ok _ _ is_cs, h₂)

pos_lem :
    (sep count : ℕ) (rest : List ℕ)
    → (sep ≡ 0xFE) ⊎ (sep ≡ 0xFF)
    → (sep ≡ 0xFE → rest ≢ [])
    → Table PsfVersion.psf2 rest count
    → 1 ≤ glyph_end sep + count
pos_lem sep count rest (inl e) more table = omega (arith, Table-pos table (more e))
pos_lem sep count rest (inr e) more table = rw e (omega arith)

-- The entries that the scan counts are the glyphs of a well-formed table.
pub scan_utf8-Table :
    (fuel : ℕ) (t : List ℕ) (longest entries : ℕ) {r : ℕ × ℕ}
    → length t < fuel
    → EndsGlyph t
    → AllBytes t
    → scan_utf8 (split_inclusive ends_entry t) longest entries ≡ ok r
    → (count : ℕ) × Table PsfVersion.psf2 t count × (r.1 ≡ entries + count)
unfolding scan_utf8 string_length string_value
scan_utf8-Table zero t longest entries enough end small h = elim enough [ ]
scan_utf8-Table (suc fuel) [] longest entries {r} enough end small h =
    let same : (longest, entries) ≡ r = cc h in
    (0, Table.finished, omega (arith, ap (λ p. p.1) same))
scan_utf8-Table (suc fuel) (x ∷ ys) longest entries {r} enough end small h =
    let t = x ∷ ys in
    let p = piece x ys end small in
    let rest = drop (suc p.len) t in
    let h₁ : scan_utf8 (take (suc p.len) t ∷ split_inclusive ends_entry rest) longest entries
        ≡ ok r =
      ap (λ ss. scan_utf8 ss longest entries) (sym p.first) ∙ h in
    let (cs, is_cs, h₂) =
      scan_piece (take (suc p.len) t) (split_inclusive ends_entry rest) p.sep (take p.len t) longest
        entries p.parts h₁ in
    let shorter : length rest ≡ length t - suc p.len = length-drop (suc p.len) t in
    let (count, table, total) =
      scan_utf8-Table fuel rest (max longest (length cs)) (entries + bit_and p.sep 1)
        (omega (arith, p.inside)) p.ends p.bytes h₂ in
    let next_at : p.len + 1 ≡ suc p.len = omega arith in
    (
      glyph_end p.sep + count,
      Table.entry t p.len p.sep count (Value.utf8 cs) p.is_position (omega (arith, p.inside))
          p.is_sep (rw is_cs refl) (pos_lem p.sep count rest p.value p.more table)
          (rw next_at table),
      omega (arith, glyph_end-bit p.sep p.value),
    )
