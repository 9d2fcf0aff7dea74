-- ===== src/Psf/Entries/Scan1.antt =====
-- A PSF1 table that the scan accepts is well formed.
use mxos_v.Base.{
  ℕ, zero, suc, ◌+◌, ◌-◌, ◌*◌, ◌≤◌, ◌<◌, max, bit_and, ◌≡◌, ◌≢◌, ◌⊎◌, refl, ap, inl, inr, true,
  false, some, List, [], ◌∷◌, length, take, drop, get_elem?, position, chunks, length-drop, ◌==◌,
  ==_iff, Bool-cases, arith,
}
use mathlib.Core.Path.{subst}
use mxos_v.Psf.Outcome.{ok}
use mxos_v.Psf.Ucs2.{u16_from_le, is_char, verify, chunk_is_char, from_bytes}
use mxos_v.Psf.Ucs2.Laws.{AllBytes}
use mxos_v.Psf.File.{PsfVersion, is_separator, scan_ucs2}
use mxos_v.Psf.Entries.{Value, is_end_chunk, string_length, string_value}
use mxos_v.Psf.Entries.Table.{Table, glyph_end, Table-pos}

-- The last code unit, if any, is 0xFFFF.
abbrev pub EndsGlyph : List ℕ → Type 0
EndsGlyph [] = Unit
EndsGlyph (a ∷ []) = Unit
EndsGlyph (a ∷ b ∷ []) = (a ≡ 0xFF) × (b ≡ 0xFF)
EndsGlyph (a ∷ b ∷ c ∷ cs) = EndsGlyph (c ∷ cs)

EndsGlyph-tail : (a b : ℕ) (t : List ℕ) → EndsGlyph (a ∷ b ∷ t) → EndsGlyph t
EndsGlyph-tail a b [] h = tt
EndsGlyph-tail a b (c ∷ cs) h = h

-- The first string of a table, its separator, and the scan of the rest.
record Head (t : List ℕ) (entries : ℕ) (r : ℕ × ℕ) : Type 0 where
  units : ℕ
  len : ℕ
  sep : ℕ
  even : len ≡ 2 * units
  is_position : position is_end_chunk (chunks 2 t) ≡ some units
  inside : len + 2 ≤ length t
  is_sep : get_elem? t len ≡ some sep
  valid : verify (take len t) ≡ true
  value : (sep ≡ 0xFE) ⊎ (sep ≡ 0xFF)
  ends : EndsGlyph (drop (suc (suc len)) t)
  bytes : AllBytes (drop (suc (suc len)) t)
  more : sep ≡ 0xFE → drop (suc (suc len)) t ≢ []
  longest : ℕ
  scanned : scan_ucs2 (chunks 2 (drop (suc (suc len)) t)) 0 longest (entries + glyph_end sep) ≡ ok r

end_chunk_lem :
    (a b : ℕ) → a < 0x100 → b < 0x100 → is_end_chunk (a ∷ b ∷ []) ≡ is_separator (u16_from_le a b)
end_chunk_lem a b ha hb = ground arith

separator_value :
    (a b : ℕ)
    → a < 0x100
    → b < 0x100
    → is_separator (u16_from_le a b) ≡ true
    → (a ≡ 0xFE) ⊎ (a ≡ 0xFF)
separator_value a b ha hb sep = elim (Bool-cases (a == 0xFE)) [
  | inl e ↦ inl ((==_iff a 0xFE).0 e)
  | inr e ↦ inr (ground arith)
]

separator_bit :
    (a b : ℕ)
    → a < 0x100
    → b < 0x100
    → is_separator (u16_from_le a b) ≡ true
    → bit_and (u16_from_le a b) 1 ≡ glyph_end a
separator_bit a b ha hb sep = elim (separator_value a b ha hb sep) [
  | inl e ↦ let whole : u16_from_le a b ≡ 0xFFFE = ground (arith, e) in rw (whole, e) refl
  | inr e ↦ let whole : u16_from_le a b ≡ 0xFFFF = ground (arith, e) in rw (whole, e) refl
]

more_after : (a b : ℕ) (t : List ℕ) → EndsGlyph (a ∷ b ∷ t) → a ≡ 0xFE → t ≢ []
more_after a b [] (h, _) e empty = omega arith
more_after a b (c ∷ cs) h e empty = cc

module _ (a b : ℕ) (ha : a < 0x100) (hb : b < 0x100) (len longest entries : ℕ) {r : ℕ × ℕ} where
  piece_here :
      (t : List ℕ)
      → is_separator (u16_from_le a b) ≡ true
      → EndsGlyph (a ∷ b ∷ t)
      → AllBytes t
      → scan_ucs2 (chunks 2 (a ∷ b ∷ t)) len longest entries ≡ ok r
      → Head (a ∷ b ∷ t) entries r
  unfolding scan_ucs2 verify
  piece_here t sep end small h = record {
    units = 0;
    len = 0;
    sep = a;
    even = refl;
    is_position = rw (end_chunk_lem a b ha hb, sep) refl;
    inside = omega arith;
    is_sep = refl;
    valid = refl;
    value = separator_value a b ha hb sep;
    ends = EndsGlyph-tail a b t end;
    bytes = small;
    more = more_after a b t end;
    longest = max longest len;
    scanned = (rw (scan_ucs2, sep, separator_bit a b ha hb sep) at h);
  }

  scan_char :
      (t : List ℕ)
      → is_separator (u16_from_le a b) ≡ false
      → scan_ucs2 (chunks 2 (a ∷ b ∷ t)) len longest entries ≡ ok r
      → (is_char (u16_from_le a b) ≡ true)
        × (scan_ucs2 (chunks 2 t) (len + 1) longest entries ≡ ok r)
  unfolding scan_ucs2
  scan_char t inner h = elim (Bool-cases (is_char (u16_from_le a b))) [
    | inl good ↦ (good, (rw (scan_ucs2, inner, good) at h))
    | inr bad ↦ absurd (cc (rw (scan_ucs2, inner, bad) at h))
  ]

  piece-cons :
      (t : List ℕ)
      → is_separator (u16_from_le a b) ≡ false
      → is_char (u16_from_le a b) ≡ true
      → Head t entries r
      → Head (a ∷ b ∷ t) entries r
  unfolding verify chunk_is_char
  piece-cons t inner char p = record {
    units = suc p.units;
    len = suc (suc p.len);
    sep = p.sep;
    even = omega (arith, p.even);
    is_position = rw (end_chunk_lem a b ha hb, inner, p.is_position) refl;
    inside = omega (arith, p.inside);
    is_sep = p.is_sep;
    valid = rw char p.valid;
    value = p.value;
    ends = p.ends;
    bytes = p.bytes;
    more = p.more;
    longest = p.longest;
    scanned = p.scanned;
  }

scan_odd :
    (a : ℕ) (len longest entries : ℕ) {r : ℕ × ℕ}
    → scan_ucs2 (chunks 2 (a ∷ [])) len longest entries ≢ ok r
unfolding scan_ucs2
scan_odd a len longest entries h = cc

not_separator_end : (a b : ℕ) → EndsGlyph (a ∷ b ∷ []) → is_separator (u16_from_le a b) ≢ false
not_separator_end a b (ha, hb) h =
    let whole : u16_from_le a b ≡ 0xFFFF = omega arith in ground arith

piece :
    (t : List ℕ) (len longest entries : ℕ) {r : ℕ × ℕ}
    → t ≢ []
    → EndsGlyph t
    → AllBytes t
    → scan_ucs2 (chunks 2 t) len longest entries ≡ ok r
    → Head t entries r
piece [] len longest entries ne end small h = absurd (ne refl)
piece (a ∷ []) len longest entries ne end small h = absurd (scan_odd a len longest entries h)
piece (a ∷ b ∷ t) len longest entries ne end (ha, (hb, small)) h =
    elim (Bool-cases (is_separator (u16_from_le a b))) [
      | inl sep ↦ piece_here a b ha hb len longest entries t sep end small h
      | inr inner ↦
          let (char, rest) = scan_char a b ha hb len longest entries t inner h in
          let nonempty : t ≢ [] =
            λ e. not_separator_end a b (subst (λ ys. EndsGlyph (a ∷ b ∷ ys)) e end) inner in
          piece-cons a b ha hb len longest entries t inner char
            (piece t (len + 1) longest entries nonempty (EndsGlyph-tail a b t end) small rest)
    ]

pos_lem :
    (sep count : ℕ) (rest : List ℕ)
    → (sep ≡ 0xFE) ⊎ (sep ≡ 0xFF)
    → (sep ≡ 0xFE → rest ≢ [])
    → Table PsfVersion.psf1 rest count
    → 1 ≤ glyph_end sep + count
pos_lem sep count rest (inl e) more table = omega (arith, Table-pos table (more e))
pos_lem sep count rest (inr e) more table = rw e (omega arith)

-- The entries that the scan counts are the glyphs of a well-formed table.
pub scan_ucs2-Table :
    (fuel : ℕ) (t : List ℕ) (len longest entries : ℕ) {r : ℕ × ℕ}
    → length t < fuel
    → EndsGlyph t
    → AllBytes t
    → scan_ucs2 (chunks 2 t) len longest entries ≡ ok r
    → (count : ℕ) × Table PsfVersion.psf1 t count × (r.1 ≡ entries + count)
unfolding scan_ucs2 string_length string_value from_bytes
scan_ucs2-Table zero t len longest entries enough end small h = elim enough [ ]
scan_ucs2-Table (suc fuel) [] len longest entries {r} enough end small h =
    let same : (longest, entries) ≡ r = cc h in
    (0, Table.finished, omega (arith, ap (λ p. p.1) same))
scan_ucs2-Table (suc fuel) (x ∷ ys) len longest entries {r} enough end small h =
    let t = x ∷ ys in
    let p = piece t len longest entries (λ e. cc) end small h in
    let rest = drop (suc (suc p.len)) t in
    let shorter : length rest ≡ length t - suc (suc p.len) = length-drop (suc (suc p.len)) t in
    let (count, table, total) =
      scan_ucs2-Table fuel rest 0 p.longest (entries + glyph_end p.sep) (omega (arith, p.inside))
        p.ends p.bytes p.scanned in
    let next_at : p.len + 2 ≡ suc (suc p.len) = omega arith in
    (
      glyph_end p.sep + count,
      Table.entry t p.len p.sep count (Value.ucs2 (take p.len t))
          (rw (p.is_position, ← p.even) refl) p.inside p.is_sep (rw p.valid refl)
          (pos_lem p.sep count rest p.value p.more table) (rw next_at table),
      omega arith,
    )
