-- ===== src/Psf/Entries/Run.antt =====
-- The iterator run to its end on a well-formed table.
use mxos_v.Base.{
  ℕ, zero, suc, ◌+◌, ◌-◌, ◌^◌, ◌≤◌, ◌<◌, ◌≡◌, refl, sym, ap, ◌∙◌, true, false, Option, none, some,
  List, [], ◌∷◌, length, take, drop, get_elem?, get_elem?-drop, get_range_lem, drop-drop,
  length-drop, le→leb, lt→ltb, ◌==◌, if◌then◌else◌, ◌>>=◌, arith,
}
use mathlib.Core.Path.{subst}
use mxos_v.Psf.Entries.{
  UnicodeTableEntries, UnicodeTableEntry, Value, next, string_length, separator_length,
  string_value,
}
use mxos_v.Psf.Entries.Table.{Table, glyph_end, separator_length_pos}

-- The loop over the entries, with at most `fuel` of them; `none` is a panic, or too little fuel.
unfoldable pub run : ℕ → UnicodeTableEntries → Option (List UnicodeTableEntry)
run zero e = none
run (suc fuel) e =
    next e >>= λ r. elim (r.0) [ none ↦ some [] | some x ↦ run fuel (r.1) >>= λ xs. some (x ∷ xs) ]

-- The entries are those of glyphs below `n`.
abbrev pub AllBelow : ℕ → List UnicodeTableEntry → Type 0
AllBelow n [] = Unit
AllBelow n (x ∷ xs) = (x.index < n) × AllBelow n xs

-- The iterator after a string with its separator.
abbrev after : UnicodeTableEntries → ℕ → ℕ → UnicodeTableEntries
after e len sep = record e {
  entry_index = if sep == 0xFF then e.entry_index + 1 else e.entry_index;
  index = e.index + len + separator_length e.version;
}

next_entry :
    (e : UnicodeTableEntries) (len sep : ℕ) (value : Value)
    → e.index + len < length e.raw_bytes
    → (if sep == 0xFF then e.entry_index + 1 else e.entry_index) < 2 ^ 32
    → string_length e.version (drop e.index e.raw_bytes) ≡ some len
    → get_elem? (drop e.index e.raw_bytes) len ≡ some sep
    → string_value e.version (take len (drop e.index e.raw_bytes)) ≡ some value
    → next e ≡ some (some (record { index = e.entry_index; value = value }), after e len sep)
unfolding next
next_entry e len sep value room small is_len is_sep is_value =
    let more : (e.index == length e.raw_bytes) ≡ false = ground arith in
    let count : e.index + len - e.index ≡ len = omega arith in
    let at = sym (get_elem?-drop e.index e.raw_bytes len) ∙ is_sep in
    let bytes = get_range_lem e.raw_bytes e.index (e.index + len) (omega arith) (omega arith) in
    rw
      (
        next,
        more,
        le→leb e.index (length e.raw_bytes) (omega arith),
        is_len,
        at,
        lt→ltb _ (2 ^ 32) small,
        bytes,
        count,
        is_value,
      )
      refl

glyph_end_lem : (i sep : ℕ) → (if sep == 0xFF then i + 1 else i) ≡ i + glyph_end sep
glyph_end_lem i sep = ground arith

next_finished : (e : UnicodeTableEntries) → e.index ≡ length e.raw_bytes → next e ≡ some (none, e)
unfolding next
next_finished e h =
    let same : (e.index == length e.raw_bytes) ≡ true = ground arith in rw (next, same) refl

-- Enough calls of `next` reach the end of a well-formed table without a panic, and every entry is
-- that of one of its glyphs.
pub run-Table :
    (fuel : ℕ) (e : UnicodeTableEntries) (t : List ℕ) (count : ℕ)
    → t ≡ drop e.index e.raw_bytes
    → e.index ≤ length e.raw_bytes
    → Table e.version t count
    → e.entry_index + count < 2 ^ 32
    → length t < fuel
    → (xs : List UnicodeTableEntry) × (run fuel e ≡ some xs) × AllBelow (e.entry_index + count) xs
unfolding run
run-Table zero e t count here inside table small enough = elim enough [ ]
run-Table (suc fuel) e _ _ here inside Table.finished small enough =
    let end : e.index ≡ length e.raw_bytes =
      omega (arith, ap length here, length-drop e.index e.raw_bytes) in
    ([], rw (run, next_finished e end) refl, tt)
run-Table (suc fuel) e _ _ here inside
      (Table.entry t len sep count value is_len fits is_sep is_value pos rest) small enough =
    let len_t : length t ≡ length e.raw_bytes - e.index =
      omega (arith, ap length here, length-drop e.index e.raw_bytes) in
    let width = separator_length_pos e.version in
    let e' : UnicodeTableEntries = after e len sep in
    let index' : e'.entry_index ≡ e.entry_index + glyph_end sep = glyph_end_lem e.entry_index sep in
    let step =
      next_entry e len sep value (omega arith) (omega arith) (rw (← here) is_len)
        (rw (← here) is_sep) (rw (← here) is_value) in
    let there : drop (len + separator_length e.version) t ≡ drop e'.index e.raw_bytes = rw here (
      drop-drop e.index (len + separator_length e.version) e.raw_bytes
      ∙ ap (λ i. drop i e.raw_bytes) (omega arith)) in
    let shorter = length-drop (len + separator_length e.version) t in
    let (xs, runs, below) =
      run-Table fuel e' (drop (len + separator_length e.version) t) count there (omega arith) rest
        (omega arith) (omega arith) in
    let total : e'.entry_index + count ≡ e.entry_index + (glyph_end sep + count) = omega arith in
    (
      record { index = e.entry_index; value = value } ∷ xs,
      rw (run, step, runs) refl,
      (omega arith, subst (λ n. AllBelow n xs) total below),
    )
