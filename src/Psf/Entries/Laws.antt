-- ===== src/Psf/Entries/Laws.antt =====
-- The unicode table of an accepted font file is well formed, and its iterator runs to the end.
use mxos_v.Base.{
  ℕ, zero, suc, ◌+◌, ◌-◌, ◌^◌, ◌≤◌, ◌<◌, ◌≡◌, refl, ap, ap₂, ◌∙◌, inl, inr, true, false, some, List,
  [], ◌∷◌, length, drop, drop-drop, length-drop, chunks, split_inclusive, leb, leb→le, ◌==◌, ==_iff,
  Bool-cases, arith,
}
use mathlib.Core.Path.{subst}
use mxos_v.Psf.Outcome.{Error, ok, ◌>>◌, check, >>=-eq-ok, check-eq-ok}
use mxos_v.Psf.Ucs2.{list_eq}
use mxos_v.Psf.Ucs2.Laws.{AllBytes}
use mxos_v.Psf.File.{
  PsfVersion, PsfFile, ends_with, ends_entry, unicode_table_start, scan, scan_ucs2, scan_utf8,
  parse,
}
use mxos_v.Psf.File.Laws.{IsFont, parse-IsFont}
use mxos_v.Psf.Entries.{UnicodeTableEntry, unicode_table_entries}
use mxos_v.Psf.Entries.Table.{Table, Table-small}
use mxos_v.Psf.Entries.Scan1 as Scan1
use mxos_v.Psf.Entries.Scan2 as Scan2
use mxos_v.Psf.Entries.Run.{run, run-Table, AllBelow}

list_eq-eq : (xs ys : List ℕ) → list_eq xs ys ≡ true → xs ≡ ys
list_eq-eq [] [] h = refl
list_eq-eq [] (y ∷ ys) h = cc
list_eq-eq (x ∷ xs) [] h = cc
list_eq-eq (x ∷ xs) (y ∷ ys) h = elim (Bool-cases (x == y)) [
  | inl e ↦ ap₂ (λ z zs. z ∷ zs) ((==_iff x y).0 e) (list_eq-eq xs ys (rw e at h))
  | inr e ↦ absurd (cc (rw e at h))
]

-- The last bytes of a file are those of its table, when the table has as many.
drop_last :
    (start k : ℕ) (raw : List ℕ)
    → start ≤ length raw
    → k ≤ length (drop start raw)
    → drop (length (drop start raw) - k) (drop start raw) ≡ drop (length raw - k) raw
drop_last start k raw fits h =
    drop-drop start (length (drop start raw) - k) raw
    ∙ ap (λ n. drop n raw) (omega (arith, length-drop start raw))

ends2 : (t : List ℕ) → drop (length t - 1) t ≡ 0xFF ∷ [] → Scan2.EndsGlyph t
ends2 [] h = tt
ends2 (x ∷ []) h = cc h
ends2 (x ∷ y ∷ ys) h =
    let less : length (x ∷ y ∷ ys) - 1 ≡ suc (length (y ∷ ys) - 1) = omega arith in
    ends2 (y ∷ ys) (rw less at h)

ends1 : (t : List ℕ) → drop (length t - 2) t ≡ 0xFF ∷ 0xFF ∷ [] → Scan1.EndsGlyph t
ends1 [] h = tt
ends1 (a ∷ []) h = tt
ends1 (a ∷ b ∷ []) h = (cc h, cc h)
ends1 (a ∷ b ∷ c ∷ []) h = tt
ends1 (a ∷ b ∷ c ∷ d ∷ t) h =
    let less : length (a ∷ b ∷ c ∷ d ∷ t) - 2 ≡ suc (suc (length (c ∷ d ∷ t) - 2)) = omega arith in
    ends1 (c ∷ d ∷ t) (rw less at h)

AllBytes-drop : (n : ℕ) (bytes : List ℕ) → AllBytes bytes → AllBytes (drop n bytes)
AllBytes-drop zero bytes h = h
AllBytes-drop (suc n) [] h = tt
AllBytes-drop (suc n) (b ∷ bytes) (_, h) = AllBytes-drop n bytes h

short1 : (t : List ℕ) → leb 2 (length t) ≡ false → Scan1.EndsGlyph t
short1 [] h = tt
short1 (a ∷ []) h = tt
short1 (a ∷ b ∷ t) h = absurd (ground arith)

short2 : (t : List ℕ) → leb 1 (length t) ≡ false → Scan2.EndsGlyph t
short2 [] h = tt
short2 (a ∷ t) h = absurd (ground arith)

nil_of : (xs : List ℕ) → length xs ≡ 0 → xs ≡ []
nil_of [] h = refl
nil_of (x ∷ xs) h = absurd (omega arith)

AllBelow-le : (m n : ℕ) (xs : List UnicodeTableEntry) → m ≤ n → AllBelow m xs → AllBelow n xs
AllBelow-le m n [] h all = tt
AllBelow-le m n (x ∷ xs) h (below, all) = (omega arith, AllBelow-le m n xs h all)

module _ (raw : List ℕ) (start : ℕ) (fits : start ≤ length raw) (bytes : AllBytes raw) where
  ends1_lem : ends_with raw (0xFF ∷ 0xFF ∷ []) ≡ true → Scan1.EndsGlyph (drop start raw)
  ends1_lem h = elim (Bool-cases (leb 2 (length (drop start raw)))) [
    | inl long ↦
        ends1 (drop start raw)
          (drop_last start 2 raw fits (leb→le _ _ long) ∙ list_eq-eq _ (0xFF ∷ 0xFF ∷ []) h)
    | inr short ↦ short1 (drop start raw) short
  ]

  ends2_lem : ends_with raw (0xFF ∷ []) ≡ true → Scan2.EndsGlyph (drop start raw)
  ends2_lem h = elim (Bool-cases (leb 1 (length (drop start raw)))) [
    | inl long ↦
        ends2 (drop start raw)
          (drop_last start 1 raw fits (leb→le _ _ long) ∙ list_eq-eq _ (0xFF ∷ []) h)
    | inr short ↦ short2 (drop start raw) short
  ]

  scan-Table :
      (v : PsfVersion) {r : ℕ × ℕ} → scan v raw start ≡ ok r → Table v (drop start raw) (r.1)
  unfolding scan
  scan-Table PsfVersion.psf1 {r} h =
      let t = drop start raw in
      let last = check (ends_with raw (0xFF ∷ 0xFF ∷ [])) Error.unterminated_unicode_table in
      let (r', scanned, h₁) = >>=-eq-ok (scan_ucs2 (chunks 2 t) 0 0 0) (λ r. last >> ok r) h in
      let (_, is_end, h₂) = >>=-eq-ok last (λ _. ok r') h₁ in
      let (count, table, total) =
        Scan1.scan_ucs2-Table (suc (length t)) t 0 0 0 (omega arith)
          (ends1_lem (check-eq-ok _ _ is_end)) (AllBytes-drop start raw bytes) scanned in
      let same : r' ≡ r = cc h₂ in
      let count' : count ≡ r.1 = omega (arith, total, ap (λ p. p.1) same) in
      subst (Table PsfVersion.psf1 t) count' table
  scan-Table PsfVersion.psf2 {r} h =
      let t = drop start raw in
      let last = check (ends_with raw (0xFF ∷ [])) Error.unterminated_unicode_table in
      let (r', scanned, h₁) =
        >>=-eq-ok (scan_utf8 (split_inclusive ends_entry t) 0 0) (λ r. last >> ok r) h in
      let (_, is_end, h₂) = >>=-eq-ok last (λ _. ok r') h₁ in
      let (count, table, total) =
        Scan2.scan_utf8-Table (suc (length t)) t 0 0 (omega arith)
          (ends2_lem (check-eq-ok _ _ is_end)) (AllBytes-drop start raw bytes) scanned in
      let same : r' ≡ r = cc h₂ in
      let count' : count ≡ r.1 = omega (arith, total, ap (λ p. p.1) same) in
      subst (Table PsfVersion.psf2 t) count' table

-- The table of a font, which has no bytes when the header says that there is none.
pub font-Table :
    (f : PsfFile)
    → IsFont f
    → AllBytes f.raw_bytes
    → (count : ℕ) × (count ≤ f.num_glyphs)
      × Table f.version (drop (unicode_table_start f) f.raw_bytes) count
font-Table f (fits, _, _, inl (_, whole)) bytes =
    let empty : drop (unicode_table_start f) f.raw_bytes ≡ [] =
      nil_of _ (omega (arith, length-drop (unicode_table_start f) f.raw_bytes, whole)) in
    (0, omega arith, rw empty Table.finished)
font-Table f (fits, _, _, inr (longest, _, scanned)) bytes = (
  f.num_glyphs,
  omega arith,
  scan-Table f.raw_bytes (unicode_table_start f) fits bytes f.version scanned,
)

-- On an accepted file of less than 4 GiB, the iterator over the unicode table runs to its end
-- without a panic, and every entry is that of a glyph of the file.
pub parse-entries :
    (bytes : List ℕ) (f : PsfFile) (fuel : ℕ)
    → parse bytes ≡ ok f
    → AllBytes bytes
    → length bytes < 2 ^ 32
    → length bytes < fuel
    → (xs : List UnicodeTableEntry) × (run fuel (unicode_table_entries f) ≡ some xs)
      × AllBelow f.num_glyphs xs
unfolding unicode_table_entries
parse-entries bytes f fuel accepted small short enough =
    let (font, whole) = parse-IsFont bytes accepted in
    let (count, below, table) = font-Table f font (rw whole small) in
    let len : length f.raw_bytes ≡ length bytes = ap length whole in
    let rest = length-drop (unicode_table_start f) f.raw_bytes in
    let few = Table-small table in
    let (xs, runs, all) =
      run-Table fuel (unicode_table_entries f) (drop (unicode_table_start f) f.raw_bytes) count refl
        (font.0) table (omega arith) (omega arith) in
    (xs, runs, AllBelow-le (0 + count) f.num_glyphs xs (omega arith) all)
