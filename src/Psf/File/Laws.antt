-- ===== src/Psf/File/Laws.antt =====
-- What the reader of a font file has checked when it accepts the file.
use mxos_v.Base.{
  ℕ, ◌+◌, ◌-◌, ◌*◌, ◌/◌, ◌%◌, ◌^◌, ◌≤◌, ◌<◌, ◌≡◌, ◌⊎◌, inl, inr, refl, ap, ◌∙◌, Bool, true, false,
  some, List, [], ◌∷◌, length, take, drop, get_range, get_range_lem, length-take, length-drop, leb,
  ltb, ◌==◌, leb→le, ltb→lt, lt→ltb, ==_iff, Bool-cases, arith,
}
use Prim.Native.Nat.{compare, Ordering}
use native.Mathlib.Nat.{mul-le-mul_right, add-mul}
use mxos_v.Psf.Outcome.{
  Error, Outcome, ok, ◌>>=◌, ◌>>◌, ok_or, check, require, >>=-eq-ok, check-eq-ok, require-eq-ok,
}
use mxos_v.Psf.File.{
  PsfFile, unicode_table_start, scan, process_unicode_table, without_table, with_table, finish,
  accept1, accept2, accept_size, read_header1, read_header2, starts_with, parse1, parse2, parse,
  size_of, header_num, get_glyph,
}

-- The table that a file has: nothing after the glyphs, or one entry for each glyph.
abbrev pub HasTable : PsfFile → Type 0
HasTable f =
    ((f.has_unicode_table ≡ false) × (length f.raw_bytes ≡ unicode_table_start f))
    ⊎ ((longest : ℕ) × (f.has_unicode_table ≡ true)
        × (scan f.version f.raw_bytes (unicode_table_start f) ≡ ok (longest, f.num_glyphs)))

-- The glyphs are in the file, their size is that of their rows, and the table is right.
abbrev pub IsFont : PsfFile → Type 0
IsFont f =
    (unicode_table_start f ≤ length f.raw_bytes)
    × (f.glyph_size ≡ f.glyph_height * ((f.glyph_width + 7) / 8))
    × (f.glyph_width + 7 < 2 ^ 32)
    × HasTable f

-- An accepted file: the header that was read, and the longest entry.
abbrev Accepted : PsfFile → PsfFile → Type 0
Accepted f f' =
    (unicode_table_start f ≤ length f.raw_bytes)
    × HasTable f
    × ((longest : ℕ) × (f' ≡ record f { longest_glyph = longest }))

ends_lem :
    (f : PsfFile) {f' : PsfFile} (o : Ordering)
    → compare (length f.raw_bytes) (unicode_table_start f) ≡ o
    → without_table f ≡ ok f'
    → (o ≡ Ordering.eq) × (f' ≡ f)
unfolding without_table
ends_lem f Ordering.lt e h = absurd (cc (rw (without_table, e) at h))
ends_lem f Ordering.eq e h = (refl, cc (rw (without_table, e) at h))
ends_lem f Ordering.gt e h = absurd (cc (rw (without_table, e) at h))

without_table-Accepted :
    (f : PsfFile) {f' : PsfFile}
    → f.has_unicode_table ≡ false
    → without_table f ≡ ok f'
    → Accepted f f'
unfolding without_table
without_table-Accepted f {f'} has h =
    let start : ℕ = unicode_table_start f in
    let (equal, same) = ends_lem f (compare (length f.raw_bytes) start) refl h in
    let len : length f.raw_bytes ≡ start = ground (arith, equal) in
    (omega arith, inl (has, len), (f.longest_glyph, same))

finish-inv :
    (f : PsfFile) (r : ℕ × ℕ) {f' : PsfFile}
    → finish f r ≡ ok f'
    → (r.1 ≡ f.num_glyphs) × ((longest : ℕ) × (f' ≡ record f { longest_glyph = longest }))
unfolding finish
finish-inv f r {f'} h =
    let (u, same, h₁) =
      >>=-eq-ok (check (r.1 == f.num_glyphs) (Error.invalid_unicode_table_size f.num_glyphs (r.1)))
        (λ _. ok (record f { longest_glyph = r.0 % 2 ^ 8 })) h in
    ((==_iff (r.1) f.num_glyphs).0 (check-eq-ok _ _ same), (r.0 % 2 ^ 8, cc h₁))

with_table-Accepted :
    (f : PsfFile) {f' : PsfFile} → f.has_unicode_table ≡ true → with_table f ≡ ok f' → Accepted f f'
unfolding with_table
with_table-Accepted f {f'} has h =
    let start : ℕ = unicode_table_start f in
    let (u, fits, h₁) =
      >>=-eq-ok (require (leb start (length f.raw_bytes)))
        (λ _. scan f.version f.raw_bytes start >>= finish f) h in
    let (r, runs, h₂) = >>=-eq-ok (scan f.version f.raw_bytes start) (finish f) h₁ in
    let (count, longest) = finish-inv f r h₂ in
    (leb→le _ _ (require-eq-ok _ fits), inr (r.0, has, runs ∙ ap (λ n. ok (r.0, n)) count), longest)

process-Accepted : (f : PsfFile) {f' : PsfFile} → process_unicode_table f ≡ ok f' → Accepted f f'
unfolding process_unicode_table
process-Accepted f {f'} h = elim (Bool-cases f.has_unicode_table) [
  | inl has ↦ with_table-Accepted f has (rw (process_unicode_table, has) at h)
  | inr plain ↦ without_table-Accepted f plain (rw (process_unicode_table, plain) at h)
]

-- After a test that held.
check-inv :
    {B : Type 0} (b : Bool) (e : Error) (m : Outcome B) {v : B}
    → (check b e >> m) ≡ ok v
    → (b ≡ true) × (m ≡ ok v)
check-inv true e m h = (refl, h)
check-inv false e m h = cc

accepted-IsFont :
    (f : PsfFile) {f' : PsfFile}
    → f.glyph_size ≡ f.glyph_height * ((f.glyph_width + 7) / 8)
    → f.glyph_width + 7 < 2 ^ 32
    → process_unicode_table f ≡ ok f'
    → IsFont f' × (f'.raw_bytes ≡ f.raw_bytes)
unfolding unicode_table_start
accepted-IsFont f size small h =
    let (fits, table, (longest, same)) = process-Accepted f h in
    rw same ((fits, size, small, table), refl)

parse1-IsFont :
    (bytes : List ℕ) {f : PsfFile} → parse1 bytes ≡ ok f → IsFont f × (f.raw_bytes ≡ bytes)
unfolding parse1 accept1 read_header1
parse1-IsFont bytes h =
    let (header, _, h₁) =
      >>=-eq-ok (ok_or (get_range bytes 0 4) Error.unexpected_end) (accept1 bytes) h in
    let (_, h₂) = check-inv _ _ (process_unicode_table (read_header1 bytes header)) h₁ in
    accepted-IsFont (read_header1 bytes header) (omega arith) (omega arith) h₂

size_of-inv :
    (height width : ℕ) {size : ℕ}
    → size_of height width ≡ ok size
    → (size ≡ height * ((width + 7) / 8)) × (width + 7 < 2 ^ 32)
unfolding size_of
size_of-inv height width h =
    let size : ℕ = height * ((width + 7) / 8) in
    let (_, first, h₁) =
      >>=-eq-ok (require (ltb (width + 7) (2 ^ 32))) (λ _. require (ltb size (2 ^ 32)) >> ok size)
        h in
    let (_, _, h₂) = >>=-eq-ok (require (ltb size (2 ^ 32))) (λ _. ok size) h₁ in
    (cc h₂, ltb→lt (width + 7) (2 ^ 32) (require-eq-ok _ first))

parse2-IsFont :
    (bytes : List ℕ) {f : PsfFile} → parse2 bytes ≡ ok f → IsFont f × (f.raw_bytes ≡ bytes)
unfolding parse2 accept2 accept_size read_header2
parse2-IsFont bytes h =
    let (header, _, h₁) =
      >>=-eq-ok (ok_or (get_range bytes 0 32) Error.unexpected_end) (accept2 bytes) h in
    let sized = size_of (header_num header 6) (header_num header 7) in
    let (_, h₂) =
      check-inv _ _
        (check (header_num header 1 == 0) (Error.unknown_psf2_version (header_num header 1))
          >> (sized >>= accept_size bytes header))
        h₁ in
    let (_, h₃) = check-inv _ _ (sized >>= accept_size bytes header) h₂ in
    let (size, is_size, h₄) = >>=-eq-ok sized (accept_size bytes header) h₃ in
    let (_, h₅) = check-inv _ _ (process_unicode_table (read_header2 bytes header size)) h₄ in
    let (value, small) = size_of-inv (header_num header 6) (header_num header 7) is_size in
    accepted-IsFont (read_header2 bytes header size) value small h₅

-- An accepted file is a font.
pub parse-IsFont :
    (bytes : List ℕ) {f : PsfFile} → parse bytes ≡ ok f → IsFont f × (f.raw_bytes ≡ bytes)
unfolding parse
parse-IsFont bytes h = elim (Bool-cases (starts_with bytes (0x72 ∷ 0xB5 ∷ 0x4A ∷ 0x86 ∷ []))) [
  | inl second ↦ parse2-IsFont bytes (rw (parse, second) at h)
  | inr other ↦ elim (Bool-cases (starts_with bytes (0x36 ∷ 0x04 ∷ []))) [
    | inl first ↦ parse1-IsFont bytes (rw (parse, other, first) at h)
    | inr neither ↦ absurd (cc (rw (parse, other, neither) at h))
  ]
]

module _ (f : PsfFile) (font : IsFont f) (small : length f.raw_bytes < 2 ^ 32) (entry : ℕ)
    (inside : entry < f.num_glyphs) where
  abbrev glyph_start : ℕ
  glyph_start = f.header_size + entry * f.glyph_size

  glyph_fits : glyph_start + f.glyph_size ≤ length f.raw_bytes
  unfolding unicode_table_start
  glyph_fits =
      let below : (entry + 1) * f.glyph_size ≤ f.num_glyphs * f.glyph_size =
        mul-le-mul_right f.glyph_size (omega arith) in
      omega (arith, font.0, below, add-mul entry 1 f.glyph_size)

  -- The glyphs of an accepted font, up to their number.
  pub get_glyph_lem :
      get_glyph f entry
      ≡ ok (
          some (record {
            bytes = take f.glyph_size (drop glyph_start f.raw_bytes);
            width = f.glyph_width;
          }))
  unfolding get_glyph
  get_glyph_lem =
      let fits = glyph_fits in
      let there =
        get_range_lem f.raw_bytes glyph_start (glyph_start + f.glyph_size) (omega arith) fits in
      let count : glyph_start + f.glyph_size - glyph_start ≡ f.glyph_size = omega arith in
      rw
        (
          get_glyph,
          lt→ltb (entry * f.glyph_size) (2 ^ 32) (omega arith),
          lt→ltb glyph_start (2 ^ 32) (omega arith),
          there,
          count,
        )
        refl

  pub length-glyph : length (take f.glyph_size (drop glyph_start f.raw_bytes)) ≡ f.glyph_size
  length-glyph =
      let fits = glyph_fits in
      omega (
        arith,
        length-take f.glyph_size (drop glyph_start f.raw_bytes),
        length-drop glyph_start f.raw_bytes,
      )
