-- ===== src/Psf/File/Panics.antt =====
-- The panics of the reader of a font file.
use mxos_v.Base.{
  ℕ, ◌+◌, ◌<◌, max, bit_and, ◌≡◌, ◌≢◌, ◌↔◌, inl, inr, refl, Bool, true, false, List, [], ◌∷◌,
  length, drop, chunks, split_inclusive, split_last, leb, Bool-cases, ◌==◌, arith,
}
use Prim.Native.Nat.{compare, Ordering}
use mxos_v.Psf.Outcome.{Error, ok, panic, ◌>>◌, ok_or, check, >>=-eq-panic, ok_or-panic}
use mxos_v.Psf.Ucs2.{u16_from_le, is_char}
use mxos_v.Psf.Utf8.{from_utf8}
use mxos_v.Psf.File.{
  PsfVersion, PsfFile, unicode_table_start, is_separator, ends_entry, scan_ucs2, scan_utf8, scan,
  without_table, with_table, finish, process_unicode_table,
}

scan_ucs2-panic :
    (cs : List (List ℕ)) (len longest entries : ℕ) → scan_ucs2 cs len longest entries ≢ panic
unfolding scan_ucs2
scan_ucs2-panic [] len longest entries h = cc
scan_ucs2-panic ([] ∷ cs) len longest entries h = cc
scan_ucs2-panic ((a ∷ []) ∷ cs) len longest entries h = cc
scan_ucs2-panic ((a ∷ b ∷ []) ∷ cs) len longest entries h =
    elim (Bool-cases (is_separator (u16_from_le a b))) [
      | inl sep ↦ scan_ucs2-panic cs 0 (max longest len) _ (rw (scan_ucs2, sep) at h)
      | inr inner ↦ elim (Bool-cases (is_char (u16_from_le a b))) [
        | inl good ↦ scan_ucs2-panic cs (len + 1) longest entries (rw (scan_ucs2, inner, good) at h)
        | inr bad ↦ cc (rw (scan_ucs2, inner, bad) at h)
      ]
    ]
scan_ucs2-panic ((a ∷ b ∷ c ∷ x) ∷ cs) len longest entries h = cc

scan_utf8-panic : (ss : List (List ℕ)) (longest entries : ℕ) → scan_utf8 ss longest entries ≢ panic
unfolding scan_utf8
scan_utf8-panic [] longest entries h = cc
scan_utf8-panic (s ∷ ss) longest entries h =
    elim (>>=-eq-panic (ok_or (split_last s) Error.unterminated_unicode_table) _ h) [
      | inl e ↦ ok_or-panic _ _ e
      | inr (p, _, h₁) ↦ elim (>>=-eq-panic (ok_or (from_utf8 (p.1)) Error.utf8_error) _ h₁) [
        | inl e ↦ ok_or-panic _ _ e
        | inr (cs, _, h₂) ↦
            scan_utf8-panic ss (max longest (length cs)) (entries + bit_and (p.0) 1) h₂
      ]
    ]

check_last-panic : (b : Bool) (e : Error) (r : ℕ × ℕ) → (check b e >> ok r) ≢ panic
check_last-panic true e r h = cc
check_last-panic false e r h = cc

scan-panic : (v : PsfVersion) (raw : List ℕ) (start : ℕ) → scan v raw start ≢ panic
unfolding scan
scan-panic PsfVersion.psf1 raw start h =
    elim (>>=-eq-panic (scan_ucs2 (chunks 2 (drop start raw)) 0 0 0) _ h) [
      | inl e ↦ scan_ucs2-panic _ 0 0 0 e
      | inr (r, _, h₁) ↦ check_last-panic _ _ r h₁
    ]
scan-panic PsfVersion.psf2 raw start h =
    elim (>>=-eq-panic (scan_utf8 (split_inclusive ends_entry (drop start raw)) 0 0) _ h) [
      | inl e ↦ scan_utf8-panic _ 0 0 e
      | inr (r, _, h₁) ↦ check_last-panic _ _ r h₁
    ]

finish-panic : (f : PsfFile) (r : ℕ × ℕ) → finish f r ≢ panic
unfolding finish
finish-panic f r h = elim (Bool-cases (r.1 == f.num_glyphs)) [
  | inl e ↦ cc (rw (finish, e) at h)
  | inr e ↦ cc (rw (finish, e) at h)
]

without_table-panic :
    (f : PsfFile) (o : Ordering)
    → compare (length f.raw_bytes) (unicode_table_start f) ≡ o
    → without_table f ≢ panic
unfolding without_table
without_table-panic f Ordering.lt e h = cc (rw (without_table, e) at h)
without_table-panic f Ordering.eq e h = cc (rw (without_table, e) at h)
without_table-panic f Ordering.gt e h = cc (rw (without_table, e) at h)

with_table-panic :
    (f : PsfFile) → (with_table f ≡ panic) ↔ (length f.raw_bytes < unicode_table_start f)
unfolding with_table
with_table-panic f = elim (Bool-cases (leb (unicode_table_start f) (length f.raw_bytes))) [
  | inl fits ↦ (
    λ h.
        elim (>>=-eq-panic (scan f.version f.raw_bytes (unicode_table_start f)) (finish f)
          (rw (with_table, fits) at h)) [
            | inl e ↦ absurd (scan-panic _ _ _ e)
            | inr (r, _, h₁) ↦ absurd (finish-panic f r h₁)
          ],
    λ short. absurd (ground arith),
  )
  | inr short ↦ (λ h. ground arith, λ h. rw (with_table, short) refl)
]

-- The unicode table is processed with a panic exactly when the header says that there is one and the
-- file ends before it would start; every other file gives a result or an error.
pub process_unicode_table-panics :
    (f : PsfFile)
    → (process_unicode_table f ≡ panic)
      ↔ ((f.has_unicode_table ≡ true) × (length f.raw_bytes < unicode_table_start f))
unfolding process_unicode_table
process_unicode_table-panics f = elim (Bool-cases f.has_unicode_table) [
  | inl has ↦ (
    λ h. (has, (with_table-panic f).0 (rw (process_unicode_table, has) at h)),
    λ h. rw (process_unicode_table, has) ((with_table-panic f).1 (h.1)),
  )
  | inr plain ↦ (
    λ h. absurd (without_table-panic f _ refl (rw (process_unicode_table, plain) at h)),
    λ h. absurd (cc),
  )
]
