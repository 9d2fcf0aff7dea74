-- ===== src/Psf/Row/Glyphs.antt =====
-- `rows`: the pixels of a glyph, row by row.
use mxos_v.Base.{
  ℕ, zero, suc, ◌+◌, ◌*◌, ◌/◌, ◌%◌, ◌^◌, ◌≤◌, ◌<◌, ◌≡◌, refl, sym, ap, ap₂, ◌∙◌, Bool, some, List,
  [], ◌∷◌, ◌++◌, map, length, take, drop, chunks, chunks_lem, chunks-nil, length-take, length-drop,
  le→leb, lt→ltb, arith,
}
use native.Mathlib.Nat.{suc-mul}
use mxos_v.Psf.File.{Glyph}
use mxos_v.Psf.Row.{GlyphRowIter, rows}
use mxos_v.Psf.Row.Pixels.{pixels, count_from, remaining, remaining_lem, length-pixels}
use mxos_v.Psf.Row.Back.{pixels-append}
use mxos_v.Psf.Row.Collect.{collect, collect-remaining}

-- The bytes by rows of `k` bytes: the first `w` pixels of each of `h` rows.
abbrev pub pixel_rows : List ℕ → ℕ → ℕ → ℕ → List (List Bool)
pixel_rows bytes k w zero = []
pixel_rows bytes k w (suc h) = pixels bytes 0 w ∷ pixel_rows (drop k bytes) k w h

take-drop : (k : ℕ) (xs : List ℕ) → take k xs ++ drop k xs ≡ xs
take-drop zero xs = refl
take-drop (suc k) [] = refl
take-drop (suc k) (x ∷ xs) = ap (λ ys. x ∷ ys) (take-drop k xs)

pixels-take :
    (k : ℕ) (bytes : List ℕ) (w : ℕ)
    → k ≤ length bytes
    → w ≤ 8 * k
    → pixels (take k bytes) 0 w ≡ pixels bytes 0 w
pixels-take k bytes w h room =
    sym (pixels-append (take k bytes) (drop k bytes) 0 w (omega (arith, length-take k bytes)))
    ∙ ap (λ bs. pixels bs 0 w) (take-drop k bytes)

nil_of : (xs : List ℕ) → length xs ≡ 0 → xs ≡ []
nil_of [] h = refl
nil_of (x ∷ xs) h = absurd (omega arith)

-- The width of a row from its number of bytes and its last pixel.
module _ (w k end : ℕ) (whole : 8 * k + end ≡ w + 7) (he : end < 8) (fuel : ℕ)
    (enough : w < fuel) where
  row_lem :
      (bytes : List ℕ)
      → length bytes ≡ k
      → collect fuel (record { bytes = bytes; indices = end * 16 + 0 }) ≡ pixels bytes 0 w
  row_lem bytes len =
      let it : GlyphRowIter = record { bytes = bytes; indices = end * 16 + 0 } in
      let width : count_from bytes 0 end ≡ w = omega arith in
      let all : remaining it ≡ pixels bytes 0 w =
        rw (remaining_lem bytes 0 end (omega arith), width) refl in
      let count : length (remaining it) ≡ w = ap length all ∙ length-pixels bytes 0 w in
      collect-remaining fuel it (0, end, omega arith, he, refl) (omega arith) ∙ all

  chunks-pixel_rows :
      (h : ℕ) (bytes : List ℕ)
      → 0 < k
      → length bytes ≡ h * k
      → map
          (collect fuel)
          (map (λ b. record { bytes = b; indices = end * 16 + 0 }) (chunks k bytes))
        ≡ pixel_rows bytes k w h
  chunks-pixel_rows zero bytes pos len = rw (nil_of bytes (omega arith), chunks-nil k) refl
  chunks-pixel_rows (suc h) bytes pos len =
      let more : suc h * k ≡ k + h * k = omega (arith, suc-mul h k) in
      let room : k ≤ length bytes = omega (arith, more) in
      let first_len : length (take k bytes) ≡ k = omega (arith, length-take k bytes) in
      let rest_len : length (drop k bytes) ≡ h * k = omega (arith, length-drop k bytes, more) in
      rw (chunks_lem k bytes pos room) (
        ap₂ (λ x xs. x ∷ xs)
          (row_lem (take k bytes) first_len ∙ pixels-take k bytes w room (omega arith))
          (chunks-pixel_rows h (drop k bytes) pos rest_len))

-- The rows of a glyph of `h` rows give the pixels of its bytes, row by row.
pub rows-pixel_rows :
    (g : Glyph) (h fuel : ℕ)
    → 0 < g.width
    → g.width + 7 < 2 ^ 32
    → length g.bytes ≡ h * ((g.width + 7) / 8)
    → g.width < fuel
    → (its : List GlyphRowIter) × (rows g ≡ some its)
      × (map (collect fuel) its ≡ pixel_rows g.bytes ((g.width + 7) / 8) g.width h)
unfolding rows
rows-pixel_rows g h fuel pos small len enough =
    let k : ℕ = (g.width + 7) / 8 in
    let end : ℕ = (g.width + 7) % 8 in
    let same : end * 2 ^ 4 ≡ end * 16 + 0 = omega arith in
    (
      map (λ b. record { bytes = b; indices = end * 16 + 0 }) (chunks k g.bytes),
      rw (rows, lt→ltb (g.width + 7) (2 ^ 32) small, le→leb 1 k (omega arith))
          (ap (λ i. some (map (λ b. record { bytes = b; indices = i }) (chunks k g.bytes))) same),
      chunks-pixel_rows g.width k end (omega arith) (omega arith) fuel enough h g.bytes
          (omega arith) len,
    )
