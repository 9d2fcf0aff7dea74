-- ===== src/Psf/Row/Pixels.antt =====
-- The pixels of a row by their numbers, and the iterator as the list of those that are left.
use mxos_v.Base.{
  ℕ, zero, suc, ◌+◌, ◌-◌, ◌*◌, ◌/◌, ◌%◌, ◌^◌, ◌<◌, bit_and, bit_xor, ◌≡◌, refl, ap, ap₂, inl, inr,
  Bool, ◌&&◌, Option, none, some, List, [], ◌∷◌, length, get_or, leb, ltb, ◌==◌, Bool-cases, ==_iff,
  arith,
}
use mxos_v.Base.Bits.{and-mask}
use mxos_v.Psf.Row.{GlyphRowIter, split_indices, pixel_of, next}

-- Pixel `p` of a row of bytes, from the left.
abbrev pub pixel : List ℕ → ℕ → Bool
pixel bytes p = pixel_of (get_or bytes (p / 8) 0) (p % 8)

-- `n` pixels from `p` on.
abbrev pub pixels : List ℕ → ℕ → ℕ → List Bool
pixels bytes p zero = []
pixels bytes p (suc n) = pixel bytes p ∷ pixels bytes (p + 1) n

-- The number of pixels from `start` in the first byte to `end` in the last.
abbrev pub count_from : List ℕ → ℕ → ℕ → ℕ
count_from bytes start end = 8 * length bytes + end - (start + 7)

-- The pixels that an iterator has left.
abbrev pub remaining : GlyphRowIter → List Bool
remaining it =
    let ends = split_indices it.indices in
    pixels it.bytes (ends.0) (count_from it.bytes (ends.0) (ends.1))

pub split_indices_lem :
    (start end : ℕ) → start < 8 → split_indices (end * 16 + start) ≡ (start, end)
unfolding split_indices
split_indices_lem start end h =
    let low : bit_and (end * 16 + start) 7 ≡ start = omega (arith, and-mask 3 (end * 16 + start)) in
    let high : (end * 16 + start) / 2 ^ 4 ≡ end = omega arith in ap₂ (λ a b. (a, b)) low high

pub xor-7 : (end : ℕ) → end < 8 → bit_xor (end * 16 + 7) 7 ≡ end * 16 + 0
xor-7 zero h = refl
xor-7 (suc zero) h = refl
xor-7 (suc (suc zero)) h = refl
xor-7 (suc (suc (suc zero))) h = refl
xor-7 (suc (suc (suc (suc zero)))) h = refl
xor-7 (suc (suc (suc (suc (suc zero))))) h = refl
xor-7 (suc (suc (suc (suc (suc (suc zero)))))) h = refl
xor-7 (suc (suc (suc (suc (suc (suc (suc zero))))))) h = refl
xor-7 (suc (suc (suc (suc (suc (suc (suc (suc end)))))))) h = absurd (omega arith)

-- Eight pixels further is one byte further.
pixel-cons : (b : ℕ) (bytes : List ℕ) (p : ℕ) → pixel (b ∷ bytes) (p + 8) ≡ pixel bytes p
pixel-cons b bytes p =
    let high : (p + 8) / 8 ≡ suc (p / 8) = omega arith in
    let low : (p + 8) % 8 ≡ p % 8 = omega arith in rw (high, low) refl

pub pixels-cons :
    (b : ℕ) (bytes : List ℕ) (p n : ℕ) → pixels (b ∷ bytes) (p + 8) n ≡ pixels bytes p n
pixels-cons b bytes p zero = refl
pixels-cons b bytes p (suc n) =
    let next_at : p + 8 + 1 ≡ p + 1 + 8 = omega arith in
    ap₂ (λ x xs. x ∷ xs) (pixel-cons b bytes p) (rw next_at (pixels-cons b bytes (p + 1) n))

pub length-pixels : (bytes : List ℕ) (p n : ℕ) → length (pixels bytes p n) ≡ n
length-pixels bytes p zero = refl
length-pixels bytes p (suc n) = ap suc (length-pixels bytes (p + 1) n)

-- What the first pixel of a list of pixels is, and what follows it.
abbrev pub Uncons : List Bool → Option Bool → List Bool → Type 0
Uncons xs none ys = (xs ≡ []) × (ys ≡ [])
Uncons xs (some x) ys = xs ≡ x ∷ ys

abbrev pub IsRow : GlyphRowIter → Type 0
IsRow it = (start : ℕ) × (end : ℕ) × (start < 8) × (end < 8) × (it.indices ≡ end * 16 + start)

-- The pixels left of an iterator with given parts.
abbrev pub left : List ℕ → ℕ → ℕ → List Bool
left bytes start end = pixels bytes start (count_from bytes start end)

pub remaining_lem :
    (bytes : List ℕ) (start end : ℕ)
    → start < 8
    → remaining (record { bytes = bytes; indices = end * 16 + start }) ≡ left bytes start end
remaining_lem bytes start end h = rw (split_indices_lem start end h) refl

-- A step that takes a pixel off the front.
abbrev pub Steps : List Bool → Option Bool × GlyphRowIter → Type 0
Steps xs r =
    (item : Option Bool) × (it : GlyphRowIter) × (r ≡ (item, it))
    × IsRow it
    × Uncons xs item (remaining it)

next-bytes :
    (bytes : List ℕ) (start end : ℕ)
    → start < 8
    → end < 8
    → Steps (left bytes start end) (next (record { bytes = bytes; indices = end * 16 + start }))
unfolding next
next-bytes [] start end hs he =
    let none_left : count_from [] start end ≡ 0 = omega arith in
    (
      none,
      record { bytes = []; indices = end * 16 + start },
      refl,
      (start, end, hs, he, refl),
      (rw none_left refl, rw (remaining_lem [] start end hs, none_left) refl),
    )
next-bytes (b ∷ bytes) start end hs he =
    let ends = split_indices_lem start end hs in
    let short = leb (length (b ∷ bytes)) 1 && ltb end start in
    elim (Bool-cases short) [
      | inl e ↦
          let none_left : count_from (b ∷ bytes) start end ≡ 0 = ground arith in
          let none_left' : count_from [] start end ≡ 0 = omega arith in
          (
            none,
            record { bytes = []; indices = end * 16 + start },
            rw (next, ends, e) refl,
            (start, end, hs, he, refl),
            (rw none_left refl, rw (remaining_lem [] start end hs, none_left') refl),
          )
      | inr e ↦ elim (Bool-cases (start == 7)) [
        | inl last ↦
            let seven : start ≡ 7 = (==_iff start 7).0 last in
            let more : count_from (b ∷ bytes) 7 end ≡ suc (count_from bytes 0 end) = ground arith in
            (
              some (pixel_of b start),
              record { bytes = bytes; indices = end * 16 + 0 },
              rw (next, ends, e, ends, last, seven, xor-7 end he) refl,
              (0, end, omega arith, he, refl),
              rw (seven, more, remaining_lem bytes 0 end (omega arith))
                  (ap (λ xs. pixel_of b 7 ∷ xs) (pixels-cons b bytes 0 (count_from bytes 0 end))),
            )
        | inr inner ↦
            let below : start < 7 = ground arith in
            let low : start / 8 ≡ 0 = omega arith in
            let same : start % 8 ≡ start = omega arith in
            let more : count_from (b ∷ bytes) start end
                ≡ suc (count_from (b ∷ bytes) (start + 1) end) =
              ground arith in
            let moved : end * 16 + start + 1 ≡ end * 16 + (start + 1) = omega arith in
            (
              some (pixel_of b start),
              record { bytes = b ∷ bytes; indices = end * 16 + (start + 1) },
              rw (next, ends, e, ends, inner, moved) refl,
              (start + 1, end, omega arith, he, refl),
              rw (more, remaining_lem (b ∷ bytes) (start + 1) end (omega arith), low, same) refl,
            )
      ]
    ]

-- `next` takes the first of the pixels that are left, and says `none` when there are none.
pub next-Steps : (it : GlyphRowIter) → IsRow it → Steps (remaining it) (next it)
next-Steps it (start, end, hs, he, same) =
    rw (same, split_indices_lem start end hs) (next-bytes it.bytes start end hs he)
