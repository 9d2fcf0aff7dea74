-- ===== src/Psf/Row/Back.antt =====
-- `next_back`: the pixels of a row from its end.
use mxos_v.Base.{
  ℕ, zero, suc, ◌+◌, ◌-◌, ◌*◌, ◌/◌, ◌%◌, ◌≤◌, ◌<◌, bit_xor, ◌≡◌, ◌≢◌, refl, ap, ap₂, ◌∙◌, inl, inr,
  Bool, false, ◌&&◌, Option, none, some, List, [], ◌∷◌, ◌++◌, length, get_or, split_last, leb, ltb,
  ◌==◌, Bool-cases, Option-cases, length-append, arith,
}
use mxos_v.Psf.Row.{GlyphRowIter, pixel_of, next_back}
use mxos_v.Psf.Row.Pixels.{
  pixel, pixels, IsRow, count_from, remaining, left, remaining_lem, split_indices_lem,
}

pub xor-70 : (start : ℕ) → start < 8 → bit_xor (0 * 16 + start) 0x70 ≡ 7 * 16 + start
xor-70 zero h = refl
xor-70 (suc zero) h = refl
xor-70 (suc (suc zero)) h = refl
xor-70 (suc (suc (suc zero))) h = refl
xor-70 (suc (suc (suc (suc zero)))) h = refl
xor-70 (suc (suc (suc (suc (suc zero))))) h = refl
xor-70 (suc (suc (suc (suc (suc (suc zero)))))) h = refl
xor-70 (suc (suc (suc (suc (suc (suc (suc zero))))))) h = refl
xor-70 (suc (suc (suc (suc (suc (suc (suc (suc start)))))))) h = absurd (omega arith)

pub pixels-snoc :
    (bytes : List ℕ) (p n : ℕ)
    → pixels bytes p (n + 1) ≡ pixels bytes p n ++ (pixel bytes (p + n) ∷ [])
pixels-snoc bytes p zero = let e : p + 0 ≡ p = omega arith in rw e refl
pixels-snoc bytes p (suc n) =
    let e : p + suc n ≡ p + 1 + n = omega arith in
    let s : suc n + 1 ≡ suc (n + 1) = omega arith in
    rw (e, s) (ap (λ xs. pixel bytes p ∷ xs) (pixels-snoc bytes (p + 1) n))

split_last_cons : (b : ℕ) (bytes : List ℕ) → split_last (b ∷ bytes) ≢ none
split_last_cons b [] h = cc
split_last_cons b (c ∷ bytes) h = elim (Option-cases (split_last (c ∷ bytes))) [
  | inl e ↦ split_last_cons c bytes e
  | inr (p, e) ↦ let wrong : some (p.0, b ∷ p.1) ≡ none = (rw e at h) in cc wrong
]

-- The pixels of the bytes before the last.
split_last_lem :
    (bytes : List ℕ) {last : ℕ} {rest : List ℕ}
    → split_last bytes ≡ some (last, rest)
    → bytes ≡ rest ++ (last ∷ [])
split_last_lem [] h = cc
split_last_lem (b ∷ []) h = cc
split_last_lem (b ∷ c ∷ bytes) {last} {rest} h = elim (Option-cases (split_last (c ∷ bytes))) [
  | inl e ↦ absurd (split_last_cons c bytes e)
  | inr (p, e) ↦
      let step : some (p.0, b ∷ p.1) ≡ some (last, rest) = (rw e at h) in
      let same : p.0 ≡ last = cc step in
      let front : b ∷ p.1 ≡ rest = cc step in
      rw (← front, ← same)
        (ap (λ xs. b ∷ xs) (split_last_lem (c ∷ bytes) {last = p.0} {rest = p.1} e))
]

get_or-append_left :
    (xs ys : List ℕ) (i : ℕ) → i < length xs → get_or (xs ++ ys) i 0 ≡ get_or xs i 0
get_or-append_left [] ys i h = elim h [ ]
get_or-append_left (x ∷ xs) ys zero h = refl
get_or-append_left (x ∷ xs) ys (suc i) h = get_or-append_left xs ys i (omega arith)

get_or-append_end : (xs : List ℕ) (y : ℕ) → get_or (xs ++ (y ∷ [])) (length xs) 0 ≡ y
get_or-append_end [] y = refl
get_or-append_end (x ∷ xs) y = get_or-append_end xs y

pub pixels-append :
    (xs ys : List ℕ) (p n : ℕ) → p + n ≤ 8 * length xs → pixels (xs ++ ys) p n ≡ pixels xs p n
pixels-append xs ys p zero h = refl
pixels-append xs ys p (suc n) h =
    ap₂ (λ x xs. x ∷ xs)
      (ap (λ b. pixel_of b (p % 8)) (get_or-append_left xs ys (p / 8) (omega arith)))
      (pixels-append xs ys (p + 1) n (omega arith))

-- What the last pixel of a list of pixels is, and what precedes it.
abbrev pub Unsnoc : List Bool → Option Bool → List Bool → Type 0
Unsnoc xs none ys = (xs ≡ []) × (ys ≡ [])
Unsnoc xs (some x) ys = xs ≡ ys ++ (x ∷ [])

-- A step that takes a pixel off the back.
abbrev pub StepsBack : List Bool → Option Bool × GlyphRowIter → Type 0
StepsBack xs r =
    (item : Option Bool) × (it : GlyphRowIter) × (r ≡ (item, it))
    × IsRow it
    × Unsnoc xs item (remaining it)

pixel_last :
    (bytes : List ℕ) {last : ℕ} {rest : List ℕ} (i : ℕ)
    → split_last bytes ≡ some (last, rest)
    → i < 8
    → pixel bytes (8 * length rest + i) ≡ pixel_of last i
pixel_last bytes {last} {rest} i e h =
    let whole = split_last_lem bytes {last = last} {rest = rest} e in
    let high : (8 * length rest + i) / 8 ≡ length rest = omega arith in
    let low : (8 * length rest + i) % 8 ≡ i = omega arith in
    rw (high, low, whole) (ap (λ b. pixel_of b i) (get_or-append_end rest last))

module _ (bytes : List ℕ) (last : ℕ) (rest : List ℕ)
    (e : split_last bytes ≡ some (last, rest)) where
  length_lem : length bytes ≡ length rest + 1
  length_lem =
      ap length (split_last_lem bytes {last = last} {rest = rest} e)
      ∙ length-append rest (last ∷ [])

  -- The last pixel of the row, and those before it.
  left_snoc :
      (start end n : ℕ)
      → end < 8
      → start + n ≡ 8 * length rest + end
      → pixels bytes start (n + 1) ≡ pixels bytes start n ++ (pixel_of last end ∷ [])
  left_snoc start end n he at =
      rw (pixels-snoc bytes start n, at)
        (ap (λ x. pixels bytes start n ++ (x ∷ []))
          (pixel_last bytes {last = last} {rest = rest} end e he))

  byte_done :
      (start : ℕ)
      → start < 8
      → start ≤ 8 * length rest
      → left bytes start 0 ≡ left rest start 7 ++ (pixel_of last 0 ∷ [])
  byte_done start hs room =
      let n = count_from rest start 7 in
      let more : count_from bytes start 0 ≡ n + 1 = omega (arith, length_lem) in
      let whole = split_last_lem bytes {last = last} {rest = rest} e in
      let front : pixels bytes start n ≡ pixels rest start n =
        rw whole (pixels-append rest (last ∷ []) start n (omega arith)) in
      rw (more, left_snoc start 0 n (omega arith) (omega arith), front) refl

  inside_byte :
      (start end : ℕ)
      → suc end < 8
      → start ≤ 8 * length rest + suc end
      → left bytes start (suc end) ≡ left bytes start end ++ (pixel_of last (suc end) ∷ [])
  inside_byte start end he room =
      let more : count_from bytes start (suc end) ≡ count_from bytes start end + 1 =
        omega (arith, length_lem) in
      rw
        (
          more,
          left_snoc start (suc end) (count_from bytes start end) he (omega (arith, length_lem)),
        )
        refl

  last_pixel :
      (start end : ℕ)
      → start < 8
      → end < 8
      → (leb (length bytes) 1 && ltb end start) ≡ false
      → start ≤ 8 * length rest + end
      → StepsBack
          (left bytes start end)
          (next_back (record { bytes = bytes; indices = end * 16 + start }))
  unfolding next_back
  last_pixel start zero hs he more room =
      let ends = split_indices_lem start 0 hs in
      (
        some (pixel_of last 0),
        record { bytes = rest; indices = 7 * 16 + start },
        rw (next_back, e, ends, more, ends, xor-70 start hs) refl,
        (start, 7, hs, omega arith, refl),
        rw (remaining_lem rest start 7 hs) (byte_done start hs (omega arith)),
      )
  last_pixel start (suc end) hs he more room =
      let ends = split_indices_lem start (suc end) hs in
      let moved : suc end * 16 + start - 0x10 ≡ end * 16 + start = omega arith in
      let inner : (suc end == 0) ≡ false = ground arith in
      (
        some (pixel_of last (suc end)),
        record { bytes = bytes; indices = end * 16 + start },
        rw (next_back, e, ends, more, ends, inner, moved) refl,
        (start, end, hs, omega arith, refl),
        rw (remaining_lem bytes start end hs) (inside_byte start end he room),
      )

  step_back :
      (start end : ℕ)
      → start < 8
      → end < 8
      → StepsBack
          (left bytes start end)
          (next_back (record { bytes = bytes; indices = end * 16 + start }))
  unfolding next_back
  step_back start end hs he =
      let ends = split_indices_lem start end hs in
      elim (Bool-cases (leb (length bytes) 1 && ltb end start)) [
        | inl short ↦
            let none_left : count_from bytes start end ≡ 0 = ground (arith, length_lem) in
            let none_left' : count_from [] start end ≡ 0 = omega arith in
            (
              none,
              record { bytes = []; indices = end * 16 + start },
              rw (next_back, e, ends, short) refl,
              (start, end, hs, he, refl),
              (rw none_left refl, rw (remaining_lem [] start end hs, none_left') refl),
            )
        | inr more ↦
            let room : start ≤ 8 * length rest + end = ground (arith, length_lem) in
            last_pixel start end hs he more room
      ]

next_back-bytes :
    (bytes : List ℕ) (start end : ℕ)
    → start < 8
    → end < 8
    → StepsBack
        (left bytes start end)
        (next_back (record { bytes = bytes; indices = end * 16 + start }))
unfolding next_back
next_back-bytes [] start end hs he =
    let none_left : count_from [] start end ≡ 0 = omega arith in
    (
      none,
      record { bytes = []; indices = end * 16 + start },
      refl,
      (start, end, hs, he, refl),
      (rw none_left refl, rw (remaining_lem [] start end hs, none_left) refl),
    )
next_back-bytes (b ∷ bytes) start end hs he = elim (Option-cases (split_last (b ∷ bytes))) [
  | inl e ↦ absurd (split_last_cons b bytes e)
  | inr ((last, rest), e) ↦ step_back (b ∷ bytes) last rest e start end hs he
]

-- `next_back` takes the last of the pixels that are left, and says `none` when there are none.
pub next_back-StepsBack : (it : GlyphRowIter) → IsRow it → StepsBack (remaining it) (next_back it)
next_back-StepsBack it (start, end, hs, he, same) =
    rw (same, split_indices_lem start end hs) (next_back-bytes it.bytes start end hs he)
