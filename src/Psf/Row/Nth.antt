-- ===== src/Psf/Row/Nth.antt =====
-- `nth`: the pixel that it gives.
use mxos_v.Base.{
  ℕ, zero, suc, ◌+◌, ◌-◌, ◌*◌, ◌/◌, ◌%◌, ◌≤◌, ◌<◌, min, bit_and, bit_xor, ◌≡◌, refl, ap, ap₂, ◌⊎◌,
  inl, inr, Bool, true, false, Option, none, some, List, [], ◌∷◌, length, drop, get_or, get_elem?,
  length-drop, drop-drop, ◌==◌, leb, ltb, ltb→lt, ltb→ge, Bool-cases, arith,
}
use mxos_v.Base.Bits.{and-pow, xor-pow, bit}
use native.Mathlib.Nat.{suc-add}
use mxos_v.Psf.Row.{GlyphRowIter, pixel_of, next, nth}
use mxos_v.Psf.Row.Pixels.{
  pixels, IsRow, Uncons, count_from, remaining, left, remaining_lem, next-Steps, split_indices_lem,
}

get_or-drop : (k : ℕ) (bytes : List ℕ) (i : ℕ) → get_or (drop k bytes) i 0 ≡ get_or bytes (k + i) 0
get_or-drop zero bytes i = ap (λ j. get_or bytes j 0) (omega arith)
get_or-drop (suc k) [] i = refl
get_or-drop (suc k) (b ∷ bytes) i = rw suc-add (get_or-drop k bytes i)

pub pixels-drop :
    (k : ℕ) (bytes : List ℕ) (p n : ℕ) → pixels (drop k bytes) p n ≡ pixels bytes (8 * k + p) n
pixels-drop k bytes p zero = refl
pixels-drop k bytes p (suc n) =
    let high : (8 * k + p) / 8 ≡ k + p / 8 = omega arith in
    let low : (8 * k + p) % 8 ≡ p % 8 = omega arith in
    let next_at : 8 * k + p + 1 ≡ 8 * k + (p + 1) = omega arith in
    rw (high, low, next_at)
      (ap₂ (λ b xs. pixel_of b (p % 8) ∷ xs) (get_or-drop k bytes (p / 8))
        (pixels-drop k bytes (p + 1) n))

get_elem?-pixels :
    (bytes : List ℕ) (p n i : ℕ)
    → get_elem? (pixels bytes p n) i ≡ get_elem? (pixels bytes (p + i) (n - i)) 0
get_elem?-pixels bytes p zero i = let e : zero - i ≡ 0 = omega arith in rw e refl
get_elem?-pixels bytes p (suc n) zero =
    let e : p + 0 ≡ p = omega arith in let e' : suc n - 0 ≡ suc n = omega arith in rw (e, e') refl
get_elem?-pixels bytes p (suc n) (suc i) =
    let at : p + suc i ≡ p + 1 + i = omega arith in
    let less : suc n - suc i ≡ n - i = omega arith in
    rw (at, less) (get_elem?-pixels bytes (p + 1) n i)

-- Equal counts of pixels have the same first pixel, when they start at the same place or are 0.
same_first :
    (bytes : List ℕ) (p p' n n' : ℕ)
    → n ≡ n'
    → (n ≡ 0) ⊎ (p ≡ p')
    → get_elem? (pixels bytes p n) 0 ≡ get_elem? (pixels bytes p' n') 0
same_first bytes p p' n n' same (inl empty) =
    let empty' : n' ≡ 0 = omega arith in rw (empty, empty') refl
same_first bytes p p' n n' same (inr at) = rw (same, at) refl

first_lem :
    (xs : List Bool) (item : Option Bool) (ys : List Bool)
    → Uncons xs item ys
    → item ≡ get_elem? xs 0
first_lem xs none ys h = rw (h.0) refl
first_lem xs (some x) ys h = rw h refl

next_first :
    (bytes : List ℕ) (start end : ℕ)
    → start < 8
    → end < 8
    → (next (record { bytes = bytes; indices = end * 16 + start })).0
      ≡ get_elem? (left bytes start end) 0
next_first bytes start end hs he =
    let (item, it, runs, row, more) =
      next-Steps (record { bytes = bytes; indices = end * 16 + start })
        (start, end, hs, he, refl) in
    rw (runs, ← remaining_lem bytes start end hs) (first_lem _ item _ more)

-- The first pixel after `k` bytes.
dropped_first :
    (bytes : List ℕ) (k start end : ℕ)
    → start < 8
    → end < 8
    → (next (record { bytes = drop k bytes; indices = end * 16 + start })).0
      ≡ get_elem? (pixels bytes (8 * k + start) (8 * (length bytes - k) + end - (start + 7))) 0
dropped_first bytes k start end hs he =
    rw
      (
        next_first (drop k bytes) start end hs he,
        pixels-drop k bytes start (count_from (drop k bytes) start end),
        length-drop k bytes,
      )
      refl

module _ (bytes : List ℕ) (start end n : ℕ) (hs : start < 8) (he : end < 8) where
  abbrev skipped : ℕ
  skipped = min (length bytes) (n / 8 + 1)

  placed :
      (at : ℕ)
      → at ≡ start + n % 8
      → (8 * (length bytes - skipped) + end - (at + 7) ≡ 0) ⊎ (8 * skipped + at ≡ start + (n + 8))
  placed at e = elim (Bool-cases (leb (n / 8 + 1) (length bytes))) [
    | inl h ↦ inr (ground arith)
    | inr h ↦ inl (ground arith)
  ]

  placed_next :
      (at : ℕ)
      → at ≡ start + n % 8
      → 8 ≤ at
      → (8 * (length bytes - (skipped + 1)) + end - (at - 8 + 7) ≡ 0)
        ⊎ (8 * (skipped + 1) + (at - 8) ≡ start + (n + 8))
  placed_next at e low = elim (Bool-cases (leb (n / 8 + 1) (length bytes))) [
    | inl h ↦ inr (ground arith)
    | inr h ↦ inl (ground arith)
  ]

  nth_bytes :
      (nth n (record { bytes = bytes; indices = end * 16 + start })).0
      ≡ get_elem? (left bytes start end) (n + 8)
  unfolding nth
  nth_bytes =
      let at = start + n % 8 in
      let sum : end * 16 + start + n % 8 ≡ end * 16 + at = omega arith in
      let there = get_elem?-pixels bytes start (count_from bytes start end) (n + 8) in
      let bit3 : bit_and (end * 16 + at) 8 ≡ bit 3 (end * 16 + at) * 8 =
        and-pow 3 (end * 16 + at) in
      elim (Bool-cases (ltb at 8)) [
        | inl same_byte ↦
            let low : at < 8 = ltb→lt at 8 same_byte in
            let clear : (bit_and (end * 16 + at) 8 == 0) ≡ true = ground (arith, bit3) in
            rw (nth, sum, clear, dropped_first bytes skipped at end low he, there)
              (same_first bytes _ _ _ _ (omega arith) (placed at refl))
        | inr next_byte ↦
            let high : 8 ≤ at = ltb→ge at 8 next_byte in
            let set : bit 3 (end * 16 + at) ≡ 1 = omega arith in
            let flag : (bit_and (end * 16 + at) 8 == 0) ≡ false = ground (arith, bit3) in
            let cleared : bit_xor (end * 16 + at) 8 ≡ end * 16 + (at - 8) =
              omega (arith, xor-pow 3 (end * 16 + at) set) in
            rw
              (
                nth,
                sum,
                flag,
                cleared,
                drop-drop skipped 1 bytes,
                dropped_first bytes (skipped + 1) (at - 8) end (omega arith) he,
                there,
              )
              (same_first bytes _ _ _ _ (omega arith) (placed_next at refl high))
      ]

-- `nth(n)` gives the pixel that comes after `n + 8` others, where the caller of an iterator expects
-- the one after `n` others.
pub nth_lem :
    (it : GlyphRowIter) (n : ℕ) → IsRow it → (nth n it).0 ≡ get_elem? (remaining it) (n + 8)
nth_lem it n (start, end, hs, he, same) =
    rw (same, split_indices_lem start end hs) (nth_bytes it.bytes start end n hs he)
