-- ===== src/Malloc/Bounds.antt =====
-- The size classes: each size goes to the smallest class that holds it, and the blocks of a large
-- page end with the segment.
use mxos_v.Base.{
  ℕ, zero, suc, ◌+◌, ◌-◌, ◌*◌, ◌/◌, ◌%◌, ◌^◌, ◌≤◌, ◌<◌, ◌≡◌, refl, Bool, true, false, ◌&&◌, ◌||◌,
  ◌++◌, ◌==◌, ltb, leb, get_or, ltb→lt, ltb→ge, leb→le, ◌⊎◌, Bool-cases, inl, inr, arith,
}
use native.Mathlib.Nat.{
  pow-suc, pow-le-pow_right, add-mul, mod-lt, div-add-mod', div-mul-le_self, div-lt_iff_lt-mul,
  le-div_iff_mul-le, one-le-pow,
}
use mxos_v.Base.Bits.{mul-pow-add}
use mxos_v.Malloc.{
  segment_size, small_size_classes, large_size_classes, large_size_class_page_starts, bit_length,
  size_class,
}

-- The size of the blocks of a class.
abbrev pub class_bytes : ℕ → ℕ
class_bytes c = get_or (small_size_classes ++ large_size_classes) c 0

-- Every number below `n` passes.
abbrev pub every : (ℕ → Bool) → ℕ → Bool
every p zero = true
every p (suc n) = every p n && p n

pub every-lt : (p : ℕ → Bool) (n x : ℕ) → every p n ≡ true → x < n → p x ≡ true
every-lt p zero x h lt = absurd (omega arith)
every-lt p (suc n) x h lt = ground (arith, every-lt p n x)

-- `c` is the smallest class that holds `size`.
abbrev pub is_smallest : ℕ → ℕ → Bool
is_smallest size c =
    ltb c 57 && leb size (class_bytes c) && (c == 0 || ltb (class_bytes (c - 1)) size)

small_table : every (λ size. is_smallest size (size_class size)) 65 ≡ true
unfolding size_class
small_table = refl

-- The classes above 64 bytes: with `b` = 7 + i bits and the quotient 4 + j, the class ends with the
-- multiple of the unit, and the class before it ends one unit lower.
class_ends : ℕ → ℕ → Bool
class_ends i j =
    let c = 4 * (i + 7) + (j + 4) - 27 in
    ltb c 57
    && (class_bytes c == (j + 5) * 2 ^ (i + 4))
    && (class_bytes (c - 1) == (j + 4) * 2 ^ (i + 4))
    && ltb 0 c

large_table : every (λ i. every (λ j. class_ends i j) 4) 13 ≡ true
unfolding class_ends
large_table = refl

bit_length-suc : (n x : ℕ) → 0 < x → bit_length (suc n) x ≡ suc (bit_length n (x / 2))
unfolding bit_length
bit_length-suc n x h = let e : (x == 0) ≡ false = ground arith in rw (e, bit_length) refl

bit_length-bounds :
    (n x : ℕ) → x < 2 ^ n → (x < 2 ^ bit_length n x) × (2 ^ bit_length n x ≤ 2 * x + (1 - x))
bit_length-bounds zero x h = unfold bit_length in (h, omega arith)
bit_length-bounds (suc n) zero h = unfold bit_length in (omega arith, omega arith)
bit_length-bounds (suc n) (suc x) h =
    let (lt, ge) = bit_length-bounds n (suc x / 2) (omega (arith, pow-suc 2 n)) in
    let twice = pow-suc 2 (bit_length n (suc x / 2)) in
    rw (bit_length-suc n (suc x) (omega arith)) (omega (arith, twice), omega (arith, twice))

class_of :
    (i j size : ℕ)
    → i < 13
    → j < 4
    → (j + 4) * 2 ^ (i + 4) < size
    → size ≤ (j + 5) * 2 ^ (i + 4)
    → is_smallest size (4 * (i + 7) + (j + 4) - 27) ≡ true
unfolding class_ends
class_of i j size hi hj above below =
    let at =
      every-lt (λ j. class_ends i j) 4 j
        (every-lt (λ i. every (λ j. class_ends i j) 4) 13 i large_table hi) hj in
    ground (arith, at)

small_exponents : every (λ b. leb (2 ^ b) 64) 7 ≡ true
small_exponents = refl

-- The number of bits of a size above 64 bytes that a class holds.
bits_range :
    (b size : ℕ) → 64 < size → size ≤ 0x80000 → size < 2 ^ b → 2 ^ b ≤ 2 * size → (7 ≤ b) × (b ≤ 20)
bits_range b size h k lt ge = (
  elim (Bool-cases (ltb b 7)) [
    | inl e ↦
        absurd (ground (arith, every-lt (λ b. leb (2 ^ b) 64) 7 b small_exponents (ltb→lt b 7 e)))
    | inr e ↦ ltb→ge b 7 e
  ],
  elim (Bool-cases (ltb 20 b)) [
    | inl e ↦
        let long : 2 ^ 21 ≤ 2 ^ b = pow-le-pow_right (omega arith) (ltb→lt 20 b e) in
        absurd (omega arith)
    | inr e ↦ ltb→ge 20 b e
  ],
)

module _ (i u size : ℕ) where
  quotient :
      4 * u < size
      → size ≤ 8 * u
      → (j : ℕ) × (j < 4) × ((size - 1) / u ≡ j + 4) × ((j + 4) * u < size) × (size ≤ (j + 5) * u)
  quotient h k =
      let pos : 0 < u = omega arith in
      let q = (size - 1) / u in
      let low : 4 ≤ q = (le-div_iff_mul-le pos).1 (omega arith) in
      let high : q < 8 = (div-lt_iff_lt-mul pos).1 (omega arith) in
      let under = div-mul-le_self (size - 1) u in
      let over = div-add-mod' (size - 1) u in
      let rem = mod-lt (size - 1) pos in
      let e : (q - 4) + 4 ≡ q = omega arith in
      let e' : (q - 4) + 5 ≡ q + 1 = omega arith in
      (q - 4, omega arith, omega arith, rw e (omega arith), rw (e', add-mul q 1 u) (omega arith))

eighth : (i : ℕ) → 2 ^ (i + 7) ≡ 2 ^ (i + 4) * 8
eighth i = let e : i + 7 ≡ i + 4 + 3 = omega arith in rw e (omega (arith, mul-pow-add 1 3 (i + 4)))

half : (i : ℕ) → 0 < i → 2 ^ (i + 4) ≡ 2 ^ (i - 1 + 4) * 2
half i h =
    let e : i + 4 ≡ i - 1 + 4 + 1 = omega arith in rw e (omega (arith, mul-pow-add 1 1 (i - 1 + 4)))

-- The unit of a size that a class holds is at most 2 ^ 16.
in_table : (i : ℕ) → 2 ^ (i + 4) < 2 ^ 17 → i < 13
in_table i h = elim (Bool-cases (ltb i 13)) [
  | inl e ↦ ltb→lt i 13 e
  | inr e ↦
      let big : 2 ^ 17 ≤ 2 ^ (i + 4) =
        pow-le-pow_right (omega arith) {i = 17} (omega (arith, ltb→ge i 13 e)) in
      absurd (omega arith)
]

size_class_above :
    (i size : ℕ)
    → 64 < size
    → bit_length 64 size ≡ i + 7
    → size_class size ≡ 4 * (i + 7) + (size - 1) / 2 ^ (i + 4) - 27
unfolding size_class
size_class_above i size h e =
    let large : leb size 64 ≡ false = ground arith in
    let less : i + 7 - 3 ≡ i + 4 = omega arith in rw (large, e, less)

-- A size of `i + 7` bits.
module _ (i size : ℕ) (h : 64 < size) (k : size ≤ 0x80000) (lt : size < 2 ^ (i + 7))
    (ge : 2 ^ (i + 7) ≤ 2 * size) where
  abbrev u : ℕ
  u = 2 ^ (i + 4)

  -- The sizes above the power of two are in one of the four classes of these bits.
  upper : 4 * u < size → is_smallest size (4 * (i + 7) + (size - 1) / u - 27) ≡ true
  upper more =
      let (j, hj, e, above, below) = quotient i u size more (omega (arith, eighth i)) in
      rw e (class_of i j size (in_table i (omega arith)) hj above below)

  -- The power of two is in the last class of the bits below.
  lowest : size ≡ 4 * u → is_smallest size (4 * (i + 7) + (size - 1) / u - 27) ≡ true
  lowest e = elim (Bool-cases (ltb 0 i)) [
    | inl pos ↦
        let positive = ltb→lt 0 i pos in
        let twice = half i positive in
        let some_unit : 0 < 2 ^ (i - 1 + 4) = one-le-pow (i - 1 + 4) 2 (omega arith) in
        let some_u : 0 < u = one-le-pow (i + 4) 2 (omega arith) in
        let low : 3 ≤ (size - 1) / u = (le-div_iff_mul-le some_u).1 (omega arith) in
        let high : (size - 1) / u < 4 = (div-lt_iff_lt-mul some_u).1 (omega arith) in
        let same : 4 * (i + 7) + (size - 1) / u - 27 ≡ 4 * (i - 1 + 7) + (3 + 4) - 27 =
          omega arith in
        rw same (
          class_of (i - 1) 3 size (in_table (i - 1) (omega arith)) (omega arith) (omega arith)
            (omega arith))
    | inr zero_bits ↦
        let e' : i ≡ 0 = ground (arith, ltb→ge 0 i zero_bits) in
        let small : u ≡ 16 = rw e' refl in absurd (omega arith)
  ]

  both : is_smallest size (4 * (i + 7) + (size - 1) / u - 27) ≡ true
  both = elim (Bool-cases (ltb (4 * u) size)) [
    | inl more ↦ upper (ltb→lt (4 * u) size more)
    | inr equal ↦ lowest (omega (arith, ltb→ge (4 * u) size equal, eighth i))
  ]

above_64 : (size : ℕ) → 64 < size → size ≤ 0x80000 → is_smallest size (size_class size) ≡ true
above_64 size h k =
    let b = bit_length 64 size in
    let (lt, ge) = bit_length-bounds 64 size (omega arith) in
    let (lo, hi) = bits_range b size h k lt (omega arith) in
    let i = b - 7 in
    let e : b ≡ i + 7 = omega arith in
    rw (size_class_above i size h e) (both i size h k (rw (← e) lt) (rw (← e) (omega arith)))

all_sizes : (size : ℕ) → size ≤ 0x80000 → is_smallest size (size_class size) ≡ true
all_sizes size k = elim (Bool-cases (leb size 64)) [
  | inl e ↦
      every-lt (λ s. is_smallest s (size_class s)) 65 size small_table
        (omega (arith, leb→le size 64 e))
  | inr e ↦ above_64 size (ground (arith, e)) k
]

-- Each size up to 0x80000 has a class of the table whose blocks hold it, and the blocks of the class
-- before it, if there is one, are too small.
pub size_class_smallest :
    (size : ℕ)
    → size ≤ 0x80000
    → (size_class size < 57)
      × (size ≤ class_bytes (size_class size))
      × ((size_class size ≡ 0) ⊎ (class_bytes (size_class size - 1) < size))
size_class_smallest size k =
    let c = size_class size in parts size c (class_bytes c) (class_bytes (c - 1)) (all_sizes size k)
  where
    parts :
        (size c own before : ℕ)
        → (ltb c 57 && leb size own && (c == 0 || ltb before size)) ≡ true
        → (c < 57) × (size ≤ own) × ((c ≡ 0) ⊎ (before < size))
    parts size c own before h = ground arith

starts_fit : ℕ → Bool
starts_fit i =
    let size = get_or large_size_classes i 0 in
    let start = get_or large_size_class_page_starts i 0 in
    leb 0x1000 start && ltb start segment_size && ((segment_size - start) % size == 0)

starts_table : every starts_fit 24 ≡ true
unfolding starts_fit
starts_table = refl

-- A large page of each class starts at 0x1000 or later, inside the segment, and its blocks end
-- exactly where the segment ends.
pub page_starts_fit :
    (i : ℕ)
    → i < 24
    → let size = get_or large_size_classes i 0 in
      let start = get_or large_size_class_page_starts i 0 in
      (0x1000 ≤ start) × (start < segment_size) × ((segment_size - start) % size ≡ 0)
unfolding starts_fit
page_starts_fit i h =
    parts (get_or large_size_class_page_starts i 0)
      ((segment_size - get_or large_size_class_page_starts i 0) % get_or large_size_classes i 0)
      (every-lt starts_fit 24 i starts_table h)
  where
    parts :
        (start left : ℕ)
        → (leb 0x1000 start && ltb start segment_size && (left == 0)) ≡ true
        → (0x1000 ≤ start) × (start < segment_size) × (left ≡ 0)
    parts start left h = ground arith
