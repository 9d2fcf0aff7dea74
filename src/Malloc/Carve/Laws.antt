-- ===== src/Malloc/Carve/Laws.antt =====
-- The blocks of a page: where they lie, and that they do not overlap.
use mxos_v.Base.{
  ℕ, zero, suc, ◌+◌, ◌-◌, ◌%◌, ◌≤◌, ◌<◌, ◌≡◌, inl, inr, refl, sym, ◌∙◌, ◌&&◌, leb, leb→le, Bool,
  true, List, [], ◌∷◌, get_or, ltb, ltb→lt, ltb→ge, Bool-cases, arith,
}
use mxos_v.Malloc.{
  segment_size, small_page_size, small_size_classes, large_size_classes,
  large_size_class_page_starts,
}
use mathlib.Core.Path.{subst}
use native.Mathlib.Nat.{mod-eq_of_lt, mod-eq-sub-mod}
use mxos_v.Malloc.Bounds.{every, every-lt, page_starts_fit}
use mxos_v.Malloc.Carve.{carve_blocks, carve_small_page, carve_large_page}

-- Blocks of `size` bytes, the last one first, side by side from `low` up to `high`.
abbrev pub Tiles : ℕ → ℕ → ℕ → List ℕ → Type 0
Tiles size low high [] = high ≡ low
Tiles size low high (b ∷ bs) = (b + size ≡ high) × Tiles size low b bs

-- The loop, where a pass leaves the offset at or below `top` as long as `P` holds.
module _ (base size end top : ℕ) (P : ℕ → Type 0) (pos : 1 ≤ size)
    (room : (o : ℕ) → P o → o < end → (o + size ≤ top) × P (o + size)) where
  carve_blocks-Tiles :
      (fuel low o : ℕ) (free : List ℕ)
      → end ≤ o + fuel
      → o ≤ top
      → P o
      → Tiles size low (base + o) free
      → (last : ℕ) × (end ≤ last)
        × (last ≤ top)
        × P last
        × Tiles size low (base + last) (carve_blocks fuel base o end size free)
  unfolding carve_blocks
  carve_blocks-Tiles zero low o free enough below p tiles = (o, omega arith, below, p, tiles)
  carve_blocks-Tiles (suc fuel) low o free enough below p tiles = elim (Bool-cases (ltb o end)) [
    | inl more ↦
        let (fits, p') = room o p (ltb→lt o end more) in
        let next_block : base + o + size ≡ base + (o + size) = omega arith in
        let (last, done, small, q, all) =
          carve_blocks-Tiles fuel low (o + size) ((base + o) ∷ free) (omega arith) fits p'
            (next_block, tiles) in
        (last, done, small, q, rw (carve_blocks, more) all)
    | inr done ↦ (o, ltb→ge o end done, below, p, rw (carve_blocks, done) tiles)
  ]

abbrev small_size_fits : ℕ → Bool
small_size_fits i =
    leb 1 (get_or small_size_classes i 0) && leb (get_or small_size_classes i 0) small_page_size

small_sizes : every small_size_fits 33 ≡ true
small_sizes = refl

pub small_size :
    (class : ℕ)
    → class < 33
    → (1 ≤ get_or small_size_classes class 0)
      × (get_or small_size_classes class 0 ≤ small_page_size)
small_size class h =
    between (get_or small_size_classes class 0) (every-lt small_size_fits 33 class small_sizes h)
  where
    between :
        (size : ℕ)
        → (leb 1 size && leb size small_page_size) ≡ true
        → (1 ≤ size) × (size ≤ small_page_size)
    between size h = ground arith

abbrev large_size_pos : ℕ → Bool
large_size_pos i = leb 1 (get_or large_size_classes i 0)

large_sizes : every large_size_pos 24 ≡ true
large_sizes = refl

large_size : (class : ℕ) → class < 24 → 1 ≤ get_or large_size_classes class 0
large_size class h = leb→le 1 _ (every-lt large_size_pos 24 class large_sizes h)

-- A multiple of the size that is left holds a block, and leaves a multiple.
whole_block :
    (size : ℕ)
    → 1 ≤ size
    → (o : ℕ) → (segment_size - o) % size ≡ 0
    → o < segment_size
    → (o + size ≤ segment_size) × ((segment_size - (o + size)) % size ≡ 0)
whole_block size pos o whole below =
    let left : ℕ = segment_size - o in
    let fits : size ≤ left = elim (Bool-cases (leb size left)) [
      | inl e ↦ leb→le size left e
      | inr e ↦
          let less : left < size = ground arith in absurd (omega (arith, mod-eq_of_lt less, whole))
    ] in
    let rest : segment_size - (o + size) ≡ left - size = omega arith in
    (omega arith, rw rest (sym (mod-eq-sub-mod fits) ∙ whole))

-- A new small page of a class is cut into blocks of the size of the class, side by side from its start
-- up to an end in the page after which no other block fits.
pub carve_small_page-Tiles :
    (page_start class : ℕ)
    → class < 33
    → let size = get_or small_size_classes class 0 in
      (last : ℕ) × (last ≤ small_page_size)
      × (small_page_size < last + size)
      × Tiles size page_start (page_start + last) (carve_small_page page_start class [])
unfolding carve_small_page
carve_small_page-Tiles page_start class h =
    let size : ℕ = get_or small_size_classes class 0 in
    let (pos, fits) = small_size class h in
    let (last, done, below, _, tiles) =
      carve_blocks-Tiles page_start size (small_page_size - size + 1) small_page_size (λ o. Unit)
        pos (λ o _ l. (omega arith, tt)) small_page_size page_start 0 [] (omega arith) (omega arith)
        tt (omega arith) in
    (last, below, omega arith, tiles)

-- A new large page of a class is cut into blocks of the size of the class, side by side from its start
-- in the segment to the end of the segment.
pub carve_large_page-Tiles :
    (segment class : ℕ)
    → class < 24
    → Tiles
        (get_or large_size_classes class 0)
        (segment + get_or large_size_class_page_starts class 0)
        (segment + segment_size)
        (carve_large_page segment class [])
unfolding carve_large_page
carve_large_page-Tiles segment class h =
    let size : ℕ = get_or large_size_classes class 0 in
    let start : ℕ = get_or large_size_class_page_starts class 0 in
    let (_, below, whole) = page_starts_fit class h in
    let (last, done, top, _, tiles) =
      carve_blocks-Tiles segment size segment_size segment_size (λ o. (segment_size - o) % size ≡ 0)
        (large_size class h) (whole_block size (large_size class h)) segment_size (segment + start)
        start [] (omega arith) (omega arith) whole refl in
    let at_end : last ≡ segment_size = omega arith in
    subst (λ l. Tiles size (segment + start) (segment + l) (carve_large_page segment class []))
      at_end tiles
