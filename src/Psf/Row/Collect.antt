-- ===== src/Psf/Row/Collect.antt =====
-- The iterator of a row run to its end, and what it says of its length.
use mxos_v.Base.{
  ℕ, zero, suc, ◌+◌, ◌-◌, ◌*◌, ◌≤◌, ◌<◌, ◌≡◌, refl, ap, Bool, true, Option, none, some, List, [],
  ◌∷◌, length, leb, arith,
}
use mxos_v.Psf.Row.{GlyphRowIter, next, size_hint}
use mxos_v.Psf.Row.Pixels.{
  Steps, IsRow, remaining, left, count_from, length-pixels, next-Steps, split_indices_lem,
}

-- `collect()`, with at most `fuel` calls of `next`.
unfoldable pub collect : ℕ → GlyphRowIter → List Bool
collect zero it = []
collect (suc fuel) it =
    let rest = collect fuel ((next it).1) in elim ((next it).0) [ none ↦ [] | some p ↦ p ∷ rest ]

collect-Steps :
    (fuel : ℕ) (it : GlyphRowIter)
    → ((it' : GlyphRowIter)
        → IsRow it'
        → length (remaining it') < fuel
        → collect fuel it' ≡ remaining it')
    → (xs : List Bool) → Steps xs (next it)
    → length xs ≤ fuel
    → collect (suc fuel) it ≡ xs
unfolding collect
collect-Steps fuel it rest xs (none, it', runs, row, (empty, done)) room =
    rw (collect, runs, empty) refl
collect-Steps fuel it rest xs (some p, it', runs, row, more) room =
    let shorter : length xs ≡ suc (length (remaining it')) = ap length more in
    rw (collect, runs, runs, more) (ap (λ ps. p ∷ ps) (rest it' row (omega arith)))

-- Enough calls of `next` give the pixels that are left, in order, and more give the same.
pub collect-remaining :
    (fuel : ℕ) (it : GlyphRowIter)
    → IsRow it
    → length (remaining it) < fuel
    → collect fuel it ≡ remaining it
collect-remaining zero it row room = elim room [ ]
collect-remaining (suc fuel) it row room =
    collect-Steps fuel it (collect-remaining fuel) (remaining it) (next-Steps it row) (omega arith)

-- One less, and nothing for 0.
abbrev pub predecessor : ℕ → Option ℕ
predecessor zero = none
predecessor (suc n) = some n

hint_lem :
    (bytes : List ℕ) (start end n : ℕ)
    → start < 8
    → end < 8
    → count_from bytes start end ≡ n
    → size_hint (record { bytes = bytes; indices = end * 16 + start }) ≡ predecessor n
unfolding size_hint
hint_lem bytes start end zero hs he none_left =
    rw (size_hint, split_indices_lem start end hs) (ground arith)
hint_lem bytes start end (suc n) hs he more =
    let first : leb start (8 * length bytes) ≡ true = ground arith in
    let second : leb 8 (8 * length bytes - start + end) ≡ true = ground arith in
    let value : 8 * length bytes - start + end - 8 ≡ n = omega arith in
    rw (size_hint, split_indices_lem start end hs, first, second, value) refl

-- The length that a row says it has is one less than the number of pixels it has left, and a row
-- without pixels panics.
pub size_hint_lem :
    (it : GlyphRowIter) → IsRow it → size_hint it ≡ predecessor (length (remaining it))
size_hint_lem it (start, end, hs, he, same) =
    let n = count_from it.bytes start end in
    let len : length (left it.bytes start end) ≡ n = length-pixels it.bytes start n in
    rw (same, split_indices_lem start end hs, len) (hint_lem it.bytes start end n hs he refl)
