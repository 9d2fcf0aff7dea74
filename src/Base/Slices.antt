-- ===== src/Base/Slices.antt =====
-- Slices as the code cuts them: `get(a..b)`, `chunks`, `split_inclusive`, `position`.
use Prim.Native.Nat.{ℕ, zero, suc, ◌+◌, ◌-◌, ◌≤◌, min}
use mathlib.Core.Path.{◌≡◌, refl, ap}
use mathlib.Core.Bool.{Bool, ◌&&◌}
use mathlib.Core.List.{List, [], ◌∷◌}
use mathlib.Core.Option.{Option, none, some}
use native.Mathlib.Nat.{suc-add}
use native.Mathlib.Omega.{arith}
use mxos_v.Base.Tests.{leb, if◌then◌else◌, le→leb}
use mxos_v.Base.Lists.{length, drop}

module _ {ℓ} {A : Type ℓ} where
  abbrev pub take : ℕ → List A → List A
  take zero xs = []
  take (suc n) [] = []
  take (suc n) (x ∷ xs) = x ∷ take n xs

  -- `get(a..b)`
  abbrev pub get_range : List A → ℕ → ℕ → Option (List A)
  get_range xs a b = if leb a b && leb b (length xs) then some (take (b - a) (drop a xs)) else none

  abbrev pub cons_first : A → List (List A) → List (List A)
  cons_first x [] = (x ∷ []) ∷ []
  cons_first x (c ∷ cs) = (x ∷ c) ∷ cs

  -- The chunks of `n` elements, when the first of them has room for `r`.
  abbrev pub chunks_from : ℕ → ℕ → List A → List (List A)
  chunks_from n zero xs = []
  chunks_from n (suc r) [] = []
  chunks_from n (suc zero) (x ∷ xs) = (x ∷ []) ∷ chunks_from n n xs
  chunks_from n (suc (suc r)) (x ∷ xs) = cons_first x (chunks_from n (suc r) xs)

  -- `chunks(n)`, for an `n` that is not 0
  abbrev pub chunks : ℕ → List A → List (List A)
  chunks n xs = chunks_from n n xs

  -- `split_inclusive`: a piece ends with the element that `f` accepts.
  abbrev pub split_inclusive : (A → Bool) → List A → List (List A)
  split_inclusive f [] = []
  split_inclusive f (x ∷ xs) =
      let rest = split_inclusive f xs in if f x then (x ∷ []) ∷ rest else cons_first x rest

  -- `iter().position`
  abbrev pub position : (A → Bool) → List A → Option ℕ
  position f [] = none
  position f (x ∷ xs) =
      let rest = position f xs in
      if f x then some 0 else elim rest [ none ↦ none | some n ↦ some (suc n) ]

  -- `split_last`: the last element and what precedes it
  abbrev pub split_last : List A → Option (A × List A)
  split_last [] = none
  split_last (x ∷ xs) =
      let rest = split_last xs in elim rest [ none ↦ some (x, []) | some p ↦ some (p.0, x ∷ p.1) ]

  pub length-take : (n : ℕ) (xs : List A) → length (take n xs) ≡ min n (length xs)
  length-take zero xs = omega arith
  length-take (suc n) [] = omega arith
  length-take (suc n) (x ∷ xs) = omega (arith, length-take n xs)

  pub length-drop : (n : ℕ) (xs : List A) → length (drop n xs) ≡ length xs - n
  length-drop zero xs = omega arith
  length-drop (suc n) [] = omega arith
  length-drop (suc n) (x ∷ xs) = omega (arith, length-drop n xs)

  drop-nil : (n : ℕ) → drop {A = A} n [] ≡ []
  drop-nil zero = refl
  drop-nil (suc n) = refl

  pub drop-drop : (m n : ℕ) (xs : List A) → drop n (drop m xs) ≡ drop (m + n) xs
  drop-drop zero n xs = ap (λ k. drop k xs) (omega arith)
  drop-drop (suc m) n [] = rw suc-add (drop-nil n)
  drop-drop (suc m) n (x ∷ xs) = rw suc-add (drop-drop m n xs)

  pub get_range_lem :
      (xs : List A) (a b : ℕ)
      → a ≤ b
      → b ≤ length xs
      → get_range xs a b ≡ some (take (b - a) (drop a xs))
  get_range_lem xs a b h k = rw (le→leb a b h, le→leb b (length xs) k) refl

  pub get_range-cons :
      (x : A) (xs : List A) (a b : ℕ) → get_range (x ∷ xs) (suc a) (suc b) ≡ get_range xs a b
  get_range-cons x xs a b =
      let first : leb (suc a) (suc b) ≡ leb a b = ground arith in
      let second : leb (suc b) (suc (length xs)) ≡ leb b (length xs) = ground arith in
      let count : suc b - suc a ≡ b - a = omega arith in rw (first, second, count) refl

  -- The first chunk of a slice that has room for it.
  pub chunks_from_lem :
      (n r : ℕ) (xs : List A)
      → suc r ≤ length xs
      → chunks_from n (suc r) xs ≡ take (suc r) xs ∷ chunks_from n n (drop (suc r) xs)
  chunks_from_lem n r [] h = elim h [ ]
  chunks_from_lem n zero (x ∷ xs) h = refl
  chunks_from_lem n (suc r) (x ∷ xs) h = ap (cons_first x) (chunks_from_lem n r xs (omega arith))

  pub chunks-nil : (n : ℕ) → chunks n [] ≡ []
  chunks-nil zero = refl
  chunks-nil (suc n) = refl

  -- The first chunk and the others.
  pub chunks_lem :
      (n : ℕ) (xs : List A) → 1 ≤ n → n ≤ length xs → chunks n xs ≡ take n xs ∷ chunks n (drop n xs)
  chunks_lem zero xs pos room = elim pos [ ]
  chunks_lem (suc r) xs pos room = chunks_from_lem (suc r) r xs room
