-- ===== src/Vmm/Sets.antt =====
-- The set of free ranges as a cover of addresses: what insertion, removal and the search do to it.
use mxos_v.Base.{
  ℕ, ◌+◌, ◌%◌, ◌^◌, ◌≤◌, ◌<◌, ◌≡◌, refl, sym, ◌∙◌, true, false, ◌&&◌, some, List, [], ◌∷◌, ltb, leb,
  if◌then◌else◌, Bool-cases, inl, inr, arith,
}
use mxos_v.Vmm.{SizeAddr, entry_lt, entry_eq, set_insert, set_remove, set_from}

-- Whether `x` lies in `[lo, hi)`, as 1 or 0.
abbrev pub inside : ℕ → ℕ → ℕ → ℕ
inside x lo hi = if leb lo x && ltb x hi then 1 else 0

abbrev pub inside_entry : ℕ → SizeAddr → ℕ
inside_entry x e = inside x e.addr (e.addr + e.size)

-- How many of the ranges hold the address `x`.
abbrev pub covering : ℕ → List SizeAddr → ℕ
covering x [] = 0
covering x (e ∷ es) = inside_entry x e + covering x es

-- Every entry starts on a page and ends in the address space.
abbrev pub IsPaged : List SizeAddr → Type 0
IsPaged [] = Unit
IsPaged (e ∷ es) = ((e.addr % 4096 ≡ 0) × (e.addr + e.size < 2 ^ 64)) × IsPaged es

pub entry_eq-inside :
    (x : ℕ) (a b : SizeAddr) → entry_eq a b ≡ true → inside_entry x a ≡ inside_entry x b
entry_eq-inside x a b h =
    let s : a.size ≡ b.size = ground arith in let d : a.addr ≡ b.addr = ground arith in rw (s, d)

-- The steps of the three operations.
module _ (e y : SizeAddr) (ys : List SizeAddr) where
  set_insert-first : entry_eq e y ≡ false → entry_lt e y ≡ true → set_insert e (y ∷ ys) ≡ e ∷ y ∷ ys
  unfolding set_insert
  set_insert-first h k = rw (h, k)

  set_insert-later :
      entry_eq e y ≡ false → entry_lt e y ≡ false → set_insert e (y ∷ ys) ≡ y ∷ set_insert e ys
  unfolding set_insert
  set_insert-later h k = rw (h, k)

  pub set_remove-first : entry_eq e y ≡ true → set_remove e (y ∷ ys) ≡ ys
  unfolding set_remove
  set_remove-first h = rw h

  pub set_remove-later : entry_eq e y ≡ false → set_remove e (y ∷ ys) ≡ y ∷ set_remove e ys
  unfolding set_remove
  set_remove-later h = rw h

  pub set_from-first : entry_lt y e ≡ false → set_from e (y ∷ ys) ≡ some y
  unfolding set_from
  set_from-first h = rw h

  pub set_from-later : entry_lt y e ≡ true → set_from e (y ∷ ys) ≡ set_from e ys
  unfolding set_from
  set_from-later h = rw h

set_from-nil : (key e : SizeAddr) → set_from key [] ≡ some e → ⊥
unfolding set_from
set_from-nil key e h = cc

some_inj : {a b : SizeAddr} → some a ≡ some b → a ≡ b
some_inj h = cc

entry_eq_refl : (e : SizeAddr) → entry_eq e e ≡ true
entry_eq_refl e = ground arith

covers_itself : (e : SizeAddr) → 0 < e.size → inside_entry e.addr e ≡ 1
covers_itself e h = ground arith

pub covering-set_insert :
    (x : ℕ) (e : SizeAddr) (es : List SizeAddr)
    → 0 < e.size
    → covering e.addr es ≡ 0
    → covering x (set_insert e es) ≡ inside_entry x e + covering x es
covering-set_insert x e [] pos free = unfold set_insert in refl
covering-set_insert x e (y ∷ ys) pos free = elim (Bool-cases (entry_eq e y)) [
  | inl same ↦ absurd (omega (arith, free, entry_eq-inside e.addr e y same, covers_itself e pos))
  | inr other ↦ elim (Bool-cases (entry_lt e y)) [
    | inl lt ↦ rw (set_insert-first e y ys other lt)
    | inr ge ↦
        let rest = covering-set_insert x e ys pos (omega (arith, free)) in
        rw (set_insert-later e y ys other ge, rest) (omega arith)
  ]
]

pub covering-set_remove :
    (x : ℕ) (key e : SizeAddr) (es : List SizeAddr)
    → set_from key es ≡ some e
    → covering x es ≡ inside_entry x e + covering x (set_remove e es)
covering-set_remove x key e [] h = absurd (set_from-nil key e h)
covering-set_remove x key e (y ∷ ys) h = elim (Bool-cases (entry_lt y key)) [
  | inl lt ↦
      let rest = covering-set_remove x key e ys (sym (set_from-later key y ys lt) ∙ h) in
      elim (Bool-cases (entry_eq e y)) [
        | inl same ↦ rw (set_remove-first e y ys same, entry_eq-inside x e y same)
        | inr other ↦ rw (set_remove-later e y ys other, rest) (omega arith)
      ]
  | inr ge ↦
      let found : y ≡ e = some_inj (sym (set_from-first key y ys ge) ∙ h) in
      rw (← found, set_remove-first y y ys (entry_eq_refl y))
]

-- The entry found is of the set and has at least the size of the key.
pub set_from-fits :
    (key e : SizeAddr) (es : List SizeAddr)
    → set_from key es ≡ some e
    → IsPaged es
    → (key.size ≤ e.size) × (e.addr % 4096 ≡ 0) × (e.addr + e.size < 2 ^ 64)
set_from-fits key e [] h p = absurd (set_from-nil key e h)
set_from-fits key e (y ∷ ys) h p = elim (Bool-cases (entry_lt y key)) [
  | inl lt ↦ set_from-fits key e ys (sym (set_from-later key y ys lt) ∙ h) (p.1)
  | inr ge ↦
      let found : y ≡ e = some_inj (sym (set_from-first key y ys ge) ∙ h) in
      rw (← found) (at_least y key ge, p.0.0, p.0.1)
]
  where
    at_least : (y key : SizeAddr) → entry_lt y key ≡ false → key.size ≤ y.size
    at_least y key h = ground arith
