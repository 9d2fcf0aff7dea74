-- ===== src/Vmm/Keep.antt =====
-- The parts of an entry that stay in the trees: `keep_before` and `keep_after`.
use mxos_v.Base.{
  ℕ, ◌+◌, ◌≡◌, refl, true, false, ◌⊎◌, some, List, [], ◌∷◌, ◌==◌, ltb, ltb→lt, ltb→ge, Bool-cases,
  inl, inr, arith,
}
use mxos_v.Vmm.{
  SizeAddr, TreeBestFitAlloc, set_insert, map_set, map_remove, keep_before, keep_after,
}
use mxos_v.Vmm.Sets.{inside_entry, covering, covering-set_insert}

-- The address is a key of the map.
abbrev pub HasKey : ℕ → List (ℕ × ℕ) → Type 0
HasKey k [] = ⊥
HasKey k ((k', v') ∷ m) = (k ≡ k') ⊎ HasKey k m

map_set-HasKey :
    (k v : ℕ) (m : List (ℕ × ℕ)) → HasKey k m → (m' : List (ℕ × ℕ)) × (map_set k v m ≡ some m')
unfolding map_set
map_set-HasKey k v [] h = absurd h
map_set-HasKey k v ((k', v') ∷ m) h = elim (Bool-cases (k == k')) [
  | inl e ↦ ((k', v) ∷ m, rw e)
  | inr e ↦ elim h [
    | inl same ↦ absurd (ground (arith, e, same))
    | inr later ↦ let (m', runs) = map_set-HasKey k v m later in ((k', v') ∷ m', rw (e, runs))
  ]
]

none_inside : (x : ℕ) (e : SizeAddr) → ltb 0 e.size ≡ false → inside_entry x e ≡ 0
none_inside x e h = ground (arith, ltb→ge 0 e.size h)

pub keep_before-space :
    (entry before : SizeAddr) (t : TreeBestFitAlloc)
    → HasKey entry.addr t.addr_size_tree
    → covering before.addr t.size_addr_tree ≡ 0
    → (t' : TreeBestFitAlloc) × (keep_before entry before t ≡ some t')
      × ((x : ℕ)
          → covering x t'.size_addr_tree ≡ inside_entry x before + covering x t.size_addr_tree)
unfolding keep_before
keep_before-space entry before t key fresh = elim (Bool-cases (ltb 0 before.size)) [
  | inl some_left ↦
      let (m, runs) = map_set-HasKey entry.addr before.size t.addr_size_tree key in
      (
        record { addr_size_tree = m; size_addr_tree = set_insert before t.size_addr_tree },
        rw (keep_before, some_left, runs) refl,
        λ x. covering-set_insert x before t.size_addr_tree (ltb→lt 0 before.size some_left) fresh,
      )
  | inr none_left ↦ (
    record t { addr_size_tree = map_remove entry.addr t.addr_size_tree },
    rw (keep_before, none_left) refl,
    λ x. omega (arith, none_inside x before none_left),
  )
]

pub keep_after-space :
    (after : SizeAddr) (t : TreeBestFitAlloc)
    → (ltb 0 after.size ≡ true → covering after.addr t.size_addr_tree ≡ 0)
    → (x : ℕ)
    → covering x (keep_after after t).size_addr_tree
      ≡ inside_entry x after + covering x t.size_addr_tree
unfolding keep_after
keep_after-space after t fresh x = elim (Bool-cases (ltb 0 after.size)) [
  | inl some_left ↦
      rw (keep_after, some_left)
        (covering-set_insert x after t.size_addr_tree (ltb→lt 0 after.size some_left)
          (fresh some_left))
  | inr none_left ↦ rw (keep_after, none_left) (omega (arith, none_inside x after none_left))
]
