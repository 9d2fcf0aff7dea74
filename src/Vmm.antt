-- ===== src/Vmm.antt =====
-- kernel/src/memory/vmm.rs: the best-fit allocator of address ranges. The two B-trees are lists in
-- their order; `none` is a panic. Sums wrap at 64 bits.
pub mod Align
pub mod Sets
pub mod Keep
pub mod Space
pub mod Free
pub mod Pages
pub mod Manager
mod Tests
use mxos_v.Base.{
  ℕ, ◌+◌, ◌-◌, ◌^◌, ◌%◌, max, Bool, true, false, not, ◌&&◌, ◌||◌, Option, none, some, ◌>>=◌, List,
  [], ◌∷◌, ◌==◌, ltb, leb, if◌then◌else◌, bit_and,
}
use mxos_v.Base.Bits.{bit_not}

-- `PAGE_SIZE`
abbrev pub page_size : ℕ
page_size = 4096

pub record SizeAddr : Type 0 where
  pub size : ℕ
  pub addr : ℕ

-- The derived order: by size, then by address.
abbrev pub entry_lt : SizeAddr → SizeAddr → Bool
entry_lt a b = ltb a.size b.size || (a.size == b.size && ltb a.addr b.addr)

abbrev pub entry_eq : SizeAddr → SizeAddr → Bool
entry_eq a b = a.size == b.size && a.addr == b.addr

-- `BTreeSet::insert`, `remove` and `range(key..).next()`.
unfoldable pub set_insert : SizeAddr → List SizeAddr → List SizeAddr
set_insert e [] = e ∷ []
set_insert e (x ∷ xs) =
    if entry_eq e x then x ∷ xs else if entry_lt e x then e ∷ x ∷ xs else x ∷ set_insert e xs

unfoldable pub set_remove : SizeAddr → List SizeAddr → List SizeAddr
set_remove e [] = []
set_remove e (x ∷ xs) = if entry_eq e x then xs else x ∷ set_remove e xs

unfoldable pub set_from : SizeAddr → List SizeAddr → Option SizeAddr
set_from key [] = none
set_from key (x ∷ xs) = if entry_lt x key then set_from key xs else some x

-- `BTreeMap::insert`, `remove` and `*get_mut(..).unwrap() = ..`.
unfoldable pub map_insert : ℕ → ℕ → List (ℕ × ℕ) → List (ℕ × ℕ)
map_insert k v [] = (k, v) ∷ []
map_insert k v ((k', v') ∷ m) =
    if k == k'
    then (k, v) ∷ m
    else if ltb k k'
    then (k, v) ∷ (k', v') ∷ m
    else (k', v') ∷ map_insert k v m

unfoldable pub map_remove : ℕ → List (ℕ × ℕ) → List (ℕ × ℕ)
map_remove k [] = []
map_remove k ((k', v') ∷ m) = if k == k' then m else (k', v') ∷ map_remove k m

unfoldable pub map_set : ℕ → ℕ → List (ℕ × ℕ) → Option (List (ℕ × ℕ))
map_set k v [] = none
map_set k v ((k', v') ∷ m) =
    if k == k' then some ((k', v) ∷ m) else (map_set k v m >>= λ m'. some ((k', v') ∷ m'))

pub record TreeBestFitAlloc : Type 0 where
  pub addr_size_tree : List (ℕ × ℕ)
  pub size_addr_tree : List SizeAddr

-- `x + align - 1 & !(align - 1)`
abbrev pub round_up : ℕ → ℕ → ℕ
round_up align x = bit_and ((x + align - 1) % 2 ^ 64) (bit_not 64 (align - 1))

abbrev pub align_of : ℕ → ℕ
align_of align_order = max (2 ^ align_order) page_size

-- The size that an entry must have for a rounded size.
abbrev pub free_size : ℕ → ℕ → ℕ
free_size size align = (max size align + align - page_size) % 2 ^ 64

-- `addr_size_tree` and `size_addr_tree` after the part of the entry before the range is kept.
unfoldable pub keep_before : SizeAddr → SizeAddr → TreeBestFitAlloc → Option TreeBestFitAlloc
keep_before entry before t = elim (ltb 0 before.size) [
  | true ↦ map_set entry.addr before.size t.addr_size_tree >>= λ m.
      some (record { addr_size_tree = m; size_addr_tree = set_insert before t.size_addr_tree })
  | false ↦ some (record t { addr_size_tree = map_remove entry.addr t.addr_size_tree })
]

unfoldable pub keep_after : SizeAddr → TreeBestFitAlloc → TreeBestFitAlloc
keep_after after t = elim (ltb 0 after.size) [
  | true ↦ record {
    addr_size_tree = map_insert after.addr after.size t.addr_size_tree;
    size_addr_tree = set_insert after t.size_addr_tree;
  }
  | false ↦ t
]

-- A difference of words, which wraps.
abbrev pub sub64 : ℕ → ℕ → ℕ
sub64 a b = (a + 2 ^ 64 - b) % 2 ^ 64

-- The body of `alloc` once the entry is found.
unfoldable pub carve :
    ℕ → ℕ → SizeAddr → TreeBestFitAlloc → Option (Option SizeAddr × TreeBestFitAlloc)
carve size align entry t =
    let addr = round_up align entry.addr in
    let before : SizeAddr = record { size = sub64 addr entry.addr; addr = entry.addr } in
    let after : SizeAddr = record {
      size = sub64 (sub64 entry.size before.size) size;
      addr = (addr + size) % 2 ^ 64;
    } in
    keep_before entry before (record t { size_addr_tree = set_remove entry t.size_addr_tree })
    >>= λ t'. some (some (record { size = size; addr = addr }), keep_after after t')

unfoldable pub alloc : ℕ → ℕ → TreeBestFitAlloc → Option (Option SizeAddr × TreeBestFitAlloc)
alloc size align_order t =
    let size = round_up page_size size in
    let align = align_of align_order in
    elim (set_from (record { size = free_size size align; addr = 0 }) t.size_addr_tree) [
      | none ↦ some (none, t)
      | some entry ↦ carve size align entry t
    ]

-- `BTreeMap::range(..k).next_back()`, and a look-up.
unfoldable pub map_before : ℕ → List (ℕ × ℕ) → Option (ℕ × ℕ)
map_before k [] = none
map_before k ((k', v') ∷ m) =
    let rest = map_before k m in
    if ltb k' k then elim rest [ none ↦ some (k', v') | some e ↦ some e ] else none

unfoldable pub map_get : ℕ → List (ℕ × ℕ) → Option ℕ
map_get k [] = none
map_get k ((k', v') ∷ m) = if k == k' then some v' else map_get k m

-- A range that `free` is about to add, and the trees without the ranges that it has joined.
pub record Freed : Type 0 where
  pub range : SizeAddr
  pub trees : TreeBestFitAlloc

abbrev pub take_out : SizeAddr → TreeBestFitAlloc → TreeBestFitAlloc
take_out e t = record {
  addr_size_tree = map_remove e.addr t.addr_size_tree;
  size_addr_tree = set_remove e t.size_addr_tree;
}

-- The range before, where it reaches the one that is freed.
unfoldable pub join_before : Freed → Freed
join_before f = elim (map_before f.range.addr f.trees.addr_size_tree) [
  | none ↦ f
  | some prev ↦ elim (leb f.range.addr ((prev.0 + prev.1) % 2 ^ 64)) [
    | true ↦ record {
      range = record {
        size = max (prev.1) ((f.range.addr - prev.0 + f.range.size) % 2 ^ 64);
        addr = prev.0;
      };
      trees = take_out (record { size = prev.1; addr = prev.0 }) f.trees;
    }
    | false ↦ f
  ]
]

-- The range that starts at the end of the one that is freed, if the end is an address.
unfoldable pub join_after : Freed → Freed
join_after f =
    let next_addr = f.range.addr + f.range.size in
    elim (ltb next_addr (2 ^ 64)) [
      | false ↦ f
      | true ↦ elim (map_get next_addr f.trees.addr_size_tree) [
        | none ↦ f
        | some next_size ↦ record {
          range = record { size = (f.range.size + next_size) % 2 ^ 64; addr = f.range.addr };
          trees = take_out (record { size = next_size; addr = next_addr }) f.trees;
        }
      ]
    ]

unfoldable pub add_range : Freed → TreeBestFitAlloc
add_range f = record {
  addr_size_tree = map_insert f.range.addr f.range.size f.trees.addr_size_tree;
  size_addr_tree = set_insert f.range f.trees.size_addr_tree;
}

unfoldable pub free : ℕ → ℕ → TreeBestFitAlloc → TreeBestFitAlloc
free addr size t =
    let range : SizeAddr = record {
      size = round_up page_size size;
      addr = bit_and addr (bit_not 64 (page_size - 1));
    } in
    add_range (join_after (join_before (record { range = range; trees = t })))
