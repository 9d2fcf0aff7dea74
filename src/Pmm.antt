-- ===== src/Pmm.antt =====
-- kernel/src/memory/pmm.rs: the buddy allocator of physical frames. `none` is a panic.
-- The free lists are threaded through the free frames, so the memory of their `next` words is part
-- of the state.
pub mod Slices
pub mod FreeList
pub mod RoundTrip
pub mod Refill
pub mod Merge
pub mod Blocks
pub mod Region
pub mod Bounds
mod Tests
use mxos_v.Base.{
  ℕ, zero, suc, ◌+◌, ◌-◌, ◌*◌, ◌/◌, ◌%◌, ◌^◌, ◌<◌, ◌≡◌, Bool, true, false, ◌&&◌, Option, none, some,
  List, [], ◌∷◌, ◌>>=◌, ◌>>◌, assert, leb, ltb, ◌==◌, if◌then◌else◌, length,
}
use mxos_v.Bitmap

-- The direct map, of the `x86_64` crate's addresses: `phys_offset + addr` and `addr - phys_offset`.
pub record DirectMap : Type 0 where
  pub to_virt : ℕ → ℕ
  pub to_phys : ℕ → ℕ
  pub back : (a : ℕ) → to_phys (to_virt a) ≡ a
  pub not_null : (a : ℕ) → 0 < to_virt a

-- The `next` word at each virtual address.
abbrev pub Memory : Type 0
Memory = ℕ → Option ℕ

abbrev pub store : Memory → ℕ → Option ℕ → Memory
store mem a v p = if p == a then v else mem p

pub record Buddy : Type 0 where
  pub free_list : Option ℕ
  pub map : List ℕ

abbrev pub toggle_chunk_pair : Buddy → ℕ → Option Buddy
toggle_chunk_pair b pair = Bitmap.toggle b.map pair >>= λ m. some (record b { map = m })

abbrev pub is_chunk_pair_different : Buddy → ℕ → Option Bool
is_chunk_pair_different b pair = Bitmap.get b.map pair

-- A null address is not pushed.
unfoldable pub push_free_list : Buddy → ℕ → Memory → Buddy × Memory
push_free_list b addr mem =
    if addr == 0 then (b, mem) else (record b { free_list = some addr }, store mem addr b.free_list)

unfoldable pub pop_free_list : Buddy → Memory → Option (ℕ × Buddy)
pop_free_list b mem = elim b.free_list [
  | none ↦ none
  | some p ↦ some (p, record b { free_list = mem p })
]

-- `ORDERS`
abbrev pub min_order : ℕ
min_order = 12

abbrev pub end_order : ℕ
end_order = 22

pub record BuddyAllocator : Type 0 where
  pub buddies : List Buddy
  pub mem : Memory

-- The words of the bitmap of one order.
unfoldable pub order_map_size : ℕ → ℕ → ℕ
order_map_size memory_size order = (memory_size / 2 ^ (order + 1) + 64 - 1) / 64

-- The loop from `order` on, with the number of rounds left.
unfoldable pub map_len_loop : ℕ → ℕ → ℕ → ℕ → ℕ
map_len_loop memory_size zero order sum = sum
map_len_loop memory_size (suc rounds) order sum =
    map_len_loop memory_size rounds (order + 1) (sum + order_map_size memory_size order)

unfoldable pub buddy_map_len : ℕ → ℕ
buddy_map_len memory_size = map_len_loop memory_size (end_order - min_order) min_order 0

-- `split_at_mut`
unfoldable pub split_at {ℓ} : {A : Type ℓ} → ℕ → List A → Option (List A × List A)
split_at zero xs = some ([], xs)
split_at (suc n) [] = none
split_at (suc n) (x ∷ xs) = split_at n xs >>= λ r. some (x ∷ r.0, r.1)

-- `slice.fill(0)`
unfoldable pub fill_zero : List ℕ → List ℕ
fill_zero [] = []
fill_zero (x ∷ xs) = 0 ∷ fill_zero xs

-- The loop that hands each order its part of `buddy_map`.
unfoldable pub split_maps : ℕ → ℕ → ℕ → List ℕ → Option (List Buddy)
split_maps memory_size zero order words = some []
split_maps memory_size (suc rounds) order words = do
  (m, rest) ← split_at (order_map_size memory_size order) words
  bs ← split_maps memory_size rounds (order + 1) rest
  some (record { free_list = none; map = m } ∷ bs)

unfoldable pub new : ℕ → List ℕ → Memory → Option BuddyAllocator
new memory_size buddy_map mem = do
  assert (leb (buddy_map_len memory_size) (length buddy_map))
  bs ← split_maps memory_size (end_order - min_order) min_order (fill_zero buddy_map)
  some (record { buddies = bs; mem = mem })

-- `self.buddies[order..]`, worked on and put back; a start past the end panics.
unfoldable pub with_slice {ℓ} :
    {R : Type ℓ} → ℕ → (List Buddy → Option (List Buddy × R)) → List Buddy → Option (List Buddy × R)
with_slice zero f bs = f bs
with_slice (suc n) f [] = none
with_slice (suc n) f (b ∷ bs) = with_slice n f bs >>= λ r. some (b ∷ r.0, r.1)

-- `self.buddies.last_mut().unwrap().push_free_list(..)`
unfoldable pub push_last : List Buddy → ℕ → Memory → Option (List Buddy × Memory)
push_last [] addr mem = none
push_last (b ∷ []) addr mem = let (b', mem') = push_free_list b addr mem in some (b' ∷ [], mem')
push_last (b ∷ c ∷ bs) addr mem = push_last (c ∷ bs) addr mem >>= λ r. some (b ∷ r.0, r.1)

-- The loop of `free`; the flag says that it returned. `addr` is the virtual address to push.
unfoldable pub free_loop : List Buddy → ℕ → ℕ → Memory → Option (List Buddy × (Memory × Bool))
free_loop [] pair addr mem = some ([], (mem, false))
free_loop (b ∷ bs) pair addr mem = do
  b' ← toggle_chunk_pair b (pair / 2)
  different ← is_chunk_pair_different b' (pair / 2)
  elim different [
    | true ↦ let (b'', mem') = push_free_list b' addr mem in some (b'' ∷ bs, (mem', true))
    | false ↦ free_loop bs (pair / 2) addr mem >>= λ r. some (b' ∷ r.0, r.1)
  ]

-- The first buddy with a free block: the block, how many buddies stand before it, the rest.
unfoldable pub pop_first : Memory → List Buddy → Option (ℕ × ℕ × List Buddy)
pop_first mem [] = none
pop_first mem (b ∷ bs) = elim (pop_free_list b mem) [
  | some (addr, b') ↦ some (addr, 0, b' ∷ bs)
  | none ↦ pop_first mem bs >>= λ r. some (r.0, suc r.1, b ∷ r.2)
]

-- The inner loop of `alloc`: the first buddies of the slice, from `order` on.
unfoldable pub toggle_orders : ℕ → ℕ → ℕ → List Buddy → Option (List Buddy)
toggle_orders zero order addr bs = some bs
toggle_orders (suc rounds) order addr [] = none
toggle_orders (suc rounds) order addr (b ∷ bs) = do
  b' ← toggle_chunk_pair b (addr / 2 ^ (order + 1))
  bs' ← toggle_orders rounds (order + 1) addr bs
  some (b' ∷ bs')

module _ (d : DirectMap) where
  unfoldable pub free : ℕ → ℕ → BuddyAllocator → Option BuddyAllocator
  free order addr s = do
    assert (addr % 2 ^ order == 0)
    assert (leb min_order order)
    (bs, r) ←
        with_slice (order - min_order)
          (λ slice. free_loop slice (addr / 2 ^ order) (d.to_virt addr) s.mem) s.buddies
    elim r.1 [
      | true ↦ some (record { buddies = bs; mem = r.0 })
      | false ↦
          push_last bs (d.to_virt addr) r.0 >>= λ q. some (record { buddies = q.0; mem = q.1 })
    ]

  -- The body of `alloc` on the slice: the block that it returns, and the slice.
  unfoldable pub alloc_slice : ℕ → Memory → List Buddy → Option (List Buddy × Option ℕ)
  alloc_slice order mem slice = elim (pop_first mem slice) [
    | none ↦ some (slice, none)
    | some (virt, skipped, rest) ↦ toggle_orders (suc skipped) order (d.to_phys virt) rest >>= λ bs.
        some (bs, some (d.to_phys virt))
  ]

  unfoldable pub alloc : ℕ → BuddyAllocator → Option (Option ℕ × BuddyAllocator)
  alloc order s = do
    assert (leb min_order order && ltb order end_order)
    (bs, r) ← with_slice (order - min_order) (alloc_slice order s.mem) s.buddies
    some (r, record s { buddies = bs })

  -- `if odd { self.free(..) }` on one bound of the region.
  unfoldable pub free_if : Bool → ℕ → ℕ → BuddyAllocator → Option BuddyAllocator
  free_if true order addr s = free order addr s
  free_if false order addr s = some s

  -- The loop of `free_region` over the orders, with the rounds left: the bounds that it ends with.
  unfoldable pub region_loop : ℕ → ℕ → ℕ → ℕ → BuddyAllocator → Option (ℕ × ℕ × BuddyAllocator)
  region_loop zero order start end s = some (start, end, s)
  region_loop (suc rounds) order start end s =
      let lo = start / 2 in
      let hi = end / 2 in
      elim (leb hi lo) [
        | true ↦ some (lo, hi, s)
        | false ↦ do
          s ← free_if (lo % 2 == 1) order (lo * 2 ^ order) s
          let lo' = if lo % 2 == 1 then lo + 1 else lo
          let hi' = if hi % 2 == 1 then hi - 1 else hi
          s ← free_if (hi % 2 == 1) order (hi' * 2 ^ order) s
          region_loop rounds (order + 1) lo' hi' s
      ]

  -- `for i in start..end` at the top order, with the rounds left.
  unfoldable pub free_top : ℕ → ℕ → BuddyAllocator → Option BuddyAllocator
  free_top zero i s = some s
  free_top (suc rounds) i s =
      free (end_order - 1) (i * 2 ^ (end_order - 1)) s >>= λ s'. free_top rounds (i + 1) s'

  unfoldable pub free_region : ℕ → ℕ → BuddyAllocator → Option BuddyAllocator
  free_region start end s = do
    assert (start % 2 ^ min_order == 0)
    assert (end % 2 ^ min_order == 0)
    (lo, hi, s') ←
        region_loop (end_order - min_order) min_order (start / 2 ^ (min_order - 1))
          (end / 2 ^ (min_order - 1)) s
    free_top (hi - lo) lo s'
