-- ===== src/Vmm/Tests.antt =====
-- `alloc` at a concrete set of ranges.
use mxos_v.Base.{ℕ, ◌+◌, ◌%◌, ◌≤◌, ◌≡◌, refl, [], ◌∷◌, inl, inr, arith}
use mxos_v.Vmm.{SizeAddr, TreeBestFitAlloc, set_from, alloc, free}
use mxos_v.Vmm.Sets.{covering, inside_entry}
use mxos_v.Vmm.Free.{IsListed, pages_of, free-space}
use mxos_v.Vmm.Space.{Allocated, alloc-Allocated}

abbrev range : ℕ → ℕ → SizeAddr
range size addr = record { size = size; addr = addr }

-- Two free ranges, of 2 and of 16 pages.
abbrev two_ranges : TreeBestFitAlloc
two_ranges = record {
  addr_size_tree = (0x1000, 0x2000) ∷ (0x5000, 0x10000) ∷ [];
  size_addr_tree = range 0x2000 0x1000 ∷ range 0x10000 0x5000 ∷ [];
}

two_ranges_once : (x : ℕ) → covering x two_ranges.size_addr_tree ≤ 1
two_ranges_once x = ground arith

alloc-Allocated_example :
    Allocated 0x2000 0x4000 (alloc 0x1001 14 two_ranges) two_ranges
    × (0x1001 ≤ 0x2000)
    × (0x2000 % 4096 ≡ 0)
alloc-Allocated_example =
    alloc-Allocated 0x1001 14 (range 0x10000 0x5000) two_ranges (omega arith) (omega arith)
      (omega arith) (unfold set_from in refl) ((refl, omega arith), ((refl, omega arith), tt))
      two_ranges_once (inr (inl refl))

-- Releasing the pages between the two ranges joins all three.
two_ranges-IsListed : IsListed two_ranges
two_ranges-IsListed k v (inl (e, e')) = (inl (ground arith), omega arith)
two_ranges-IsListed k v (inr (inl (e, e'))) = (inr (inl (ground arith)), omega arith)
two_ranges-IsListed k v (inr (inr e)) = elim e [ ]

free-space_example :
    covering 0x4FFF (free 0x3000 0x1001 two_ranges).size_addr_tree
    ≡ inside_entry 0x4FFF (pages_of 0x3000 0x1001) + covering 0x4FFF two_ranges.size_addr_tree
free-space_example =
    free-space 0x3000 0x1001 two_ranges two_ranges-IsListed (omega arith) (omega arith)
      (λ x. ground arith) 0x4FFF
