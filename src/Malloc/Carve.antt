-- ===== src/Malloc/Carve.antt =====
-- The loops of `alloc_small_page` and `alloc_large_page` that cut a page into blocks.
pub mod Laws
use mxos_v.Base.{
  ℕ, zero, suc, ◌+◌, ◌-◌, Bool, true, false, List, [], ◌∷◌, get_or, length, ltb, if◌then◌else◌,
}
use mxos_v.Malloc.{
  segment_size, small_page_size, small_size_classes, large_size_classes,
  large_size_class_page_starts,
}

-- A loop over the offsets from `offset` on, below `end`, with at most `fuel` passes: each block goes
-- on the front of the free list.
unfoldable pub carve_blocks : ℕ → ℕ → ℕ → ℕ → ℕ → List ℕ → List ℕ
carve_blocks zero base offset end size free = free
carve_blocks (suc fuel) base offset end size free = elim (ltb offset end) [
  | true ↦ carve_blocks fuel base (offset + size) end size ((base + offset) ∷ free)
  | false ↦ free
]

-- `0..=SMALL_PAGE_SIZE - size`
unfoldable pub carve_small_page : ℕ → ℕ → List ℕ → List ℕ
carve_small_page page_start class free =
    let size = get_or small_size_classes class 0 in
    carve_blocks small_page_size page_start 0 (small_page_size - size + 1) size free

unfoldable pub carve_large_page : ℕ → ℕ → List ℕ → List ℕ
carve_large_page segment large_class free =
    carve_blocks segment_size segment (get_or large_size_class_page_starts large_class 0)
      segment_size (get_or large_size_classes large_class 0) free
