-- ===== src/Malloc/Tests.antt =====
-- The theorems on size classes, addresses, and pages at concrete values.
use mxos_v.Base.{
  ◌≢◌, ◌+◌, ◌-◌, ◌*◌, ◌≤◌, ◌<◌, ◌≡◌, ◌⊎◌, refl, none, some, ℕ, false, [], ◌∷◌, get_or, arith,
}
use mxos_v.Malloc.{
  segment_size, small_page_size, small_size_classes, large_size_classes,
  large_size_class_page_starts, normal, size_class, bit_length, small_page_id, small_page_start,
  from_ptr, block_small_page_id,
}
use mxos_v.Malloc.Bounds.{class_bytes, size_class_smallest}
use mxos_v.Malloc.Pages.{page_addresses}
use mxos_v.Malloc.PageMeta.{PageMeta, Taken, take_lists, take_block, push_local}
use mxos_v.Malloc.PageMeta.Laws.{Takes, take_block-Takes, refill-undefined}
use mxos_v.Malloc.Carve.{carve_small_page, carve_large_page}
use mxos_v.Malloc.Carve.Laws.{Tiles, carve_small_page-Tiles, carve_large_page-Tiles}
use mxos_v.Malloc.Thread.{Threads, Run, alloc_loop}
use mxos_v.Malloc.Thread.Passes.{alloc_loop_passes}
use mxos_v.Malloc.Thread.Returns.{Any, Stuck, Returns}

classes :
    (size_class 64 ≡ 4)
    × (size_class 65 ≡ 5)
    × (size_class 128 ≡ 8)
    × (size_class 129 ≡ 9)
    × (size_class 0x80000 ≡ 56)
unfolding size_class bit_length
classes = (refl, refl, refl, refl, refl)

size_class_smallest_example :
    (size_class 129 < 57)
    × (129 ≤ class_bytes (size_class 129))
    × ((size_class 129 ≡ 0) ⊎ (class_bytes (size_class 129 - 1) < 129))
size_class_smallest_example = size_class_smallest 129 (omega arith)

page_addresses_example :
    (small_page_id 8 64 (3 * segment_size + (8 + 5 * 64)) ≡ 5)
    × (small_page_start 8 64 (3 * segment_size + (8 + 5 * 64)) ≡ 3 * segment_size + 0x60000)
    × (from_ptr (3 * segment_size + (8 + 5 * 64)) ≡ 3 * segment_size)
    × (from_ptr (small_page_start 8 64 (3 * segment_size + (8 + 5 * 64)) + 0x123)
        ≡ 3 * segment_size)
    × (block_small_page_id (small_page_start 8 64 (3 * segment_size + (8 + 5 * 64)) + 0x123) ≡ 5)
page_addresses_example =
    page_addresses 8 64 (omega arith) (omega arith) 3 5 0x123 (omega arith) (omega arith)
      (omega arith)

-- A page with a block on its free list and one on the local list, the page without both, and the page after the first is taken.
abbrev one_left : PageMeta
one_left = record {
  free = 0x9000 ∷ [];
  local_free = 0x9010 ∷ [];
  thread_free = record { state = normal; list = [] };
  used = 2;
  thread_freed = 0;
  is_full = false;
  class = 1;
}

abbrev none_left : PageMeta
none_left = record one_left { free = []; local_free = [] }

abbrev one_taken : PageMeta
one_taken = record one_left { free = []; used = 3 }

one_taken_lem : take_block one_left ≡ some (Taken.block 0x9000 one_taken)
unfolding take_block take_lists
one_taken_lem = refl

take_block-Takes_example : Takes one_left (Taken.block 0x9000 one_taken)
take_block-Takes_example = take_block-Takes one_left (omega arith) one_taken_lem

refill-undefined_example :
    (m₁ m₂ : PageMeta) × (take_block none_left ≡ some (Taken.full m₁))
    × (take_block (push_local 0x9010 m₁) ≡ some (Taken.block 0x9010 m₂))
    × (take_block m₂ ≡ none)
refill-undefined_example = refill-undefined none_left 0x9010 refl refl refl

carve_small_page-Tiles_example :
    (last : ℕ) × (last ≤ small_page_size)
    × (small_page_size < last + get_or small_size_classes 5 0)
    × Tiles
        (get_or small_size_classes 5 0)
        0x410000
        (0x410000 + last)
        (carve_small_page 0x410000 5 [])
carve_small_page-Tiles_example = carve_small_page-Tiles 0x410000 5 (omega arith)

carve_large_page-Tiles_example :
    Tiles
      (get_or large_size_classes 3 0)
      (0x400000 + get_or large_size_class_page_starts 3 0)
      (0x400000 + segment_size)
      (carve_large_page 0x400000 3 [])
carve_large_page-Tiles_example = carve_large_page-Tiles 0x400000 3 (omega arith)

-- A thread that has allocated nothing, with the segment at 0x400000.
abbrev fresh : Threads
fresh = record {
  pages = λ class. [];
  free_small_pages = [];
  full_pages = [];
  delayed_free = [];
  free_segments = 0x400000 ∷ [];
  metas = λ p. none_left;
  segment_used = λ s. 0;
  segment_is_large = λ s. false;
}

-- The same thread with two pages without free blocks on each list, and another segment.
abbrev two_pages : Threads
two_pages = record fresh {
  pages = λ class. 0x400048 ∷ 0x400008 ∷ [];
  free_segments = 0x800000 ∷ [];
}

alloc_loop_passes_example :
    (alloc_loop 8 64 3 5 two_pages ≡ alloc_loop 8 64 100 5 two_pages)
    × (alloc_loop 8 64 3 5 two_pages ≢ Run.out_of_fuel)
    × (Returns (alloc_loop 8 64 3 5 two_pages) ⊎ Any (Stuck two_pages) (two_pages.pages 5))
alloc_loop_passes_example =
    alloc_loop_passes 8 64 5 3 100 two_pages (omega arith) (refl, (refl, tt)) (omega arith)
      (omega arith)
