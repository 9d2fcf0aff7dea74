-- ===== src/Pmm/Tests.antt =====
-- Runs of the buddy allocator, and its theorems at concrete states.
use mxos_v.Base.{ℕ, ◌+◌, ◌-◌, ◌≡◌, refl, some, none, List, [], ◌∷◌, arith, length, replicate}
use mxos_v.Bitmap
use mxos_v.Pmm.{
  DirectMap, Memory, Buddy, BuddyAllocator, pop_free_list, order_map_size, buddy_map_len,
  map_len_loop, new, pop_first, free, alloc, free_region, min_order,
}
use mxos_v.Pmm.FreeList.{}
use mxos_v.Pmm.RoundTrip.{FirstFree, free-alloc}
use mxos_v.Pmm.Refill.{free-FirstFree}
use mxos_v.Pmm.Merge.{MergedWrong, merge_misaligned}
use mxos_v.Pmm.Blocks.{Block, covering, inside, IsAligned}
use mxos_v.Pmm.Region.{free_all, free_region-blocks}
use mxos_v.Pmm.Bounds.{IsFresh, new-IsFresh, free-last_block_panics}

abbrev offset : ℕ
offset = 0xFFFF800000000000

abbrev direct : DirectMap
direct = record {
  to_virt = λ a. a + offset;
  to_phys = λ v. v - offset;
  back = λ a. omega arith;
  not_null = λ a. omega arith;
}

abbrev no_links : Memory
no_links = λ p. none

-- An order without a free block.
abbrev idle : ℕ → Buddy
idle word = record { free_list = none; map = word ∷ [] }

abbrev upper : List Buddy
upper = replicate 8 (idle 0)

-- All memory is in use, but for the buddy of the first frame.
abbrev one_half : BuddyAllocator
one_half = record { buddies = idle 1 ∷ idle 0 ∷ upper; mem = no_links }

-- The first pair of frames is free.
abbrev one_pair : BuddyAllocator
one_pair = record {
  buddies = idle 0 ∷ record { free_list = some offset; map = 1 ∷ [] } ∷ upper;
  mem = no_links;
}

abbrev all_used : BuddyAllocator
all_used = record { buddies = idle 0 ∷ idle 0 ∷ upper; mem = no_links }

free-FirstFree_example :
    (s' : BuddyAllocator) × (free direct 12 0 one_half ≡ some s') × FirstFree direct 12 0 1 s'
free-FirstFree_example =
    free-FirstFree direct 12 0 1 one_half (omega arith) (omega arith) (omega arith) refl
      (unfold Bitmap.get Bitmap.split_bit in (refl, refl)) (refl, tt)

one_pair-FirstFree : FirstFree direct 12 0 1 one_pair
unfolding pop_first pop_free_list Bitmap.get Bitmap.split_bit
one_pair-FirstFree = record {
  popped = idle 0 ∷ idle 1 ∷ upper;
  first = refl;
  marked = (refl, refl);
  aligned = refl;
  from = omega arith;
  to = omega arith;
  present = omega arith;
}

free-alloc_example :
    (s' : BuddyAllocator) × (alloc direct 12 one_pair ≡ some (some 0, s'))
    × (free direct 12 0 s' ≡ some one_pair)
free-alloc_example = free-alloc direct 12 0 1 one_pair one_pair-FirstFree

merge_misaligned_example : MergedWrong direct 12 0x6000 all_used
merge_misaligned_example =
    merge_misaligned direct 12 3 all_used (idle 0) (idle 0) upper (omega arith) (omega arith)
      (omega arith) refl (unfold Bitmap.get Bitmap.split_bit in refl)
      (unfold Bitmap.get Bitmap.split_bit in refl)

free_region-blocks_example :
    (blocks : List Block) × (free_region direct 0x3000 0x9000 all_used
      ≡ free_all direct blocks all_used)
    × ((x : ℕ) → covering x blocks ≡ inside x 0x3000 0x9000)
    × IsAligned blocks
free_region-blocks_example = free_region-blocks direct 0x3000 0x9000 all_used refl refl

new-IsFresh_example :
    (s : BuddyAllocator) × (new 0x400000 (replicate 32 7) no_links ≡ some s)
    × IsFresh 0x400000 min_order s.buddies
    × (length s.buddies ≡ 10)
    × (s.mem ≡ no_links)
unfolding buddy_map_len map_len_loop order_map_size
new-IsFresh_example = new-IsFresh 0x400000 (replicate 32 7) no_links (omega arith)

-- 64 pairs of frames and one more frame.
free-last_block_panics_example : free direct 12 0x80000 all_used ≡ none
free-last_block_panics_example =
    free-last_block_panics direct 12 1 4096 all_used (idle 0) (idle 0 ∷ upper) (omega arith)
      (omega arith) refl (unfold order_map_size in refl)
