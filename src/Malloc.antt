-- ===== src/Malloc.antt =====
-- kernel/src/memory/malloc/mod.rs: the size classes and the addresses of segments, pages and blocks.
pub mod Bounds
pub mod Pages
pub mod PageMeta
pub mod Carve
pub mod Thread
pub mod Allocator
mod Tests
use mxos_v.Base.{
  ℕ, zero, suc, ◌+◌, ◌-◌, ◌*◌, ◌/◌, ◌%◌, ◌^◌, List, [], ◌∷◌, ◌++◌, map, ◌==◌, leb, if◌then◌else◌,
  get_or, bit_and, Option, some, none,
}
use mxos_v.Base.Bits.{bit_not}

-- `SEGMENT_SIZE`
abbrev pub segment_size : ℕ
segment_size = 4 * 2 ^ 20

-- `SMALL_SIZE_CLASSES`
abbrev pub small_size_classes : List ℕ
small_size_classes =
    0x8 ∷ 0x10 ∷ 0x20 ∷ 0x30 ∷ 0x40 ∷ 0x50 ∷ 0x60 ∷ 0x70 ∷ 0x80 ∷ 0xA0 ∷ 0xC0 ∷ 0xE0 ∷ 0x100 ∷ 0x140
    ∷ 0x180 ∷ 0x1C0 ∷ 0x200 ∷ 0x280 ∷ 0x300 ∷ 0x380 ∷ 0x400 ∷ 0x500 ∷ 0x600 ∷ 0x700 ∷ 0x800 ∷ 0xA00
    ∷ 0xC00 ∷ 0xE00 ∷ 0x1000 ∷ 0x1400 ∷ 0x1800 ∷ 0x1C00 ∷ 0x2000 ∷ []

-- `LARGE_SIZE_CLASSES`
abbrev pub large_size_classes : List ℕ
large_size_classes =
    0x2800 ∷ 0x3000 ∷ 0x3800 ∷ 0x4000 ∷ 0x5000 ∷ 0x6000 ∷ 0x7000 ∷ 0x8000 ∷ 0xA000 ∷ 0xC000 ∷ 0xE000
    ∷ 0x10000 ∷ 0x14000 ∷ 0x18000 ∷ 0x1C000 ∷ 0x20000 ∷ 0x28000 ∷ 0x30000 ∷ 0x38000 ∷ 0x40000
    ∷ 0x50000 ∷ 0x60000 ∷ 0x70000 ∷ 0x80000 ∷ []

-- One entry of `LARGE_SIZE_CLASS_PAGE_STARTS`: where the first block of a large page starts.
abbrev pub page_start : ℕ → ℕ
page_start size = if segment_size % size == 0 then size else segment_size % size

-- `LARGE_SIZE_CLASS_PAGE_STARTS`
abbrev pub large_size_class_page_starts : List ℕ
large_size_class_page_starts = map page_start large_size_classes

-- `usize::BITS - size.leading_zeros()`, with the number of bits that are left.
unfoldable pub bit_length : ℕ → ℕ → ℕ
bit_length zero x = 0
bit_length (suc n) x = if x == 0 then 0 else suc (bit_length n (x / 2))

unfoldable pub size_class : ℕ → ℕ
size_class size =
    if leb size 64
    then get_or (0 ∷ 0 ∷ 1 ∷ 2 ∷ 2 ∷ 3 ∷ 3 ∷ 4 ∷ 4 ∷ []) ((size + 7) / 2 ^ 3) 0
    else let bits = bit_length 64 size in 4 * bits + (size - 1) / 2 ^ (bits - 3) - 27

-- `SMALL_PAGE_SIZE`
abbrev pub small_page_size : ℕ
small_page_size = 64 * 2 ^ 10

-- `Segment::from_ptr`
unfoldable pub from_ptr : ℕ → ℕ
from_ptr ptr = bit_and ptr (bit_not 64 (segment_size - 1))

-- `mem::offset_of!(Segment, page)` and `mem::size_of::<PageMeta>()` are the compiler's.
module _ (offset_of_page size_of_meta : ℕ) where
  unfoldable pub small_page_id : ℕ → ℕ
  small_page_id page = (bit_and page (segment_size - 1) - offset_of_page) / size_of_meta

  unfoldable pub small_page_start : ℕ → ℕ
  small_page_start page =
      bit_and page (bit_not 64 (segment_size - 1)) + small_page_size * (1 + small_page_id page)

unfoldable pub block_small_page_id : ℕ → ℕ
block_small_page_id block = bit_and block (segment_size - 1) / small_page_size - 1

-- `ThreadFreeState`
pub data ThreadFreeState : Type 0 where
  normal : ThreadFreeState
  delaying : ThreadFreeState
  delayed : ThreadFreeState

-- `state as usize`
abbrev pub state_code : ThreadFreeState → ℕ
state_code normal = 0
state_code delaying = 1
state_code delayed = 3

-- The state and the pointer of `split_thread_free`; `none` is `unreachable_unchecked`.
unfoldable pub split_thread_free : ℕ → Option (ThreadFreeState × ℕ)
split_thread_free word =
    let list = bit_and word (bit_not 64 7) in
    let tag = bit_and word 3 in
    if tag == 0
    then some (normal, list)
    else if tag == 3
    then some (delayed, list)
    else if tag == 1
    then some (delaying, list)
    else none
