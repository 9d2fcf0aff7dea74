-- ===== src/Vmm/Manager.antt =====
-- `VirtualMemoryManager`: the mapping, allocation and release of ranges of pages. The page table and
-- the frame allocator are a memory that the operations of `Mapper` change. The flags of a page are
-- those of every page and, for the user, `USER_ACCESSIBLE`.
pub mod Translate
pub mod Release
mod Tests
use mxos_v.Base.{
  ℕ, suc, ◌+◌, ◌-◌, ◌*◌, ◌%◌, ◌^◌, bit_and, Bool, true, false, not, ◌&&◌, Option, none, some, ◌>>=◌,
  ◌>>◌, assert, ◌==◌, leb, ltb, if◌then◌else◌,
}
use mxos_v.Vmm.{SizeAddr, TreeBestFitAlloc, page_size}
use mxos_v.Vmm as Ranges
use mxos_v.Vmm.Pages.{Page, Flow, Walk, page_bytes, page_loops, is_canonical}

-- `Mapper::map_to` at an address, of a frame, for the user or not; `Mapper::unmap`; and
-- `FrameAllocator::allocate_frame`. `none` is an error, or no frame.
pub record Mapper (M : Type 0) : Type 0 where
  pub map_to : Page → ℕ → ℕ → Bool → M → Option M
  pub unmap : Page → ℕ → M → Option M
  pub allocate_frame : Page → M → Option (ℕ × M)

pub record VirtualMemoryManager (M : Type 0) : Type 0 where
  pub memory : M
  pub kernel_alloc : TreeBestFitAlloc
  pub user_alloc : TreeBestFitAlloc
  pub kernel_start : ℕ

-- The end of a walk: what the code returns with the memory. `none` is a panic, or a loop out of fuel.
abbrev pub finish : {S R : Type 0} → (S → R) → (S → R) → Flow (Walk S) → Option R
finish done early (Flow.go w) = some (done w.state)
finish done early (Flow.stop w) = some (early w.state)
finish done early Flow.panic = none
finish done early Flow.out_of_fuel = none

-- The end of a walk of `free`, which returns nothing early.
abbrev pub finish_free : {S R : Type 0} → (S → R) → Flow (Walk S) → Flow R
finish_free done (Flow.go w) = Flow.go (done w.state)
finish_free done (Flow.stop w) = Flow.go (done w.state)
finish_free done Flow.panic = Flow.panic
finish_free done Flow.out_of_fuel = Flow.out_of_fuel

-- One call of `free` after another.
abbrev pub and_free : {R : Type 0} → Flow R → (R → Flow R) → Flow R
and_free (Flow.go r) f = f r
and_free (Flow.stop r) f = f r
and_free Flow.panic f = Flow.panic
and_free Flow.out_of_fuel f = Flow.out_of_fuel

-- `unwrap()` of a change of the memory.
abbrev pub unwrap : {S : Type 0} → Option S → Flow S
unwrap none = Flow.panic
unwrap (some s) = Flow.go s

-- An `alloc` of the ranges of the kernel or of the user.
unfoldable pub alloc_range :
    {M : Type 0}
    → Bool
    → ℕ
    → ℕ
    → VirtualMemoryManager M
    → Option (Option SizeAddr × VirtualMemoryManager M)
alloc_range true size order v =
    Ranges.alloc size order v.kernel_alloc >>= λ r. some (r.0, record v { kernel_alloc = r.1 })
alloc_range false size order v =
    Ranges.alloc size order v.user_alloc >>= λ r. some (r.0, record v { user_alloc = r.1 })

module _ {M : Type 0} (mapper : Mapper M) where
  -- A page of `map`: the frame, and the memory. A `PhysAddr` of more than 52 bits is a panic.
  unfoldable pub map_page : Bool → Page → ℕ → ℕ × M → Flow (ℕ × M)
  map_page kernel page addr s = unwrap (
      mapper.map_to page addr (s.0) (not kernel) (s.1) >>= λ m.
      assert (ltb (s.0 + page_bytes page) (2 ^ 52)) >> some (s.0 + page_bytes page, m))

  -- The range that `map` has found. `fuel` is at least the number of pages.
  unfoldable pub map_range :
      ℕ
      → Bool
      → SizeAddr
      → ℕ
      → ℕ
      → VirtualMemoryManager M
      → Option (Option ℕ × VirtualMemoryManager M)
  map_range fuel kernel range phys offset v =
      assert (is_canonical range.addr && is_canonical (range.addr + offset))
      >> finish (λ s. (some (range.addr + offset), record v { memory = s.1 }))
          (λ s. (none, record v { memory = s.1 }))
          (page_loops (map_page kernel) fuel
            (record { addr = range.addr; size = range.size; state = (phys, v.memory) }))

  unfoldable pub map :
      Bool → ℕ → ℕ → ℕ → VirtualMemoryManager M → Option (Option ℕ × VirtualMemoryManager M)
  map kernel size order phys v =
      let offset : ℕ = bit_and phys (page_size - 1) in
      alloc_range kernel ((size + offset) % 2 ^ 64) order v >>= λ r. elim (r.0) [
        | none ↦ some (none, r.1)
        | some range ↦ map_range (suc range.size) kernel range (phys - offset) offset (r.1)
      ]

  -- A page of `alloc`, which returns early where there is no frame.
  unfoldable pub alloc_page : Bool → Page → ℕ → M → Flow M
  alloc_page kernel page addr m = elim (mapper.allocate_frame page m) [
    | none ↦ Flow.stop m
    | some r ↦ unwrap (mapper.map_to page addr (r.0) (not kernel) (r.1))
  ]

  unfoldable pub back_range :
      ℕ → Bool → SizeAddr → VirtualMemoryManager M → Option (Option ℕ × VirtualMemoryManager M)
  back_range fuel kernel range v =
      assert (is_canonical range.addr)
      >> finish (λ m. (some range.addr, record v { memory = m }))
          (λ m. (none, record v { memory = m }))
          (page_loops (alloc_page kernel) fuel
            (record { addr = range.addr; size = range.size; state = v.memory }))

  unfoldable pub alloc :
      Bool → ℕ → ℕ → VirtualMemoryManager M → Option (Option ℕ × VirtualMemoryManager M)
  alloc kernel size order v = alloc_range kernel size order v >>= λ r. elim (r.0) [
    | none ↦ some (none, r.1)
    | some range ↦ back_range (suc range.size) kernel range (r.1)
  ]

  -- A page of `free`, where `Page::from_start_address` fails on an address inside a page.
  unfoldable pub unmap_page : Page → ℕ → M → Flow M
  unmap_page page addr m =
      if addr % page_bytes page == 0 then unwrap (mapper.unmap page addr m) else Flow.panic

  -- The part of `free` that lies on one side of the start of the kernel.
  unfoldable pub free_part : Bool → ℕ → ℕ → VirtualMemoryManager M → Flow (VirtualMemoryManager M)
  free_part kernel addr size v =
      let v' : VirtualMemoryManager M =
        if kernel
        then record v { kernel_alloc = Ranges.free addr size v.kernel_alloc }
        else record v { user_alloc = Ranges.free addr size v.user_alloc } in
      finish_free (λ m. record v' { memory = m })
        (page_loops unmap_page (suc size) (record { addr = addr; size = size; state = v.memory }))

  -- `free` of an address below the kernel, which may reach into it.
  unfoldable pub free_user : ℕ → ℕ → VirtualMemoryManager M → Flow (VirtualMemoryManager M)
  free_user addr size v =
      if ltb v.kernel_start (addr + size)
      then and_free (free_part true v.kernel_start (addr + size - v.kernel_start) v)
          (free_part false addr (v.kernel_start - addr))
      else free_part false addr size v

  unfoldable pub free : ℕ → ℕ → VirtualMemoryManager M → Flow (VirtualMemoryManager M)
  free addr size v =
      if leb v.kernel_start addr
      then free_part true addr size v
      else if is_canonical (addr + size)
      then free_user addr size v
      else Flow.panic
