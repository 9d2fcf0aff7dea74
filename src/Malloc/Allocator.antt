-- ===== src/Malloc/Allocator.antt =====
-- `Allocator`: the choice by size between the virtual memory manager and the thread allocator, as the
-- one thread that the array of allocators has room for runs it. `none` is a panic, undefined behaviour or
-- a loop that is not over within its fuel.
pub mod Laws
mod Tests
use mxos_v.Base.{
  ℕ, zero, suc, ◌+◌, ◌-◌, ◌*◌, ◌/◌, ◌%◌, ◌^◌, Bool, true, false, Option, none, some, ◌>>=◌, ◌>>◌,
  assert, List, [], ◌∷◌, length, ◌==◌, leb, ltb, if◌then◌else◌,
}
use mxos_v.Bitmap.{trailing_zeros}
use mxos_v.Vmm.Pages.{Flow}
use mxos_v.Vmm.Manager.{Mapper, VirtualMemoryManager}
use mxos_v.Vmm.Manager as Manager
use mxos_v.Malloc.{segment_size, size_class}
use mxos_v.Malloc.Thread.{Threads, Run, push_segment, local_free, fast_alloc, page_of, drain}
use mxos_v.Malloc.Thread as Thread

-- `vmm` is `none` where it is not set yet or its lock is held.
pub record Allocator (M : Type 0) : Type 0 where
  pub threads : Threads
  pub vmm : Option (VirtualMemoryManager M)

-- `layout.align_to(8).unwrap().pad_to_align().size()`
unfoldable pub padded_size : ℕ → ℕ → Option ℕ
padded_size size align =
    let a = if leb align 8 then 8 else align in
    assert (leb size (2 ^ 63 - a)) >> some ((size + (a - 1)) / a * a)

-- `LARGE_SIZE_CLASSES.last()`
abbrev pub largest_size : ℕ
largest_size = 0x80000

-- What an allocation of the thread allocator comes to.
abbrev pub with_run : {M : Type 0} → Run → Allocator M → Option (Option ℕ × Allocator M)
with_run (Run.returned o t) a = some (o, record a { threads = t })
with_run Run.undefined a = none
with_run Run.out_of_fuel a = none

abbrev pub of_flow : {A : Type 0} → Flow A → Option A
of_flow (Flow.go a) = some a
of_flow (Flow.stop a) = some a
of_flow Flow.panic = none
of_flow Flow.out_of_fuel = none

-- `nodes` is what the B-trees of the virtual memory manager do to the thread allocator: while they go
-- from one state to another, they take their nodes from this same allocator and give them back to it.
-- The standard library leaves open when they do.
module _ {M : Type 0} (mapper : Mapper M)
    (nodes : VirtualMemoryManager M → VirtualMemoryManager M → Threads → Option Threads) where
  -- `VirtualMemoryManager::alloc` for the kernel, with the nodes of its trees.
  unfoldable pub vmm_alloc :
      ℕ
      → ℕ
      → Threads
      → VirtualMemoryManager M
      → Option (Option ℕ × (Threads × VirtualMemoryManager M))
  vmm_alloc size order t v = Manager.alloc mapper true size order v >>= λ r.
      nodes v (r.1) t >>= λ t'. some (r.0, (t', r.1))

  -- The end of a pass that was given a segment: the loop breaks or goes on.
  unfoldable pub break_or :
      Bool
      → (Threads × VirtualMemoryManager M → Option (Threads × VirtualMemoryManager M))
      → Threads × VirtualMemoryManager M
      → Option (Threads × VirtualMemoryManager M)
  break_or true again s = some s
  break_or false again s = again s

  unfoldable pub add_segment :
      (Threads × VirtualMemoryManager M → Option (Threads × VirtualMemoryManager M))
      → Option ℕ × (Threads × VirtualMemoryManager M)
      → Option (Threads × VirtualMemoryManager M)
  add_segment again (none, s) = some s
  add_segment again (some addr, (t, v)) =
      let t' = push_segment addr t in break_or (ltb 3 (length t'.free_segments)) again (t', v)

  -- The loop that takes segments until there are more than three, or no more ranges.
  unfoldable pub fill_segments :
      ℕ → Threads × VirtualMemoryManager M → Option (Threads × VirtualMemoryManager M)
  fill_segments zero s = none
  fill_segments (suc passes) s =
      vmm_alloc segment_size 22 (s.0) (s.1) >>= add_segment (fill_segments passes)

-- `fuel` bounds the passes of the loop for segments.
module _ {M : Type 0} (mapper : Mapper M)
    (nodes : VirtualMemoryManager M → VirtualMemoryManager M → Threads → Option Threads)
    (fuel : ℕ) where
  unfoldable pub lock_and_fill :
      Option (VirtualMemoryManager M) → Allocator M → Option (Allocator M)
  lock_and_fill none a = some a
  lock_and_fill (some v) a = fill_segments mapper nodes fuel (a.threads, v) >>= λ r.
      some (record { threads = r.0; vmm = some (r.1) })

  unfoldable pub alloc_segments : Allocator M → Option (Allocator M)
  alloc_segments a =
      if ltb 3 (length a.threads.free_segments) then some a else lock_and_fill a.vmm a

  -- A range of its own for a size above the classes.
  unfoldable pub alloc_huge : ℕ → ℕ → Allocator M → Option (Option ℕ × Allocator M)
  alloc_huge size align a = elim a.vmm [
    | none ↦ some (none, a)
    | some v ↦ vmm_alloc mapper nodes size (trailing_zeros 64 align) a.threads v >>= λ r.
        some (r.0, record { threads = (r.1).0; vmm = some ((r.1).1) })
  ]

  -- The layout of a segment, as in Malloc/Thread.antt.
  module _ (offset_of_page size_of_meta : ℕ) where
    -- The passes of the loop of the thread allocator: one more than the pages of the class.
    abbrev pub passes : ℕ → Threads → ℕ
    passes class t =
        let drained =
          drain offset_of_page size_of_meta t.delayed_free (record t { delayed_free = [] }) in
        suc (length (drained.pages class))

    unfoldable pub alloc_class : ℕ → Allocator M → Option (Option ℕ × Allocator M)
    alloc_class class a = elim (fast_alloc class a.threads) [
      | some r ↦ some (some (r.0), record a { threads = r.1 })
      | none ↦ alloc_segments a >>= λ a'.
          with_run
            (Thread.alloc offset_of_page size_of_meta (passes class a'.threads) class a'.threads) a'
    ]

    unfoldable pub alloc : ℕ → ℕ → Allocator M → Option (Option ℕ × Allocator M)
    alloc size align a = padded_size size align >>= λ padded.
        if ltb largest_size padded
        then alloc_huge size align a
        else alloc_class (size_class padded) a

    -- The thread of every segment is the only one, so the branch for the page of another is left out.
    unfoldable pub dealloc : ℕ → ℕ → ℕ → Allocator M → Option (Allocator M)
    dealloc ptr size align a = padded_size size align >>= λ padded. elim (ltb largest_size padded) [
      | true ↦ elim a.vmm [
        | none ↦ some a
        | some v ↦ of_flow (Manager.free mapper ptr size v) >>= λ v'.
            nodes v v' a.threads >>= λ t'. some (record { threads = t'; vmm = some v' })
      ]
      | false ↦
          let page = page_of offset_of_page size_of_meta a.threads ptr in
          some (record a { threads = local_free (size_class padded) page ptr a.threads })
    ]
