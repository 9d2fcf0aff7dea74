-- ===== src/Malloc/Allocator/Tests.antt =====
-- A kernel with room for one segment, and its first allocation.
use mxos_v.Base.{
  ℕ, ◌+◌, ◌≤◌, ◌<◌, ◌≡◌, ◌⊎◌, inl, inr, refl, ap, ◌∙◌, true, false, Option, none, some, [], ◌∷◌,
  length, arith,
}
use mxos_v.Vmm.{set_from}
use mxos_v.Vmm as Ranges
use mxos_v.Vmm.Pages as Pages
use mxos_v.Vmm.Manager.{Mapper, VirtualMemoryManager, alloc_range, back_range, alloc_page}
use mxos_v.Vmm.Manager as Manager
use mxos_v.Malloc.{segment_size, small_page_size, small_page_start}
use mxos_v.Malloc.PageMeta as Meta
use mxos_v.Malloc.Thread.{Threads, push_segment, page_at}
use mxos_v.Malloc.Allocator.{Allocator, vmm_alloc, padded_size, alloc_segments, alloc}
use mxos_v.Malloc.Allocator.Laws.{Refused, alloc_segments-Ready, alloc_first_block}

-- Frames without end, which nothing keeps track of.
abbrev loose : Mapper ℕ
loose = record {
  map_to = λ page addr frame user m. some m;
  unmap = λ page addr m. some m;
  allocate_frame = λ page m. some (0x200000, m);
}

-- The space of the kernel after and before a segment is taken.
abbrev one_given : VirtualMemoryManager ℕ
one_given = record {
  memory = 0;
  kernel_alloc = record {
    addr_size_tree = (0x800000, 0x3FF000) ∷ [];
    size_addr_tree = record { size = 0x3FF000; addr = 0x800000 } ∷ [];
  };
  user_alloc = record { addr_size_tree = []; size_addr_tree = [] };
  kernel_start = 0x400000;
}

abbrev one_segment : VirtualMemoryManager ℕ
one_segment = record one_given {
  kernel_alloc = record {
    addr_size_tree = (0x400000, 0x7FF000) ∷ [];
    size_addr_tree = record { size = 0x7FF000; addr = 0x400000 } ∷ [];
  };
}

segment_given :
    Manager.alloc loose true segment_size 22 one_segment ≡ some (some 0x400000, one_given)
unfolding Manager.alloc alloc_range back_range alloc_page Ranges.alloc set_from Ranges.carve
    Ranges.keep_before Ranges.keep_after Ranges.map_insert Ranges.set_insert Ranges.map_remove
    Ranges.set_remove Pages.page_loops Pages.page_loop Pages.one_page Pages.advance
segment_given = refl

segment_refused : Manager.alloc loose true segment_size 22 one_given ≡ some (none, one_given)
unfolding Manager.alloc alloc_range Ranges.alloc set_from
segment_refused = refl

-- Trees of one range each keep their root, so they take no node and give none back.
abbrev no_nodes : VirtualMemoryManager ℕ → VirtualMemoryManager ℕ → Threads → Option Threads
no_nodes v v' t = some t

-- What the ranges of the kernel are before and after.
abbrev Known : Threads × VirtualMemoryManager ℕ → Type 0
Known s = ((s.1) ≡ one_segment) ⊎ ((s.1) ≡ one_given)

segment_lem :
    (s : Threads × VirtualMemoryManager ℕ)
    → Known s
    → (r : Option ℕ × (Threads × VirtualMemoryManager ℕ)) × (vmm_alloc loose no_nodes segment_size
          22
          (s.0)
          (s.1)
        ≡ some r)
      × ((addr : ℕ) → Known (push_segment addr ((r.1).0), (r.1).1))
      × (length (s.0).free_segments ≤ length ((r.1).0).free_segments)
unfolding vmm_alloc
segment_lem (t, v) (inl e) =
    let given : Manager.alloc loose true segment_size 22 v ≡ some (some 0x400000, one_given) =
      ap (Manager.alloc loose true segment_size 22) e ∙ segment_given in
    ((some 0x400000, (t, one_given)), rw (vmm_alloc, given) refl, λ addr. inr refl, omega arith)
segment_lem (t, v) (inr e) =
    let gone : Manager.alloc loose true segment_size 22 v ≡ some (none, one_given) =
      ap (Manager.alloc loose true segment_size 22) e ∙ segment_refused in
    ((none, (t, one_given)), rw (vmm_alloc, gone) refl, λ addr. inr refl, omega arith)

-- Nothing is allocated, one segment is ready, and the virtual memory manager is not locked.
abbrev kernel : Allocator ℕ
kernel = record {
  threads = record {
    pages = λ class. [];
    free_small_pages = [];
    full_pages = [];
    delayed_free = [];
    free_segments = 0xC00000 ∷ [];
    metas = λ p. Meta.new 0;
    segment_used = λ s. 0;
    segment_is_large = λ s. false;
  };
  vmm = some one_segment;
}

unlocked : (v : VirtualMemoryManager ℕ) → kernel.vmm ≡ some v → Known (kernel.threads, v)
unlocked v h = inl (cc h)

padded_lem : padded_size 100 4 ≡ some 104
unfolding padded_size
padded_lem = refl

alloc_segments-Ready_example :
    (a : Allocator ℕ) × (alloc_segments loose no_nodes 4 kernel ≡ some a)
    × ((3 < length a.threads.free_segments)
        ⊎ ((a.vmm ≡ none)
            ⊎ ((v : VirtualMemoryManager ℕ) × (a.vmm ≡ some v)
                × Refused loose no_nodes (a.threads, v))))
alloc_segments-Ready_example =
    alloc_segments-Ready loose no_nodes Known segment_lem 4 kernel (omega arith) unlocked

-- The kernel before the virtual memory manager is set.
abbrev early : Allocator ℕ
early = record kernel { vmm = none }

alloc_first_block_example :
    (b : ℕ) × (a : Allocator ℕ) × (alloc loose no_nodes 4 8 64 100 4 early ≡ some (some b, a))
    × (a.threads.free_segments ≡ [])
    × (small_page_start 8 64 (page_at 8 64 0xC00000 62) ≤ b)
    × (b + 100 ≤ small_page_start 8 64 (page_at 8 64 0xC00000 62) + small_page_size)
alloc_first_block_example =
    alloc_first_block loose no_nodes 4 8 64 100 4 104 0xC00000 [] early padded_lem (omega arith)
      refl refl refl refl (inr refl)
