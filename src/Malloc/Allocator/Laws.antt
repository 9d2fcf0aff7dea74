-- ===== src/Malloc/Allocator/Laws.antt =====
-- `Allocator`: the segments that it keeps ready, and the block of a first allocation.
use mxos_v.Base.{
  ℕ, zero, suc, ◌+◌, ◌-◌, ◌*◌, ◌/◌, ◌^◌, ◌≤◌, ◌<◌, ◌≡◌, ◌⊎◌, inl, inr, refl, ap, ◌∙◌, Bool, true,
  false, ◌||◌, Option, none, some, Bool-cases, List, [], ◌∷◌, length, get_or, ◌==◌, ==_iff, leb,
  ltb, ltb→lt, ltb→ge, lt→ltb, if◌then◌else◌, arith,
}
use native.Mathlib.Nat.{div-add-mod', mod-lt}
use mxos_v.Vmm.Manager.{Mapper, VirtualMemoryManager}
use mxos_v.Malloc.{segment_size, size_class, small_page_size, small_size_classes, small_page_start}
use mxos_v.Malloc.Bounds.{class_bytes, every, every-lt, size_class_smallest}
use mxos_v.Malloc.Thread.{Threads, push_segment, fast_alloc, page_at, drain, alloc_loop}
use mxos_v.Malloc.Thread as Thread
use mxos_v.Malloc.Thread.First.{first_alloc}
use mxos_v.Malloc.Allocator.{
  Allocator, padded_size, largest_size, break_or, add_segment, fill_segments, lock_and_fill,
  alloc_segments, alloc_class, alloc, vmm_alloc, with_run,
}

module _ {M : Type 0} (mapper : Mapper M)
    (nodes : VirtualMemoryManager M → VirtualMemoryManager M → Threads → Option Threads) where
  -- A segment is asked for, and there is no range for it.
  abbrev pub Refused : Threads × VirtualMemoryManager M → Type 0
  Refused s' =
      (s : Threads × VirtualMemoryManager M) × (vmm_alloc mapper nodes segment_size 22 (s.0) (s.1)
        ≡ some (none, s'))

  abbrev Filled : Threads × VirtualMemoryManager M → Type 0
  Filled s = (3 < length (s.0).free_segments) ⊎ Refused s

  module _ (P : Threads × VirtualMemoryManager M → Type 0)
      (total : (s : Threads × VirtualMemoryManager M)
        → P s
        → (r : Option ℕ × (Threads × VirtualMemoryManager M)) × (vmm_alloc mapper nodes segment_size
              22
              (s.0)
              (s.1)
            ≡ some r)
          × ((addr : ℕ) → P (push_segment addr ((r.1).0), (r.1).1))
          × (length (s.0).free_segments ≤ length ((r.1).0).free_segments)) where
    abbrev Fills : Option (Threads × VirtualMemoryManager M) → Type 0
    Fills o = (r : Threads × VirtualMemoryManager M) × (o ≡ some r) × Filled r

    -- A pass that leaves `n` segments or more before it adds one, where the passes after it fill a longer
    -- list.
    module _ (again : Threads × VirtualMemoryManager M → Option (Threads × VirtualMemoryManager M))
        (n : ℕ)
        (later : (u : Threads × VirtualMemoryManager M)
          → suc n ≤ length (u.0).free_segments
          → length (u.0).free_segments ≤ 3
          → P u
          → Fills (again u)) where
      break_or-Fills :
          (s : Threads × VirtualMemoryManager M) (b : Bool)
          → P s
          → suc n ≤ length (s.0).free_segments
          → ltb 3 (length (s.0).free_segments) ≡ b
          → Fills (break_or mapper nodes b again s)
      unfolding break_or
      break_or-Fills s true p longer full = (s, refl, inl (ltb→lt 3 _ full))
      break_or-Fills s false p longer more = later s longer (ltb→ge 3 _ more) p

      add_segment-Fills :
          (s : Threads × VirtualMemoryManager M) (r : Option ℕ × (Threads × VirtualMemoryManager M))
          → ((addr : ℕ) → P (push_segment addr ((r.1).0), (r.1).1))
          → n ≤ length ((r.1).0).free_segments
          → vmm_alloc mapper nodes segment_size 22 (s.0) (s.1) ≡ some r
          → Fills (add_segment mapper nodes again r)
      unfolding add_segment push_segment
      add_segment-Fills s (none, w) p longer gone = (w, refl, inr (s, gone))
      add_segment-Fills s (some addr, w) p longer got =
          break_or-Fills (push_segment addr (w.0), w.1) _ (p addr) (omega (arith, longer)) refl

    fill_segments-Filled :
        (passes : ℕ) (s : Threads × VirtualMemoryManager M)
        → 4 ≤ length (s.0).free_segments + passes
        → length (s.0).free_segments ≤ 3
        → P s
        → Fills (fill_segments mapper nodes passes s)
    unfolding fill_segments
    fill_segments-Filled zero s enough few p = absurd (omega (arith, enough, few))
    fill_segments-Filled (suc passes) s enough few p =
        let (r, e, p', more) = total s p in
        rw (fill_segments, e)
          (add_segment-Fills (fill_segments mapper nodes passes) (length (s.0).free_segments)
            (λ u longer few' q.
              fill_segments-Filled passes u (omega (arith, longer, enough)) few' q)
            s r p' more e)

    abbrev Ready : Allocator M → Type 0
    Ready a =
        (3 < length a.threads.free_segments)
        ⊎ ((a.vmm ≡ none)
            ⊎ ((v : VirtualMemoryManager M) × (a.vmm ≡ some v) × Refused (a.threads, v)))

    lock_and_fill-Ready :
        (fuel : ℕ) (o : Option (VirtualMemoryManager M)) (a : Allocator M)
        → 4 ≤ fuel
        → a.vmm ≡ o
        → ((v : VirtualMemoryManager M) → o ≡ some v → P (a.threads, v))
        → length a.threads.free_segments ≤ 3
        → (a' : Allocator M) × (lock_and_fill mapper nodes fuel o a ≡ some a') × Ready a'
    unfolding lock_and_fill
    lock_and_fill-Ready fuel none a enough locked p few = (a, refl, inr (inl locked))
    lock_and_fill-Ready fuel (some v) a enough e p few =
        let (r, run, filled) =
          fill_segments-Filled fuel (a.threads, v) (omega (arith, enough)) few (p v refl) in
        (
          record { threads = r.0; vmm = some (r.1) },
          rw (lock_and_fill, run) refl,
          elim filled [ inl full ↦ inl full | inr refused ↦ inr (inr (r.1, refl, refused)) ],
        )

    -- Where an allocation of a segment, with the segment pushed, keeps a property of the thread allocator
    -- and the unlocked virtual memory manager, under which it does not panic and the nodes of the trees use
    -- up no free segment: within four passes `alloc_segments` leaves more than three free segments, without
    -- a panic, unless a segment is refused or the virtual memory manager is not set or locked.
    pub alloc_segments-Ready :
        (fuel : ℕ) (a : Allocator M)
        → 4 ≤ fuel
        → ((v : VirtualMemoryManager M) → a.vmm ≡ some v → P (a.threads, v))
        → (a' : Allocator M) × (alloc_segments mapper nodes fuel a ≡ some a') × Ready a'
    unfolding alloc_segments
    alloc_segments-Ready fuel a enough p =
        elim (Bool-cases (ltb 3 (length a.threads.free_segments))) [
          | inl full ↦ (a, rw (alloc_segments, full) refl, inl (ltb→lt 3 _ full))
          | inr few ↦
              let (a', run, ready) =
                lock_and_fill-Ready fuel a.vmm a enough refl p (ltb→ge 3 _ few) in
              (a', rw (alloc_segments, few) run, ready)
        ]

-- The classes up to 0x2000 bytes are those of small pages.
abbrev small_below : ℕ → Bool
small_below c = leb c 31 || leb 0x2000 (class_bytes c)

above_small : every small_below 57 ≡ true
above_small = refl

abbrev same_bytes : ℕ → Bool
same_bytes c = class_bytes c == get_or small_size_classes c 0

small_bytes : every same_bytes 33 ≡ true
small_bytes = refl

small_class :
    (size : ℕ)
    → size ≤ 0x2000
    → (size_class size < 33) × (size ≤ get_or small_size_classes (size_class size) 0)
small_class size h =
    let c : ℕ = size_class size in
    let (lt, holds, first) = size_class_smallest size (omega arith) in
    let small : c < 33 = elim first [
      | inl zero_class ↦ omega (arith, zero_class)
      | inr before ↦
          below c (class_bytes (c - 1)) before
            (every-lt small_below 57 (c - 1) above_small (omega arith))
    ] in
    let same : class_bytes c ≡ get_or small_size_classes c 0 =
      (==_iff (class_bytes c) _).0 (every-lt same_bytes 33 c small_bytes small) in
    (small, omega (arith, same, holds))
  where
    below : (c bytes : ℕ) → bytes < size → (leb (c - 1) 31 || leb 0x2000 bytes) ≡ true → c < 33
    below c bytes b t = ground arith

-- The multiple that a size is rounded up to.
round_up_holds : (size unit : ℕ) → 0 < unit → size ≤ (size + (unit - 1)) / unit * unit
round_up_holds size unit pos =
    omega (arith, div-add-mod' (size + (unit - 1)) unit, mod-lt (size + (unit - 1)) pos)

padded_size_holds : (size align padded : ℕ) → padded_size size align ≡ some padded → size ≤ padded
unfolding padded_size
padded_size_holds size align padded h =
    let unit = if leb align 8 then 8 else align in
    let pos : 0 < unit = ground arith in
    elim (Bool-cases (leb size (2 ^ 63 - unit))) [
      | inr over ↦ absurd (cc (rw (padded_size, over) at h))
      | inl fits ↦
          let rounded : (size + (unit - 1)) / unit * unit ≡ padded =
            cc (rw (padded_size, fits) at h) in
          omega (arith, rounded, round_up_holds size unit pos)
    ]

-- The block of a first allocation: nothing of the class and of the small pages is there, no block
-- waits, and there is a segment, where the virtual memory manager is not asked for more.
module _ {M : Type 0} (mapper : Mapper M)
    (nodes : VirtualMemoryManager M → VirtualMemoryManager M → Threads → Option Threads)
    (fuel offset size_of_meta : ℕ) where
  alloc_segments_idle :
      (a : Allocator M)
      → (3 < length a.threads.free_segments) ⊎ (a.vmm ≡ none)
      → alloc_segments mapper nodes fuel a ≡ some a
  unfolding alloc_segments lock_and_fill
  alloc_segments_idle a (inl full) = rw (alloc_segments, lt→ltb 3 _ full) refl
  alloc_segments_idle a (inr locked) =
      let nothing : lock_and_fill mapper nodes fuel a.vmm a ≡ some a =
        ap (λ o. lock_and_fill mapper nodes fuel o a) locked in
      elim (Bool-cases (ltb 3 (length a.threads.free_segments))) [
        | inl full ↦ rw (alloc_segments, full) refl
        | inr few ↦ rw (alloc_segments, few) nothing
      ]

  alloc_class_first :
      (class segment : ℕ) (rest : List ℕ) (a : Allocator M)
      → class < 33
      → alloc_segments mapper nodes fuel a ≡ some a
      → a.threads.pages class ≡ []
      → a.threads.free_small_pages ≡ []
      → a.threads.delayed_free ≡ []
      → a.threads.free_segments ≡ segment ∷ rest
      → let start = small_page_start offset size_of_meta (page_at offset size_of_meta segment 62) in
        (b : ℕ) × (a' : Allocator M) × (alloc_class mapper nodes fuel offset size_of_meta class a
          ≡ some (some b, a'))
        × (start ≤ b)
        × (b + get_or small_size_classes class 0 ≤ start + small_page_size)
        × (a'.threads.free_segments ≡ rest)
  unfolding alloc_class fast_alloc Thread.alloc drain
  alloc_class_first class segment rest a small idle no_page no_small no_block segments =
      let (b, t, run, low, high, used, left) =
        first_alloc offset size_of_meta class (length (a.threads.pages class)) segment rest
          (record a.threads { delayed_free = [] }) small no_page no_small segments in
      let slow : fast_alloc class a.threads ≡ none = rw (fast_alloc, no_page) refl in
      (
        b,
        record a { threads = t },
        rw (alloc_class, slow, idle, Thread.alloc, no_block)
            (ap (λ r. with_run r (record a { threads = record a.threads { delayed_free = [] } }))
              run),
        low,
        high,
        left,
      )

  alloc_padded :
      (size align padded : ℕ) (a : Allocator M)
      → padded_size size align ≡ some padded
      → padded ≤ 0x2000
      → alloc mapper nodes fuel offset size_of_meta size align a
        ≡ alloc_class mapper nodes fuel offset size_of_meta (size_class padded) a
  unfolding alloc
  alloc_padded size align padded a rounded below =
      let small : ltb largest_size padded ≡ false = ground arith in rw (alloc, rounded, small) refl

  -- The first allocation of at most 0x2000 bytes, rounded up, in a class without pages, where no small
  -- page is free, no block waits and there is a free segment, with more than three free segments or a
  -- virtual memory manager that is not set or locked: it takes the first segment and returns a block of
  -- at least the size that lies in the last page of that segment.
  pub alloc_first_block :
      (size align padded segment : ℕ) (rest : List ℕ) (a : Allocator M)
      → padded_size size align ≡ some padded
      → padded ≤ 0x2000
      → a.threads.pages (size_class padded) ≡ []
      → a.threads.free_small_pages ≡ []
      → a.threads.delayed_free ≡ []
      → a.threads.free_segments ≡ segment ∷ rest
      → (3 < length a.threads.free_segments) ⊎ (a.vmm ≡ none)
      → (b : ℕ) × (a' : Allocator M) × (alloc mapper nodes fuel offset size_of_meta size align a
          ≡ some (some b, a'))
        × (a'.threads.free_segments ≡ rest)
        × (small_page_start offset size_of_meta (page_at offset size_of_meta segment 62) ≤ b)
        × (b + size
            ≤ small_page_start offset size_of_meta (page_at offset size_of_meta segment 62)
              + small_page_size)
  alloc_first_block size align padded segment rest a rounded below no_page no_small no_block
        segments idle =
      let class = size_class padded in
      let (small, holds) = small_class padded below in
      let (b, a', run, low, high, left) =
        alloc_class_first class segment rest a small (alloc_segments_idle a idle) no_page no_small
          no_block segments in
      (
        b,
        a',
        alloc_padded size align padded a rounded below ∙ run,
        left,
        low,
        omega (arith, high, holds, padded_size_holds size align padded rounded),
      )
