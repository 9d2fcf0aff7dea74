-- ===== src/Vmm/Manager/Release.antt =====
-- `free` on a size that is not a multiple of the page size.
use mxos_v.Base.{
  ℕ, zero, suc, ◌+◌, ◌-◌, ◌%◌, ◌≡◌, ◌≢◌, ◌⊎◌, refl, ap, if◌then◌else◌, Bool, true, false, ◌&&◌,
  Option, none, some, ◌<◌, ◌≤◌, ◌==◌, leb, ltb, Bool-cases, inl, inr, arith,
}
use mxos_v.Vmm as Ranges
use mxos_v.Vmm.Pages.{
  Page, Flow, Walk, page_bytes, page_loop, page_loops, one_page, advance, unaligned, room_for_huge,
  bytes_left, is_canonical,
}
use mxos_v.Vmm.Manager.{
  Mapper, VirtualMemoryManager, finish_free, unwrap, unmap_page, free_part, free_user, free,
}

module _ {S : Type 0} (body : Page → ℕ → S → Flow S)
    (no_stop : (page : Page) (a : ℕ) (s s' : S) → body page a s ≢ Flow.stop s')
    (no_loop : (page : Page) (a : ℕ) (s : S) → body page a s ≢ Flow.out_of_fuel) (left : ℕ) where
  -- The bytes past the last whole page.
  abbrev IsLeft : Walk S → Type 0
  IsLeft w = w.size % 0x1000 ≡ left

  -- What a loop can leave: a panic, or a shorter walk with as many bytes past its last page.
  abbrev Odd : ℕ → Flow (Walk S) → Type 0
  Odd size r = (r ≡ Flow.panic) ⊎ ((w : Walk S) × (r ≡ Flow.go w) × IsLeft w × (w.size < size))

  advance-Odd :
      (page : Page) (w : Walk S) (s : S)
      → page_bytes page % 0x1000 ≡ 0
      → 0 < page_bytes page
      → IsLeft w
      → Odd w.size (advance body page w s)
  unfolding advance
  advance-Odd page w s whole pos odd =
      elim (Bool-cases (is_canonical (w.addr + page_bytes page) && leb (page_bytes page) w.size)) [
        | inl room ↦ inr (
          record { addr = w.addr + page_bytes page; size = w.size - page_bytes page; state = s },
          rw (advance, room) refl,
          ground arith,
          ground arith,
        )
        | inr short ↦ inl (rw (advance, short) refl)
      ]

  one_page-Odd :
      (page : Page) (w : Walk S) (r : Flow S)
      → body page w.addr w.state ≡ r
      → page_bytes page % 0x1000 ≡ 0
      → 0 < page_bytes page
      → IsLeft w
      → Odd w.size (one_page body page w)
  unfolding one_page
  one_page-Odd page w (Flow.go s) e whole pos odd =
      rw (one_page, e) (advance-Odd page w s whole pos odd)
  one_page-Odd page w (Flow.stop s) e whole pos odd = absurd (no_stop page w.addr w.state s e)
  one_page-Odd page w Flow.out_of_fuel e whole pos odd = absurd (no_loop page w.addr w.state e)
  one_page-Odd page w Flow.panic e whole pos odd = rw (one_page, e) (inl refl)

  -- A loop that ends has a test that fails.
  abbrev OddEnd : (Walk S → Bool) → ℕ → Flow (Walk S) → Type 0
  OddEnd test size r =
      (r ≡ Flow.panic)
      ⊎ ((w : Walk S) × (r ≡ Flow.go w) × IsLeft w × (test w ≡ false) × (w.size ≤ size))

  page_loop-OddEnd :
      (test : Walk S → Bool) (page : Page) (fuel size : ℕ) (w : Walk S)
      → w.size < fuel
      → w.size ≤ size
      → page_bytes page % 0x1000 ≡ 0
      → 0 < page_bytes page
      → IsLeft w
      → OddEnd test size (page_loop body test page fuel w)
  unfolding page_loop
  page_loop-OddEnd test page zero size w enough below whole pos odd = absurd (omega (arith, enough))
  page_loop-OddEnd test page (suc fuel) size w enough below whole pos odd =
      elim (Bool-cases (test w)) [
        | inr done ↦ inr (w, rw (page_loop, done) refl, odd, done, below)
        | inl more ↦ elim (one_page-Odd page w (body page w.addr w.state) refl whole pos odd) [
          | inl stuck ↦ inl (rw (page_loop, more, stuck) refl)
          | inr (w', runs, odd', less) ↦
              rw (page_loop, more, runs)
                (page_loop-OddEnd test page fuel size w' (omega (arith, less, enough))
                  (omega (arith, less, below)) whole pos odd')
        ]
      ]

  page_loops_end :
      (fuel : ℕ) (w : Walk S)
      → w.size < fuel
      → IsLeft w
      → (page_loops body fuel w ≡ Flow.panic)
        ⊎ ((w' : Walk S) × (page_loops body fuel w ≡ Flow.go w') × (left ≡ 0))
  unfolding page_loops
  page_loops_end fuel w enough odd =
      elim (page_loop-OddEnd (unaligned body) Page.small fuel w.size w enough (omega arith) refl
        (omega arith) odd) [
          | inl stuck ↦ inl (rw (page_loops, stuck) refl)
          | inr (w₁, runs₁, odd₁, _, less₁) ↦
              elim (page_loop-OddEnd (room_for_huge body) Page.huge fuel w.size w₁
                (omega (arith, enough, less₁)) less₁ refl (omega arith) odd₁) [
                  | inl stuck ↦ inl (rw (page_loops, runs₁, stuck) refl)
                  | inr (w₂, runs₂, odd₂, _, less₂) ↦
                      elim (page_loop-OddEnd (bytes_left body) Page.small fuel w.size w₂
                        (omega (arith, enough, less₂)) less₂ refl (omega arith) odd₂) [
                          | inl stuck ↦ inl (rw (page_loops, runs₁, runs₂, stuck) refl)
                          | inr (w₃, runs₃, odd₃, done, _) ↦
                              let empty : w₃.size ≡ 0 = ground arith in
                              inr (
                                w₃,
                                rw (page_loops, runs₁, runs₂, runs₃) refl,
                                omega (arith, empty, odd₃),
                              )
                        ]
                ]
        ]

-- A loop that starts inside a page, with a body that does not take such an address.
module _ {S : Type 0} (body : Page → ℕ → S → Flow S)
    (whole : (a : ℕ) (s : S) → a % 0x1000 ≢ 0 → body Page.small a s ≡ Flow.panic) where
  page_loops_inside :
      (fuel : ℕ) (w : Walk S)
      → w.addr % 0x1000 ≢ 0
      → 0 < w.size
      → page_loops body (suc fuel) w ≡ Flow.panic
  unfolding page_loops page_loop one_page
  page_loops_inside fuel w inside more =
      let first : unaligned body w ≡ true = ground (arith, inside) in
      rw (page_loops, page_loop, first, one_page, whole w.addr w.state inside) refl

unwrap-stop : {S : Type 0} (o : Option S) (s : S) → unwrap o ≢ Flow.stop s
unwrap-stop none s h = cc
unwrap-stop (some s') s h = cc

unwrap_ends : {S : Type 0} (o : Option S) → unwrap o ≢ Flow.out_of_fuel
unwrap_ends none h = cc
unwrap_ends (some s') h = cc

module _ {M : Type 0} (mapper : Mapper M) where
  unmap_page-stop : (page : Page) (a : ℕ) (m m' : M) → unmap_page mapper page a m ≢ Flow.stop m'
  unfolding unmap_page
  unmap_page-stop page a m m' = elim (Bool-cases (a % page_bytes page == 0)) [
    | inl e ↦ rw (unmap_page, e) (unwrap-stop (mapper.unmap page a m) m')
    | inr e ↦ rw (unmap_page, e) (λ h. absurd (cc h))
  ]

  unmap_page_ends : (page : Page) (a : ℕ) (m : M) → unmap_page mapper page a m ≢ Flow.out_of_fuel
  unfolding unmap_page
  unmap_page_ends page a m = elim (Bool-cases (a % page_bytes page == 0)) [
    | inl e ↦ rw (unmap_page, e) (unwrap_ends (mapper.unmap page a m))
    | inr e ↦ rw (unmap_page, e) (λ h. absurd (cc h))
  ]

  unmap_page-inside :
      (a : ℕ) (m : M) → a % 0x1000 ≢ 0 → unmap_page mapper Page.small a m ≡ Flow.panic
  unfolding unmap_page
  unmap_page-inside a m inside =
      let no : (a % 0x1000 == 0) ≡ false = ground (arith, inside) in rw (unmap_page, no) refl

  -- A part of `free` panics or is done, and it is done on whole pages alone.
  free_part_ends :
      (kernel : Bool) (addr size : ℕ) (v : VirtualMemoryManager M)
      → (free_part mapper kernel addr size v ≡ Flow.panic)
        ⊎ ((v' : VirtualMemoryManager M) × (free_part mapper kernel addr size v ≡ Flow.go v')
            × (size % 4096 ≡ 0))
  unfolding free_part
  free_part_ends kernel addr size v =
      let v' : VirtualMemoryManager M =
        if kernel
        then record v { kernel_alloc = Ranges.free addr size v.kernel_alloc }
        else record v { user_alloc = Ranges.free addr size v.user_alloc } in
      let done = λ (m : M). record v' { memory = m } in
      elim (page_loops_end (unmap_page mapper) unmap_page-stop unmap_page_ends (size % 4096)
        (suc size) (record { addr = addr; size = size; state = v.memory }) (omega arith) refl) [
          | inl stuck ↦ inl (rw (free_part, stuck) refl)
          | inr (w, runs, whole) ↦ inr (done w.state, ap (finish_free done) runs, whole)
        ]

  free_part-panics :
      (kernel : Bool) (addr size : ℕ) (v : VirtualMemoryManager M)
      → size % 4096 ≢ 0
      → free_part mapper kernel addr size v ≡ Flow.panic
  free_part-panics kernel addr size v odd = elim (free_part_ends kernel addr size v) [
    | inl stuck ↦ stuck
    | inr (v', runs, whole) ↦ absurd (odd whole)
  ]

  free_part_inside :
      (kernel : Bool) (addr size : ℕ) (v : VirtualMemoryManager M)
      → addr % 4096 ≢ 0
      → 0 < size
      → free_part mapper kernel addr size v ≡ Flow.panic
  unfolding free_part
  free_part_inside kernel addr size v inside more =
      let stuck =
        page_loops_inside (unmap_page mapper) unmap_page-inside size
          (record { addr = addr; size = size; state = v.memory }) inside more in
      rw (free_part, stuck) refl

  free_user-panics :
      (addr size : ℕ) (v : VirtualMemoryManager M)
      → addr < v.kernel_start
      → v.kernel_start % 4096 ≡ 0
      → size % 4096 ≢ 0
      → free_user mapper addr size v ≡ Flow.panic
  unfolding free_user
  free_user-panics addr size v below pk odd = elim (Bool-cases (ltb v.kernel_start (addr + size))) [
    | inr one ↦ rw (free_user, one) (free_part-panics false addr size v odd)
    | inl both ↦ elim (Bool-cases (addr % 4096 == 0)) [
      | inl whole ↦
          let rest_odd : (addr + size - v.kernel_start) % 4096 ≢ 0 = λ e. odd (ground (arith, e)) in
          rw
            (
              free_user,
              both,
              free_part-panics true v.kernel_start (addr + size - v.kernel_start) v rest_odd,
            )
            refl
      | inr inside ↦ elim (free_part_ends true v.kernel_start (addr + size - v.kernel_start) v) [
        | inl stuck ↦ rw (free_user, both, stuck) refl
        | inr (v', runs, _) ↦
            rw (free_user, both, runs)
              (free_part_inside false addr (v.kernel_start - addr) v' (ground arith) (omega arith))
      ]
    ]
  ]

  -- `free` of a size that is not a multiple of the page size panics at every address and on every page
  -- table, where the kernel starts at a page.
  pub free-panics :
      (addr size : ℕ) (v : VirtualMemoryManager M)
      → v.kernel_start % 4096 ≡ 0
      → size % 4096 ≢ 0
      → free mapper addr size v ≡ Flow.panic
  unfolding free
  free-panics addr size v pk odd = elim (Bool-cases (leb v.kernel_start addr)) [
    | inl kernel ↦ rw (free, kernel) (free_part-panics true addr size v odd)
    | inr user ↦ elim (Bool-cases (is_canonical (addr + size))) [
      | inl on ↦ rw (free, user, on) (free_user-panics addr size v (ground arith) pk odd)
      | inr off ↦ rw (free, user, off) refl
    ]
  ]
