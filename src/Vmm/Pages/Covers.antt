-- ===== src/Vmm/Pages/Covers.antt =====
-- The loops reach the end of the range, page by page.
use mxos_v.Base.{
  ℕ, zero, suc, ◌+◌, ◌-◌, ◌%◌, ◌≤◌, ◌<◌, ◌≡◌, refl, ap₂, Bool, true, false, ◌⊎◌, inl, inr, ◌==◌,
  ==_iff, le→leb, leb→le, ltb→lt, Bool-cases, arith,
}
use mathlib.Core.Path.{subst}
use mxos_v.Vmm.Pages.{
  Page, Flow, Walk, page_bytes, huge_page_size, advance, one_page, page_loop, page_loops, unaligned,
  room_for_huge, bytes_left, is_canonical,
}

module _ {S : Type 0} (body : Page → ℕ → S → Flow S) (I : ℕ → S → Type 0) where
  -- Every address from one to the other is canonical.
  abbrev pub Canonical : ℕ → ℕ → Type 0
  Canonical lo hi = (a : ℕ) → lo ≤ a → a ≤ hi → is_canonical a ≡ true

  -- The body goes on from a page below `end`, and `I` moves to the address after it.
  abbrev pub Steps : ℕ → Page → Type 0
  Steps end page =
      (a : ℕ) (s : S)
      → a % page_bytes page ≡ 0
      → a + page_bytes page ≤ end
      → I a s
      → (s' : S) × (body page a s ≡ Flow.go s') × I (a + page_bytes page) s'

  -- A walk inside a range of whole pages that ends at `end`.
  abbrev pub IsWalk : ℕ → Walk S → Type 0
  IsWalk end w =
      (w.addr % 0x1000 ≡ 0)
      × (w.size % 0x1000 ≡ 0)
      × (w.addr + w.size ≡ end)
      × Canonical w.addr end
      × I w.addr w.state

  -- What a loop leaves: a walk in the same range on which its test fails.
  abbrev Leaves : ℕ → ℕ → (Walk S → Bool) → Flow (Walk S) → Type 0
  Leaves end size test r =
      (w : Walk S) × (r ≡ Flow.go w) × IsWalk end w × (test w ≡ false) × (w.size ≤ size)

  -- The page that `one_page` has done.
  abbrev Stepped : ℕ → Page → Walk S → Type 0
  Stepped end page w =
      (w' : Walk S) × (one_page body page w ≡ Flow.go w')
      × IsWalk end w'
      × (w'.size + page_bytes page ≡ w.size)
      × (w'.addr ≡ w.addr + page_bytes page)

  one_page_lem :
      (page : Page) (end : ℕ) (w : Walk S)
      → Steps end page
      → page_bytes page % 0x1000 ≡ 0
      → w.addr % page_bytes page ≡ 0
      → page_bytes page ≤ w.size
      → IsWalk end w
      → Stepped end page w
  unfolding one_page advance
  one_page_lem page end w steps whole aligned room (pa, ps, total, canonical, inv) =
      let on : is_canonical (w.addr + page_bytes page) ≡ true =
        canonical (w.addr + page_bytes page) (omega arith) (omega arith) in
      let (s', runs, inv') = steps w.addr w.state aligned (omega arith) inv in
      (
        record { addr = w.addr + page_bytes page; size = w.size - page_bytes page; state = s' },
        rw (one_page, runs, advance, on, le→leb (page_bytes page) w.size room) refl,
        (
          omega arith,
          omega arith,
          omega arith,
          λ a lo hi. canonical a (omega (arith, lo)) hi,
          inv',
        ),
        omega arith,
        refl,
      )

  -- A loop whose test leaves room for an aligned page, as long as `P` holds.
  module _ (test : Walk S → Bool) (page : Page) (P : Walk S → Type 0) (end : ℕ)
      (steps : Steps end page) (pos : 1 ≤ page_bytes page) (whole : page_bytes page % 0x1000 ≡ 0)
      (ready : (w : Walk S)
        → IsWalk end w
        → P w
        → test w ≡ true
        → (w.addr % page_bytes page ≡ 0) × (page_bytes page ≤ w.size))
      (kept : (w w' : Walk S)
        → P w
        → page_bytes page ≤ w.size
        → w'.addr ≡ w.addr + page_bytes page
        → P w') where
    page_loop_lem :
        (fuel : ℕ) (w : Walk S)
        → w.size < fuel
        → IsWalk end w
        → P w
        → Leaves end w.size test (page_loop body test page fuel w)
    unfolding page_loop
    page_loop_lem zero w enough walk p = elim enough [ ]
    page_loop_lem (suc fuel) w enough walk p = elim (Bool-cases (test w)) [
      | inl more ↦
          let (aligned, room) = ready w walk p more in
          let (w', runs, walk', size', addr') =
            one_page_lem page end w steps whole aligned room walk in
          let (last, loops, walk'', done, less) =
            page_loop_lem fuel w' (omega arith) walk' (kept w w' p room addr') in
          (last, rw (page_loop, more, runs, loops) refl, walk'', done, omega arith)
      | inr done ↦ (w, rw (page_loop, done) refl, walk, done, omega arith)
    ]

  abbrev AtHuge : Walk S → Type 0
  AtHuge w = (w.size ≡ 0) ⊎ (w.addr % huge_page_size ≡ 0)

  some_bytes : (w : Walk S) (end : ℕ) → IsWalk end w → 0 < w.size → 0x1000 ≤ w.size
  some_bytes w end (pa, ps, _, _, _) h = omega arith

  at_huge : (w : Walk S) → unaligned body w ≡ false → AtHuge w
  at_huge w h = elim (Bool-cases (w.size == 0)) [
    | inl e ↦ inl ((==_iff w.size 0).0 e)
    | inr e ↦ inr (ground arith)
  ]

  huge_ready :
      (end : ℕ) (w : Walk S)
      → IsWalk end w
      → AtHuge w
      → room_for_huge body w ≡ true
      → (w.addr % huge_page_size ≡ 0) × (huge_page_size ≤ w.size)
  huge_ready end w walk (inl empty) h = absurd (ground arith)
  huge_ready end w walk (inr aligned) h = (aligned, leb→le huge_page_size w.size h)

  huge_kept :
      (w w' : Walk S)
      → AtHuge w
      → huge_page_size ≤ w.size
      → w'.addr ≡ w.addr + huge_page_size
      → AtHuge w'
  huge_kept w w' (inl empty) room e = absurd (omega arith)
  huge_kept w w' (inr aligned) room e = inr (omega arith)

  -- On a range of whole pages, the loops end, and the body has gone over the whole range.
  pub page_loops_lem :
      (fuel : ℕ) (w : Walk S)
      → w.size < fuel
      → w.addr % 0x1000 ≡ 0
      → w.size % 0x1000 ≡ 0
      → Canonical w.addr (w.addr + w.size)
      → Steps (w.addr + w.size) Page.small
      → Steps (w.addr + w.size) Page.huge
      → I w.addr w.state
      → (s : S) × (page_loops body fuel w
          ≡ Flow.go (record { addr = w.addr + w.size; size = 0; state = s }))
        × I (w.addr + w.size) s
  unfolding page_loops
  page_loops_lem fuel w enough pa ps canonical small huge inv =
      let end : ℕ = w.addr + w.size in
      let (w₁, runs₁, walk₁, done₁, less₁) =
        page_loop_lem (unaligned body) Page.small (λ w. Unit) end small (omega arith) refl
          (λ w walk _ h. (walk.0, some_bytes w end walk (ground arith))) (λ w w' _ _ _. tt) fuel w
          enough (pa, ps, refl, canonical, inv) tt in
      let (w₂, runs₂, walk₂, done₂, less₂) =
        page_loop_lem (room_for_huge body) Page.huge AtHuge end huge (omega arith) refl
          (huge_ready end) huge_kept fuel w₁ (omega arith) walk₁ (at_huge w₁ done₁) in
      let (w₃, runs₃, walk₃, done₃, less₃) =
        page_loop_lem (bytes_left body) Page.small (λ w. Unit) end small (omega arith) refl
          (λ w walk _ h. (walk.0, some_bytes w end walk (ltb→lt 0 w.size h))) (λ w w' _ _ _. tt)
          fuel w₂ (omega arith) walk₂ tt in
      let none_left : w₃.size ≡ 0 = ground arith in
      let at_end : w₃.addr ≡ end = omega (arith, walk₃.2) in
      (
        w₃.state,
        rw (page_loops, runs₁, runs₂, runs₃)
            (ap₂ (λ a n. Flow.go (record { addr = a; size = n; state = w₃.state })) at_end
              none_left),
        subst (λ a. I a w₃.state) at_end (walk₃.4),
      )
