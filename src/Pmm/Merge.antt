-- ===== src/Pmm/Merge.antt =====
-- What the allocator does when both halves of a pair are freed: the pair moves up under the
-- address of the half that was freed last, and the other half stays on its list.
use mxos_v.Base.{
  ℕ, suc, ◌+◌, ◌-◌, ◌*◌, ◌/◌, ◌%◌, ◌^◌, ◌≤◌, ◌<◌, ◌≡◌, refl, ap, sym, ◌∙◌, Bool, true, false, some,
  List, ◌∷◌, drop, length, arith,
}
use native.Mathlib.Numerals.{add-one}
use native.Mathlib.Nat.{
  one-le-pow, pow-suc, add-mul, mul-mod_left, mul-div_cancel, add-mul-mod_self_left, mod-eq_of_lt,
}
use mxos_v.Base.Bits.{div-pow_half}
use mxos_v.Bitmap
use mxos_v.Bitmap.Access.{toggle-toggle}
use mxos_v.Pmm.{
  Memory, Buddy, BuddyAllocator, DirectMap, store, pop_free_list, free_loop, pop_first,
  toggle_orders, alloc_slice, free, alloc, min_order, end_order,
}
use mxos_v.Pmm.Slices.{splice, drop-splice, length-splice, drop_next, with_slice-run}
use mxos_v.Pmm.RoundTrip.{
  get-toggle_self, toggle_run, free_loop_stop, free_loop_climb, free_run, alloc_run,
}

-- Two freed halves, `virt` first, on the two levels.
module _ (virt virt' q : ℕ) (mem : Memory) (b c : Buddy) (rest : List Buddy)
    (low : Bitmap.get b.map q ≡ some false) (high : Bitmap.get c.map (q / 2) ≡ some false)
    (pos : 0 < virt) (pos' : 0 < virt') where
  pub free_both :
      (pair pair' : ℕ)
      → pair / 2 ≡ q
      → pair' / 2 ≡ q
      → (b' : Buddy) × (m : List ℕ) × (free_loop (b ∷ c ∷ rest) pair virt mem
          ≡ some (b' ∷ c ∷ rest, (store mem virt b.free_list, true)))
        × (free_loop (b' ∷ c ∷ rest) pair' virt' (store mem virt b.free_list)
            ≡ some (
              record b { free_list = some virt }
                  ∷ record c { free_list = some virt'; map = m }
                  ∷ rest,
              (store (store mem virt b.free_list) virt' c.free_list, true),
            ))
        × (Bitmap.get m (q / 2) ≡ some true)
  free_both pair pair' e e' =
      let (w, tog) = toggle_run b.map q low in
      let (m, tog') = toggle_run c.map (q / 2) high in
      let read = get-toggle_self b.map q tog low in
      let read' = get-toggle_self c.map (q / 2) tog' high in
      let undo = toggle-toggle b.map q tog in
      let b' = record b { free_list = some virt; map = w } in
      let mem' = store mem virt b.free_list in
      let up = free_loop_stop c rest q virt' mem' {w = m} tog' pos' read' in
      (
        b',
        m,
        free_loop_stop b (c ∷ rest) pair virt mem {w = w} (rw e tog) pos (rw e read),
        free_loop_climb b' (c ∷ rest) pair' virt' mem' {w = b.map} (rw e' undo) (rw e' low)
            ∙ rw (e', up) refl,
        read',
      )

-- The state after both frees: `alloc` at the order above returns the second half.
pub record MergedWrong (d : DirectMap) (order a : ℕ) (s : BuddyAllocator) : Type 0 where
  pub half : BuddyAllocator
  pub both : BuddyAllocator
  pub after : BuddyAllocator
  pub frees_first : free d order a s ≡ some half
  pub frees_second : free d order (a + 2 ^ order) half ≡ some both
  pub allocates : alloc d (order + 1) both ≡ some (some (a + 2 ^ order), after)
  pub misaligned : (a + 2 ^ order) % 2 ^ (order + 1) ≡ 2 ^ order

twice : (k : ℕ) → 2 ^ (k + 1) ≡ 2 ^ k * 2
twice k = rw (add-one, pow-suc) refl

-- The two halves of the pair `q`, each of size `u`.
module _ (q u : ℕ) (pos : 0 < u) where
  whole : (q * 2 * u + u) ≡ (q * 2 + 1) * u
  whole = rw add-mul (ap (λ t. q * 2 * u + t) (omega arith))

  halves :
      (q * 2 * u % u ≡ 0)
      × ((q * 2 * u + u) % u ≡ 0)
      × ((q * 2 * u + u) / u / 2 ≡ q)
      × (q * 2 * u / u / 2 ≡ q)
      × ((q * 2 * u + u) % (u * 2) ≡ u)
  halves = (
    mul-mod_left (q * 2) u,
    rw whole (mul-mod_left (q * 2 + 1) u),
    rw (whole, mul-div_cancel (q * 2 + 1) pos) (omega arith),
    rw (mul-div_cancel (q * 2) pos) (omega arith),
    rw turned (add-mul-mod_self_left u (u * 2) q ∙ mod-eq_of_lt (omega arith)),
  )
    where
      turned : q * 2 * u + u ≡ u + u * 2 * q
      turned = omega arith

-- `alloc_slice` where the first list holds `a`.
module _ (d : DirectMap) (order a : ℕ) (mem : Memory) (c : Buddy) (rest : List Buddy) {v : Bool}
    (head : c.free_list ≡ some (d.to_virt a))
    (read : Bitmap.get c.map (a / 2 ^ (order + 1)) ≡ some v) where
  pub alloc_slice_head :
      (c' : Buddy) × (alloc_slice d order mem (c ∷ rest) ≡ some (c' ∷ rest, some a))
  unfolding alloc_slice pop_first pop_free_list toggle_orders
  alloc_slice_head =
      let (w, tog) = toggle_run c.map (a / 2 ^ (order + 1)) read in
      (
        record { free_list = mem (d.to_virt a); map = w },
        rw (head, pop_first, pop_free_list, d.back a, tog) refl,
      )

-- Where the bits of a pair and of the pair around it are clear, at an order that is not the last:
-- freeing both halves, the low half first, and then allocating at the order above succeeds and
-- returns the address of the high half, which is not aligned to that order.
pub merge_misaligned :
    (d : DirectMap) (order q : ℕ) (s : BuddyAllocator) (b c : Buddy) (rest : List Buddy)
    → min_order ≤ order
    → order + 1 < end_order
    → order + 1 - min_order ≤ length s.buddies
    → drop (order - min_order) s.buddies ≡ b ∷ c ∷ rest
    → Bitmap.get b.map q ≡ some false
    → Bitmap.get c.map (q / 2) ≡ some false
    → MergedWrong d order (q * 2 * 2 ^ order) s
merge_misaligned d order q s b c rest from to present tail low high =
    let u = 2 ^ order in
    let a = q * 2 * u in
    let (al, al', pr', pr, off) = halves q u (one-le-pow order 2 (omega arith)) in
    let i = order - min_order in
    let present' : i ≤ length s.buddies = omega arith in
    let (b', m, run, run', read) =
      free_both (d.to_virt a) (d.to_virt (a + u)) q s.mem b c rest low high (d.not_null a)
        (d.not_null (a + u)) (a / u) ((a + u) / u) pr pr' in
    let mem' = store s.mem (d.to_virt a) b.free_list in
    let put = λ (xs : List Buddy). free_loop xs (a / u) (d.to_virt a) s.mem in
    let put' = λ (xs : List Buddy). free_loop xs ((a + u) / u) (d.to_virt (a + u)) mem' in
    let bs = b' ∷ c ∷ rest in
    let bs' =
      record b { free_list = some (d.to_virt a) }
      ∷ record c { free_list = some (d.to_virt (a + u)); map = m }
      ∷ rest in
    let frees = with_slice-run put i s.buddies bs (mem', true) present' (rw tail run) in
    let half : BuddyAllocator = record { buddies = splice i s.buddies bs; mem = mem' } in
    let frees' =
      with_slice-run put' i half.buddies bs' (store mem' (d.to_virt (a + u)) c.free_list, true)
        (length-splice i s.buddies bs present') (rw (drop-splice i s.buddies bs present') run') in
    let mem'' = store mem' (d.to_virt (a + u)) c.free_list in
    let both : BuddyAllocator = record { buddies = splice i half.buddies bs'; mem = mem'' } in
    let c'' = record c { free_list = some (d.to_virt (a + u)); map = m } in
    let up : (a + u) / 2 ^ (order + 1 + 1) ≡ q / 2 =
      sym (div-pow_half (a + u) (order + 1))
      ∙ ap (λ t. t / 2) (sym (div-pow_half (a + u) order) ∙ pr') in
    let (c3, takes) =
      alloc_slice_head d (order + 1) (a + u) mem'' c'' rest {v = true} refl (rw up read) in
    let j = order + 1 - min_order in
    let next : order + 1 - min_order ≡ suc i = omega arith in
    let here = drop-splice i half.buddies bs' (length-splice i s.buddies bs present') in
    let (tail', long) = drop_next i (order + 1 - min_order) both.buddies next here in
    record {
      half = half;
      both = both;
      after = record both { buddies = splice j both.buddies (c3 ∷ rest) };
      frees_first = free_run d order s from a al frees;
      frees_second = free_run d order half from (a + u) al' frees';
      allocates = alloc_run d (order + 1) both (omega arith) to (
          with_slice-run (alloc_slice d (order + 1) mem'') j both.buddies (c3 ∷ rest) (some (a + u))
            long (rw tail' takes));
      misaligned = rw (twice order) off;
    }
