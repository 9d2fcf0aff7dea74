-- ===== src/Pmm/Region.antt =====
-- `free_region` as a sequence of frees of blocks.
use mxos_v.Base.{
  ℕ, zero, suc, ◌+◌, ◌-◌, ◌*◌, ◌/◌, ◌%◌, ◌^◌, ◌≡◌, refl, ap, Option-cases, Bool, true, false,
  Option, some, List, [], ◌∷◌, ◌>>=◌, ◌==◌, leb, leb→le, arith, inl, inr, Bool-cases,
}
use mathlib.Core.Path.{fun_ext}
use native.Mathlib.Nat.{}
use mxos_v.Pmm.{
  BuddyAllocator, DirectMap, free, free_if, region_loop, free_top, free_region, min_order,
}
use mxos_v.Pmm.Blocks.{
  Block, block_if, top_blocks, loop_blocks, region_blocks, inside, covering, IsAligned, lo', hi',
  loop_stop, loop_go, covering-region_blocks, region_blocks-IsAligned,
}

module _ (d : DirectMap) where
  -- The frees in order; a panic stops them.
  pub free_all : List Block → BuddyAllocator → Option BuddyAllocator
  free_all [] s = some s
  free_all ((order, addr) ∷ bs) s = free d order addr s >>= λ s'. free_all bs s'

  finish : Option (ℕ × ℕ × BuddyAllocator) → Option BuddyAllocator
  finish m = m >>= λ r. free_top d (r.1 - r.0) r.0 r.2

  free_all-top :
      (rounds i : ℕ) (s : BuddyAllocator) → free_top d rounds i s ≡ free_all (top_blocks rounds i) s
  unfolding free_all free_top top_blocks
  free_all-top zero i s = refl
  free_all-top (suc rounds) i s =
      ap (λ k. free d 21 (i * 2 ^ 21) s >>= k) (fun_ext λ s'. free_all-top rounds (i + 1) s')

  -- A conditional free in front of work that frees the rest.
  free_all-block_if :
      (t : Bool) (order addr : ℕ) (bs : List Block)
      (k : BuddyAllocator → Option (ℕ × ℕ × BuddyAllocator)) (s : BuddyAllocator)
      → ((s' : BuddyAllocator) → finish (k s') ≡ free_all bs s')
      → finish (free_if d t order addr s >>= k) ≡ free_all (block_if t order addr bs) s
  unfolding free_all free_if finish
  free_all-block_if false order addr bs k s h = h s
  free_all-block_if true order addr bs k s h = elim (Option-cases (free d order addr s)) [
    | inl e ↦ rw e
    | inr (s', e) ↦ rw e (h s')
  ]

  region_stop :
      (rounds order start end : ℕ) (s : BuddyAllocator)
      → leb (end / 2) (start / 2) ≡ true
      → finish (region_loop d (suc rounds) order start end s) ≡ some s
  unfolding region_loop finish free_top
  region_stop rounds order start end s h =
      let none_left : end / 2 - start / 2 ≡ 0 = omega (arith, leb→le (end / 2) (start / 2) h) in
      rw (h, region_loop, none_left)

  region_go :
      (rounds order start end : ℕ) (s : BuddyAllocator)
      → leb (end / 2) (start / 2) ≡ false
      → region_loop d (suc rounds) order start end s ≡ (
          free_if d (start / 2 % 2 == 1) order (start / 2 * 2 ^ order) s >>= λ s1.
          free_if d (end / 2 % 2 == 1) order (hi' (start / 2) (end / 2) * 2 ^ order) s1 >>= λ s2.
          region_loop d rounds
            (order + 1)
            (lo' (start / 2) (end / 2))
            (hi' (start / 2) (end / 2))
            s2)
  unfolding region_loop
  region_go rounds order start end s h = rw (h, region_loop)

  free_all-loop :
      (rounds order start end : ℕ) (s : BuddyAllocator)
      → finish (region_loop d rounds order start end s)
        ≡ free_all (loop_blocks rounds order start end) s
  free_all-loop zero order start end s =
      unfold finish region_loop loop_blocks in free_all-top (end - start) start s
  free_all-loop (suc rounds) order start end s = elim (Bool-cases (leb (end / 2) (start / 2))) [
    | inl stop ↦
        rw (region_stop rounds order start end s stop, loop_stop rounds order start end stop)
          (unfold free_all in refl)
    | inr go ↦
        let lo = lo' (start / 2) (end / 2) in
        let hi = hi' (start / 2) (end / 2) in
        let next = λ (s2 : BuddyAllocator). region_loop d rounds (order + 1) lo hi s2 in
        let others = loop_blocks rounds (order + 1) lo hi in
        let second = λ (s1 : BuddyAllocator).
          free_if d (end / 2 % 2 == 1) order (hi * 2 ^ order) s1 >>= next in
        rw (region_go rounds order start end s go, loop_go rounds order start end go)
          (free_all-block_if (start / 2 % 2 == 1) order (start / 2 * 2 ^ order)
            (block_if (end / 2 % 2 == 1) order (hi * 2 ^ order) others) second s
            (λ s1.
              free_all-block_if (end / 2 % 2 == 1) order (hi * 2 ^ order) others next s1
                (λ s2. free_all-loop rounds (order + 1) lo hi s2)))
  ]

  pub free_region-eq-free_all :
      (start end : ℕ) (s : BuddyAllocator)
      → start % 2 ^ min_order ≡ 0
      → end % 2 ^ min_order ≡ 0
      → free_region d start end s ≡ free_all (region_blocks start end) s
  unfolding free_region region_blocks
  free_region-eq-free_all start end s hs he =
      rw (hs, he) (unfold finish in free_all-loop 10 12 (start / 2 ^ 11) (end / 2 ^ 11) s)

-- On a region with aligned ends, `free_region` is a sequence of frees of blocks, stopping at a
-- panic. The blocks cover each address of the region once and no other address, and each has an
-- order from 12 to 21 and an address aligned to that order.
pub free_region-blocks :
    (d : DirectMap) (start end : ℕ) (s : BuddyAllocator)
    → start % 2 ^ min_order ≡ 0
    → end % 2 ^ min_order ≡ 0
    → (blocks : List Block) × (free_region d start end s ≡ free_all d blocks s)
      × ((x : ℕ) → covering x blocks ≡ inside x start end)
      × IsAligned blocks
free_region-blocks d start end s hs he = (
  region_blocks start end,
  free_region-eq-free_all d start end s hs he,
  λ x. covering-region_blocks start end x hs he,
  region_blocks-IsAligned start end,
)
