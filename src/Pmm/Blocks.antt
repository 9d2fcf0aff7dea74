-- ===== src/Pmm/Blocks.antt =====
-- The blocks that `free_region` cuts a region into: how they cover it, and their alignment.
use mxos_v.Base.{
  ℕ, zero, suc, ◌+◌, ◌-◌, ◌*◌, ◌/◌, ◌%◌, ◌^◌, ◌≤◌, ◌<◌, ◌≡◌, refl, ap, ap₂, sym, ◌∙◌, Bool, true,
  false, ◌&&◌, List, [], ◌∷◌, ◌==◌, leb, ltb, leb→le, if◌then◌else◌, arith, inl, inr, Bool-cases,
}
use native.Mathlib.Numerals.{add-one}
use native.Mathlib.Nat.{
  mul-mod_left, pow-suc, mul_comm, mul_assoc, add-mul, one-mul, le_refl, le_trans, mul-le-mul_right,
}
use mxos_v.Pmm.{min_order, end_order}

-- A block: its order and its address.
abbrev pub Block : Type 0
Block = ℕ × ℕ

-- The blocks that `region_loop` and `free_top` free, in order.
abbrev pub block_if : Bool → ℕ → ℕ → List Block → List Block
block_if true order addr bs = (order, addr) ∷ bs
block_if false order addr bs = bs

unfoldable pub top_blocks : ℕ → ℕ → List Block
top_blocks zero i = []
top_blocks (suc rounds) i = (end_order - 1, i * 2 ^ (end_order - 1)) ∷ top_blocks rounds (i + 1)

unfoldable pub loop_blocks : ℕ → ℕ → ℕ → ℕ → List Block
loop_blocks zero order start end = top_blocks (end - start) start
loop_blocks (suc rounds) order start end =
    let lo = start / 2 in
    let hi = end / 2 in
    elim (leb hi lo) [
      | true ↦ []
      | false ↦
          let lo' = if lo % 2 == 1 then lo + 1 else lo in
          let hi' = if hi % 2 == 1 then hi - 1 else hi in
          block_if (lo % 2 == 1) order (lo * 2 ^ order) (
            block_if (hi % 2 == 1) order (hi' * 2 ^ order) (loop_blocks rounds (order + 1) lo' hi'))
    ]

unfoldable pub region_blocks : ℕ → ℕ → List Block
region_blocks start end =
    loop_blocks (end_order - min_order) min_order (start / 2 ^ (min_order - 1))
      (end / 2 ^ (min_order - 1))

-- How many of the blocks hold the address `x`.
abbrev pub inside : ℕ → ℕ → ℕ → ℕ
inside x lo hi = if leb lo x && ltb x hi then 1 else 0

abbrev pub covering : ℕ → List Block → ℕ
covering x [] = 0
covering x ((order, addr) ∷ bs) = inside x addr (addr + 2 ^ order) + covering x bs

inside-join : (x a b c : ℕ) → a ≤ b → b ≤ c → inside x a b + inside x b c ≡ inside x a c
inside-join x a b c h k = ground arith

inside-empty : (x a b : ℕ) → b ≤ a → inside x a b ≡ 0
inside-empty x a b h = ground arith

covering-top :
    (x rounds i : ℕ)
    → covering x (top_blocks rounds i) ≡ inside x (i * 2 ^ 21) ((i + rounds) * 2 ^ 21)
unfolding top_blocks
covering-top x zero i = ground arith
covering-top x (suc rounds) i = ground (arith, covering-top x rounds (i + 1))

covering-block_if :
    (x : ℕ) (t : Bool) (order addr : ℕ) (bs : List Block)
    → covering x (block_if t order addr bs)
      ≡ (if t then inside x addr (addr + 2 ^ order) else 0) + covering x bs
covering-block_if x true order addr bs = refl
covering-block_if x false order addr bs = omega arith

twice : (k : ℕ) → 2 ^ (k + 1) ≡ 2 ^ k * 2
twice k = rw (add-one, pow-suc) refl

-- One round over a unit `u`: the odd ends are cut off, and the rest is even.
module _ (lo hi : ℕ) where
  abbrev pub lo' : ℕ
  lo' = if lo % 2 == 1 then lo + 1 else lo

  abbrev pub hi' : ℕ
  hi' = if hi % 2 == 1 then hi - 1 else hi

  ends_even : lo < hi → (lo' % 2 ≡ 0) × (hi' % 2 ≡ 0) × (lo' ≤ hi') × (lo ≤ lo') × (hi' ≤ hi)
  ends_even lt = ground arith

module _ (x lo hi u : ℕ) (lt : lo < hi) where
  cut_low :
      (if lo % 2 == 1 then inside x (lo * u) (lo * u + u) else 0)
      ≡ inside x (lo * u) (lo' lo hi * u)
  cut_low = elim (Bool-cases (lo % 2 == 1)) [
    | inl odd ↦ rw (odd, add-mul lo 1 u, one-mul)
    | inr even ↦ rw even (sym (inside-empty x (lo * u) (lo * u) (le_refl _)))
  ]

  cut_high :
      (if hi % 2 == 1 then inside x (hi' lo hi * u) (hi' lo hi * u + u) else 0)
      ≡ inside x (hi' lo hi * u) (hi * u)
  cut_high = elim (Bool-cases (hi % 2 == 1)) [
    | inl odd ↦
        let e : (hi - 1) * u + u ≡ hi * u =
          ap (λ t. (hi - 1) * u + t) (sym (one-mul u))
          ∙ sym (add-mul (hi - 1) 1 u)
          ∙ ap (λ t. t * u) (omega arith) in
        rw (odd, e)
    | inr even ↦ rw even (sym (inside-empty x (hi * u) (hi * u) (le_refl _)))
  ]

  round :
      (if lo % 2 == 1 then inside x (lo * u) (lo * u + u) else 0)
        + ((if hi % 2 == 1 then inside x (hi' lo hi * u) (hi' lo hi * u + u) else 0)
            + inside x (lo' lo hi * u) (hi' lo hi * u))
      ≡ inside x (lo * u) (hi * u)
  round =
      let (_, _, mid, below, above) = ends_even lo hi lt in
      ground (
        arith,
        cut_low,
        cut_high,
        inside-join x (lo * u) (lo' lo hi * u) (hi' lo hi * u) (mul-le-mul_right u below)
            (mul-le-mul_right u mid),
        inside-join x (lo * u) (hi' lo hi * u) (hi * u) (mul-le-mul_right u (le_trans below mid))
            (mul-le-mul_right u above),
      )

covering-last :
    (x start end : ℕ)
    → start % 2 ≡ 0
    → end % 2 ≡ 0
    → covering x (loop_blocks 0 22 start end) ≡ inside x (start / 2 * 2 ^ 22) (end / 2 * 2 ^ 22)
unfolding loop_blocks
covering-last x start end es ee = ground (arith, covering-top x (end - start) start)

double : (order t : ℕ) → t % 2 ≡ 0 → t / 2 * 2 ^ (order + 1) ≡ t * 2 ^ order
double order t h =
    rw (twice order, mul_comm (2 ^ order) 2, ← mul_assoc (t / 2) 2 (2 ^ order))
      (ap (λ k. k * 2 ^ order) (omega arith))

-- The two outcomes of a round of the loop.
module _ (rounds order start end : ℕ) where
  pub loop_stop : leb (end / 2) (start / 2) ≡ true → loop_blocks (suc rounds) order start end ≡ []
  unfolding loop_blocks
  loop_stop h = rw (h, loop_blocks)

  pub loop_go :
      leb (end / 2) (start / 2) ≡ false
      → loop_blocks (suc rounds) order start end
        ≡ block_if (start / 2 % 2 == 1) order (start / 2 * 2 ^ order) (
            block_if (end / 2 % 2 == 1) order (hi' (start / 2) (end / 2) * 2 ^ order) (
              loop_blocks rounds
                (order + 1)
                (lo' (start / 2) (end / 2))
                (hi' (start / 2) (end / 2))))
  unfolding loop_blocks
  loop_go h = rw (h, loop_blocks)

covering-loop :
    (x rounds order start end : ℕ)
    → order + rounds ≡ 22
    → start % 2 ≡ 0
    → end % 2 ≡ 0
    → covering x (loop_blocks rounds order start end)
      ≡ inside x (start / 2 * 2 ^ order) (end / 2 * 2 ^ order)
covering-loop x zero order start end o es ee =
    let at_top : order ≡ 22 = omega arith in rw at_top (covering-last x start end es ee)
covering-loop x (suc rounds) order start end o es ee =
    elim (Bool-cases (leb (end / 2) (start / 2))) [
      | inl stop ↦ rw (loop_stop rounds order start end stop) (
          sym (
            inside-empty x (start / 2 * 2 ^ order) (end / 2 * 2 ^ order)
              (mul-le-mul_right (2 ^ order) (leb→le (end / 2) (start / 2) stop))))
      | inr go ↦
          let lo = start / 2 in
          let hi = end / 2 in
          let u = 2 ^ order in
          let lt : lo < hi = ground (arith, go) in
          let (lo_even, hi_even, _, _, _) = ends_even lo hi lt in
          let ih =
            covering-loop x rounds (order + 1) (lo' lo hi) (hi' lo hi) (omega arith) lo_even
              hi_even in
          let back : (t : ℕ) → t % 2 ≡ 0 → t / 2 * 2 ^ (order + 1) ≡ t * u = double order in
          rw
            (
              loop_go rounds order start end go,
              covering-block_if,
              covering-block_if,
              ih,
              back _ lo_even,
              back _ hi_even,
            )
            (round x lo hi u lt)
    ]

pub covering-region_blocks :
    (start end x : ℕ)
    → start % 2 ^ min_order ≡ 0
    → end % 2 ^ min_order ≡ 0
    → covering x (region_blocks start end) ≡ inside x start end
unfolding region_blocks
covering-region_blocks start end x hs he =
    covering-loop x 10 12 (start / 2 ^ 11) (end / 2 ^ 11) refl (omega arith) (omega arith)
    ∙ ap₂ (λ a b. inside x a b) (omega arith) (omega arith)

-- Every block has an order of the allocator and is aligned to its size.
abbrev pub IsAligned : List Block → Type 0
IsAligned [] = Unit
IsAligned ((order, addr) ∷ bs) =
    ((min_order ≤ order) × (order < end_order) × (addr % 2 ^ order ≡ 0)) × IsAligned bs

block_if-IsAligned :
    (t : Bool) (order n : ℕ) (bs : List Block)
    → min_order ≤ order
    → order < end_order
    → IsAligned bs
    → IsAligned (block_if t order (n * 2 ^ order) bs)
block_if-IsAligned true order n bs h k a = ((h, k, mul-mod_left n (2 ^ order)), a)
block_if-IsAligned false order n bs h k a = a

top_blocks-IsAligned : (rounds i : ℕ) → IsAligned (top_blocks rounds i)
unfolding top_blocks
top_blocks-IsAligned zero i = tt
top_blocks-IsAligned (suc rounds) i =
    ((omega arith, omega arith, mul-mod_left i (2 ^ 21)), top_blocks-IsAligned rounds (i + 1))

loop_blocks-IsAligned :
    (rounds order start end : ℕ)
    → min_order ≤ order
    → order + rounds ≡ 22
    → IsAligned (loop_blocks rounds order start end)
loop_blocks-IsAligned zero order start end h o =
    unfold loop_blocks in top_blocks-IsAligned (end - start) start
loop_blocks-IsAligned (suc rounds) order start end h o =
    elim (Bool-cases (leb (end / 2) (start / 2))) [
      | inl stop ↦ rw (loop_stop rounds order start end stop) tt
      | inr go ↦
          let lo = lo' (start / 2) (end / 2) in
          let hi = hi' (start / 2) (end / 2) in
          let hi_odd = end / 2 % 2 == 1 in
          let others = loop_blocks rounds (order + 1) lo hi in
          let rest = loop_blocks-IsAligned rounds (order + 1) lo hi (omega arith) (omega arith) in
          rw (loop_go rounds order start end go) (
            block_if-IsAligned (start / 2 % 2 == 1) order (start / 2)
              (block_if hi_odd order (hi * 2 ^ order) others) h (omega arith)
              (block_if-IsAligned hi_odd order hi others h (omega arith) rest))
    ]

pub region_blocks-IsAligned : (start end : ℕ) → IsAligned (region_blocks start end)
unfolding region_blocks
region_blocks-IsAligned start end =
    loop_blocks-IsAligned 10 12 (start / 2 ^ 11) (end / 2 ^ 11) (omega arith) refl
