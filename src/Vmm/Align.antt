-- ===== src/Vmm/Align.antt =====
-- Rounding an address up to a power of two.
use mxos_v.Base.{
  ℕ, ◌+◌, ◌-◌, ◌*◌, ◌/◌, ◌%◌, ◌^◌, ◌≤◌, ◌<◌, ◌≡◌, ap, sym, ◌∙◌, ltb, ltb→lt, ltb→ge, Bool-cases,
  inl, inr, bit_and, bit_or, arith,
}
use native.Mathlib.Nat.{pow-le-pow_right, one-le-pow, div-add-mod', mod-lt, mul_assoc, mul-mod_left}
use mxos_v.Base.Bits.{bit_not, or-zero, set_bits, set_bits_lem, mul-pow-add}
use mxos_v.Vmm.{round_up, align_of}

-- Rounding up to a power of two.
clear_low :
    (n r k x : ℕ) → n ≡ r + k → x < 2 ^ n → bit_and x (bit_not n (2 ^ k - 1)) ≡ x / 2 ^ k * 2 ^ k
clear_low n r k x e h =
    let e' : n ≡ r + (k + 0) = omega arith in
    let m : (2 ^ k - 1) * 2 ^ 0 ≡ 2 ^ k - 1 = omega arith in
    let one : x / 2 ^ 0 ≡ x = omega arith in
    let none_below : x % 2 ^ 0 ≡ 0 = omega arith in
    sym (or-zero _)
    ∙ ap (λ t. bit_or (bit_and x (bit_not n t)) 0) (sym m)
    ∙ ap (λ t. set_bits t 0 k x 0) e'
    ∙ set_bits_lem r k 0 x 0 (rw (← e') h) (one-le-pow k 2 (omega arith))
    ∙ rw (one, none_below) (omega arith)

pub round_up_lem :
    (k a : ℕ)
    → k < 64
    → a + 2 ^ k - 1 < 2 ^ 64
    → round_up (2 ^ k) a ≡ (a + 2 ^ k - 1) / 2 ^ k * 2 ^ k
round_up_lem k a hk h =
    let wrap : (a + 2 ^ k - 1) % 2 ^ 64 ≡ a + 2 ^ k - 1 = omega arith in
    rw wrap (clear_low 64 (64 - k) k (a + 2 ^ k - 1) (omega arith) h)

-- A page address rounded up to a multiple of `u` pages.
round_bounds :
    (a u q rem : ℕ)
    → a % 4096 ≡ 0
    → rem < u * 4096
    → a + u * 4096 - 1 ≡ q * (u * 4096) + rem
    → (a ≤ q * (u * 4096)) × (q * (u * 4096) - a + 4096 ≤ u * 4096) × (q * (u * 4096) % 4096 ≡ 0)
round_bounds a u q rem ha hr e =
    let flat : q * (u * 4096) ≡ q * u * 4096 = sym (mul_assoc q u 4096) in
    (omega arith, omega arith, omega arith)

-- The rounded address of an entry: aligned, and close to the entry's own.
pub round_page :
    (k a : ℕ)
    → 12 ≤ k
    → k < 64
    → a % 4096 ≡ 0
    → a + 2 ^ k - 1 < 2 ^ 64
    → (round_up (2 ^ k) a % 2 ^ k ≡ 0)
      × (a ≤ round_up (2 ^ k) a)
      × (round_up (2 ^ k) a - a + 4096 ≤ 2 ^ k)
round_page k a lo hi ha h =
    let u = 2 ^ (k - 12) in
    let parts : k ≡ k - 12 + 12 = omega arith in
    let e : 2 ^ k ≡ u * 4096 = ap (λ t. 2 ^ t) parts ∙ omega (arith, mul-pow-add 1 12 (k - 12)) in
    let pos : 0 < 2 ^ k = one-le-pow k 2 (omega arith) in
    let q = (a + 2 ^ k - 1) / 2 ^ k in
    let rem = (a + 2 ^ k - 1) % 2 ^ k in
    let small : rem < u * 4096 = omega (arith, mod-lt (a + 2 ^ k - 1) pos) in
    let split : a + u * 4096 - 1 ≡ q * (u * 4096) + rem =
      rw (← e) (sym (div-add-mod' (a + 2 ^ k - 1) (2 ^ k))) in
    let (ge, near, _) = round_bounds a u q rem ha small split in
    rw (round_up_lem k a hi h) (
      mul-mod_left q (2 ^ k),
      omega (arith, ap (λ t. q * t) e, ge),
      omega (arith, ap (λ t. q * t) e, near, e),
    )

pub align_pow : (order : ℕ) → order < 64 → (k : ℕ) × (12 ≤ k) × (k < 64) × (align_of order ≡ 2 ^ k)
align_pow order h = elim (Bool-cases (ltb order 12)) [
  | inl low ↦
      let le : 2 ^ order ≤ 2 ^ 12 =
        pow-le-pow_right (omega arith) {i = order} {j = 12} (omega (arith, ltb→lt order 12 low)) in
      (12, omega arith, omega arith, omega arith)
  | inr high ↦
      let le : 2 ^ 12 ≤ 2 ^ order =
        pow-le-pow_right (omega arith) {i = 12} (ltb→ge order 12 high) in
      (order, ltb→ge order 12 high, h, omega arith)
]
