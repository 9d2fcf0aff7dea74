-- ===== src/Base/Bits/Fields.antt =====
-- A bit field of a word: reading `(x >> k) & mask` and writing `x & !(mask << k) | v << k`, as
-- arithmetic, at every position and width.
use Prim.Native.Nat.{
  ℕ, zero, suc, ◌+◌, ◌-◌, ◌*◌, ◌/◌, ◌%◌, ◌^◌, ◌≤◌, ◌<◌, min, max, bit_and, bit_or, bit_or-bitwise,
  bit_and-bitwise,
}
use mathlib.Core.Path.{◌≡◌, refl, ap, ◌∙◌}
use native.Mathlib.Nat.{
  pow-suc, one-le-pow, mul_assoc, zero-add, suc-add, div-add-mod', mod-lt, add-sub_cancel,
  div-lt_iff_lt-mul,
}
use native.Mathlib.Omega.{arith}
use mxos_v.Base.Bits.Step.{bit_or_step, bit_and_step}

pub mul-pow-suc : (p k : ℕ) → p * 2 ^ suc k ≡ 2 * (p * 2 ^ k)
mul-pow-suc p k = omega (arith, ap (λ (t : ℕ). p * t) (pow-suc 2 k))

pub mul-pow-add : (p k n : ℕ) → p * 2 ^ (n + k) ≡ p * 2 ^ n * 2 ^ k
mul-pow-add p k zero = rw (zero-add) (omega arith)
mul-pow-add p k (suc n) = rw (suc-add) (
    ground (
      arith,
      mul-pow-suc p (n + k),
      mul-pow-suc p n,
      mul-pow-add p k n,
      mul_assoc 2 (p * 2 ^ n) (2 ^ k),
    ))

-- A digitwise operation works on the part above bit `k` and on the part below it alone.
module _ (op f : ℕ → ℕ → ℕ)
    (step : (a b : ℕ) → op a b ≡ op (a / 2) (b / 2) * 2 + f (a % 2) (b % 2)) where
  pub op-split :
      (k p q r s : ℕ)
      → r < 2 ^ k
      → s < 2 ^ k
      → op (p * 2 ^ k + r) (q * 2 ^ k + s) ≡ op p q * 2 ^ k + op r s
  op-split zero p q r s hr hs =
      let er : r ≡ 0 = omega arith in let es : s ≡ 0 = omega arith in ground (arith, step 0 0)
  op-split (suc k) p q r s hr hs = ground (
    arith,
    step (p * 2 ^ suc k + r) (q * 2 ^ suc k + s),
    step r s,
    mul-pow-suc p k,
    mul-pow-suc q k,
    mul-pow-suc (op p q) k,
    pow-suc 2 k,
    op-split k p q (r / 2) (s / 2) (omega (arith, pow-suc 2 k)) (omega (arith, pow-suc 2 k)),
  )

and-split :
    (k p q r s : ℕ)
    → r < 2 ^ k
    → s < 2 ^ k
    → bit_and (p * 2 ^ k + r) (q * 2 ^ k + s) ≡ bit_and p q * 2 ^ k + bit_and r s
and-split k p q r s = op-split bit_and min bit_and_step k p q r s

or-split :
    (k p q r s : ℕ)
    → r < 2 ^ k
    → s < 2 ^ k
    → bit_or (p * 2 ^ k + r) (q * 2 ^ k + s) ≡ bit_or p q * 2 ^ k + bit_or r s
or-split k p q r s = op-split bit_or max bit_or_step k p q r s

below-zero : (a : ℕ) → a ≤ 0 → a ≡ 0
below-zero a h = omega arith

-- With every bit set `&` changes nothing, with none it gives 0, and `|` with 0 changes nothing.
pub and-ones : (k a : ℕ) → a < 2 ^ k → bit_and a (2 ^ k - 1) ≡ a
and-ones zero a h = let e : a ≡ 0 = omega arith in rw e
and-ones (suc k) a h = ground (
  arith,
  bit_and_step a (2 ^ suc k - 1),
  pow-suc 2 k,
  one-le-pow k 2,
  and-ones k (a / 2) (omega (arith, pow-suc 2 k)),
)

and_zero_fuel : (n a : ℕ) → a ≤ n → bit_and a 0 ≡ 0
and_zero_fuel zero a h = rw (below-zero a h)
and_zero_fuel (suc n) zero h = refl
and_zero_fuel (suc n) (suc a) h =
    omega (arith, bit_and_step (suc a) 0, and_zero_fuel n (suc a / 2) (omega arith))

pub and-zero : (a : ℕ) → bit_and a 0 ≡ 0
and-zero a = and_zero_fuel a a (omega arith)

or_zero_fuel : (n a : ℕ) → a ≤ n → bit_or a 0 ≡ a
or_zero_fuel zero a h = rw (below-zero a h)
or_zero_fuel (suc n) zero h = refl
or_zero_fuel (suc n) (suc a) h =
    omega (arith, bit_or_step (suc a) 0, or_zero_fuel n (suc a / 2) (omega arith))

pub or-zero : (a : ℕ) → bit_or a 0 ≡ a
or-zero a = or_zero_fuel a a (omega arith)

pub zero-or : (a : ℕ) → bit_or 0 a ≡ a
zero-or a = bit_or-bitwise 0 a

zero-and : (a : ℕ) → bit_and 0 a ≡ 0
zero-and a = bit_and-bitwise 0 a

and_comm_fuel : (n a b : ℕ) → a ≤ n → bit_and a b ≡ bit_and b a
and_comm_fuel n zero b h = rw (and-zero b) (zero-and b)
and_comm_fuel zero (suc a) b h = absurd (omega arith)
and_comm_fuel (suc n) (suc a) b h = ground (
  arith,
  bit_and_step (suc a) b,
  bit_and_step b (suc a),
  and_comm_fuel n (suc a / 2) (b / 2) (omega arith),
)

pub bit_and_comm : (a b : ℕ) → bit_and a b ≡ bit_and b a
bit_and_comm a b = and_comm_fuel a a b (omega arith)

pub and-mask : (k a : ℕ) → bit_and a (2 ^ k - 1) ≡ a % 2 ^ k
and-mask k a =
    let pos : 1 ≤ 2 ^ k = one-le-pow k 2 (omega arith) in
    let lt : a % 2 ^ k < 2 ^ k = mod-lt a pos in
    ground (
      arith,
      div-add-mod' a (2 ^ k),
      and-split k (a / 2 ^ k) 0 (a % 2 ^ k) (2 ^ k - 1),
      and-zero (a / 2 ^ k),
      and-ones k (a % 2 ^ k),
    )

pub or-shift : (k p l : ℕ) → l < 2 ^ k → bit_or (p * 2 ^ k) l ≡ p * 2 ^ k + l
or-shift k p l h = ground (arith, one-le-pow k 2, or-split k p 0 0 l, or-zero p, zero-or l)

-- `!m` on words of `n` bits.
abbrev pub bit_not : ℕ → ℕ → ℕ
bit_not n m = 2 ^ n - 1 - m

-- `x >> k & mask` for a mask of `w` ones.
abbrev pub get_bits : (k w x : ℕ) → ℕ
get_bits k w x = bit_and (x / 2 ^ k) (2 ^ w - 1)

-- `x &= !(mask << k); x |= v << k` on words of `n` bits.
abbrev pub set_bits : (n k w x v : ℕ) → ℕ
set_bits n k w x v = bit_or (bit_and x (bit_not n ((2 ^ w - 1) * 2 ^ k))) (v * 2 ^ k)

-- `p` above, `m` in and `l` below a field of `w` bits at `k`.
abbrev pub layout : (k w p m l : ℕ) → ℕ
layout k w p m l = (p * 2 ^ w + m) * 2 ^ k + l

pow-sum : (r w k : ℕ) → 2 ^ (r + (w + k)) ≡ 2 ^ r * 2 ^ w * 2 ^ k
pow-sum r w k = omega (arith, mul-pow-add 1 (w + k) r, mul-pow-add (2 ^ r) k w)

pow-pred : (n : ℕ) → (m : ℕ) × (2 ^ n ≡ m + 1)
pow-pred n = (2 ^ n - 1, omega (arith, one-le-pow n 2))

not-field_suc :
    (a b c : ℕ)
    → (a + 1) * (b + 1) * (c + 1) - 1 - (b + 1 - 1) * (c + 1)
      ≡ ((a + 1 - 1) * (b + 1) + 0) * (c + 1) + (c + 1 - 1)
not-field_suc a b c = rw (add-sub_cancel b 1, add-sub_cancel a 1, add-sub_cancel c 1) (omega arith)

module _ (r w k : ℕ) where
  not-field : bit_not (r + (w + k)) ((2 ^ w - 1) * 2 ^ k) ≡ layout k w (2 ^ r - 1) 0 (2 ^ k - 1)
  not-field =
      let (a, ea) = pow-pred r in
      let (b, eb) = pow-pred w in
      let (c, ec) = pow-pred k in rw (pow-sum r w k, ea, eb, ec) (not-field_suc a b c)

  and-field :
      (p m l : ℕ)
      → p < 2 ^ r
      → m < 2 ^ w
      → l < 2 ^ k
      → bit_and (layout k w p m l) (layout k w (2 ^ r - 1) 0 (2 ^ k - 1)) ≡ layout k w p 0 l
  and-field p m l hp hm hl = ground (
    arith,
    one-le-pow k 2,
    one-le-pow w 2,
    and-split k (p * 2 ^ w + m) ((2 ^ r - 1) * 2 ^ w + 0) l (2 ^ k - 1),
    and-split w p (2 ^ r - 1) m 0,
    and-ones k l,
    and-ones r p,
    and-zero m,
  )

  or-field :
      (p l v : ℕ) → v < 2 ^ w → l < 2 ^ k → bit_or (layout k w p 0 l) (v * 2 ^ k) ≡ layout k w p v l
  or-field p l v hv hl = ground (
    arith,
    one-le-pow k 2,
    one-le-pow w 2,
    or-split k (p * 2 ^ w + 0) v l 0,
    or-split w p 0 0 v,
    or-zero l,
    or-zero p,
    zero-or v,
  )

  layout-parts : (x : ℕ) → x ≡ layout k w (x / 2 ^ k / 2 ^ w) (x / 2 ^ k % 2 ^ w) (x % 2 ^ k)
  layout-parts x = rw (div-add-mod' (x / 2 ^ k) (2 ^ w), div-add-mod' x (2 ^ k))

  high-lt : (x : ℕ) → x < 2 ^ (r + (w + k)) → x / 2 ^ k / 2 ^ w < 2 ^ r
  high-lt x h =
      (div-lt_iff_lt-mul (one-le-pow w 2 (omega arith))).1
        ((div-lt_iff_lt-mul (one-le-pow k 2 (omega arith))).1 (rw (← pow-sum r w k) h))

  -- Writing a field keeps the parts above and below it.
  pub set_bits_lem :
      (x v : ℕ)
      → x < 2 ^ (r + (w + k))
      → v < 2 ^ w
      → set_bits (r + (w + k)) k w x v ≡ layout k w (x / 2 ^ k / 2 ^ w) v (x % 2 ^ k)
  set_bits_lem x v hx hv =
      let in_low : x % 2 ^ k < 2 ^ k = mod-lt x (one-le-pow k 2 (omega arith)) in
      let in_mid : x / 2 ^ k % 2 ^ w < 2 ^ w = mod-lt (x / 2 ^ k) (one-le-pow w 2 (omega arith)) in
      ap (λ t. bit_or (bit_and x t) (v * 2 ^ k)) not-field
      ∙ ap (λ t. bit_or (bit_and t (layout k w (2 ^ r - 1) 0 (2 ^ k - 1))) (v * 2 ^ k))
          (layout-parts x)
      ∙ ap (λ t. bit_or t (v * 2 ^ k)) (and-field _ _ _ (high-lt x hx) in_mid in_low)
      ∙ or-field _ _ v hv in_low
