-- ===== src/Apic/Layout.antt =====
-- Registers as lists of fields: the widths of the fields from bit 0 on, the values that a word
-- holds in them, and the write of one field.
use mxos_v.Base.{
  ℕ, zero, suc, ◌+◌, ◌*◌, ◌/◌, ◌%◌, ◌^◌, ◌<◌, ◌≡◌, refl, ap, ap₂, ◌∙◌, List, [], ◌∷◌, set, Bool,
  true, false, arith,
}
use mxos_v.Apic.{from_bool, to_bool}
use mxos_v.Base.Bits.{get_bits, set_bits, set_bits_lem, and-mask, layout}
use native.Mathlib.Nat.{
  one-le-pow, mod-lt, mul-add-div, mul_comm, mul-add-mod_self_left, div-eq_of_lt, mod-eq_of_lt,
  add-zero,
}

-- The values of the fields of a word.
abbrev pub fields : List ℕ → ℕ → List ℕ
fields [] x = []
fields (w ∷ ws) x = (x % 2 ^ w) ∷ fields ws (x / 2 ^ w)

-- The word with another value in field `i`.
abbrev pub with_field : List ℕ → ℕ → ℕ → ℕ → ℕ
with_field [] i v x = x
with_field (w ∷ ws) zero v x = 2 ^ w * (x / 2 ^ w) + v
with_field (w ∷ ws) (suc i) v x = 2 ^ w * with_field ws i v (x / 2 ^ w) + x % 2 ^ w

-- The value fits in field `i`.
abbrev pub Fits : List ℕ → ℕ → ℕ → Type 0
Fits [] i v = ⊥
Fits (w ∷ ws) zero v = v < 2 ^ w
Fits (w ∷ ws) (suc i) v = Fits ws i v

module _ (w q r : ℕ) (h : r < 2 ^ w) where
  above : (2 ^ w * q + r) / 2 ^ w ≡ q
  above = rw (mul-add-div (one-le-pow w 2 (omega arith)) q r, div-eq_of_lt h) (add-zero q)

  below : (2 ^ w * q + r) % 2 ^ w ≡ r
  below = rw (mul-add-mod_self_left (2 ^ w) q r) (mod-eq_of_lt h)

-- The write of a field changes that field alone.
pub fields-with_field :
    (ws : List ℕ) (i v x : ℕ)
    → Fits ws i v
    → fields ws (with_field ws i v x) ≡ set (fields ws x) i v
fields-with_field [] i v x h = absurd h
fields-with_field (w ∷ ws) zero v x h =
    ap₂ (λ a b. a ∷ fields ws b) (below w (x / 2 ^ w) v h) (above w (x / 2 ^ w) v h)
fields-with_field (w ∷ ws) (suc i) v x h =
    let low = mod-lt x (one-le-pow w 2 (omega arith)) in
    let y = with_field ws i v (x / 2 ^ w) in
    ap₂ (λ a b. a ∷ fields ws b) (below w y (x % 2 ^ w) low) (above w y (x % 2 ^ w) low)
    ∙ ap (λ t. (x % 2 ^ w) ∷ t) (fields-with_field ws i v (x / 2 ^ w) h)

-- The update `x & !(mask << k) | v << k` of field `i` of a word of `r + (w + k)` bits.
module _ (ws : List ℕ) (i r w k x v : ℕ) (hx : x < 2 ^ (r + (w + k))) (hv : v < 2 ^ w)
    (fits : Fits ws i v)
    (place : layout k w (x / 2 ^ k / 2 ^ w) v (x % 2 ^ k) ≡ with_field ws i v x) where
  pub fields-set_bits : fields ws (set_bits (r + (w + k)) k w x v) ≡ set (fields ws x) i v
  fields-set_bits =
      ap (λ t. fields ws t) (set_bits_lem r w k x v hx hv ∙ place) ∙ fields-with_field ws i v x fits

-- The field that was written is read back.
pub get_bits-set_bits :
    (r w k x v : ℕ)
    → x < 2 ^ (r + (w + k))
    → v < 2 ^ w
    → get_bits k w (set_bits (r + (w + k)) k w x v) ≡ v
get_bits-set_bits r w k x v hx hv =
    let low = mod-lt x (one-le-pow k 2 (omega arith)) in
    let q = x / 2 ^ k / 2 ^ w in
    and-mask w (set_bits (r + (w + k)) k w x v / 2 ^ k)
    ∙ ap (λ t. t / 2 ^ k % 2 ^ w) (set_bits_lem r w k x v hx hv)
    ∙ ap (λ t. t % 2 ^ w)
        (ap (λ t. (t + x % 2 ^ k) / 2 ^ k) (mul_comm (q * 2 ^ w + v) (2 ^ k))
          ∙ above k (q * 2 ^ w + v) (x % 2 ^ k) low)
    ∙ ap (λ t. (t + v) % 2 ^ w) (mul_comm q (2 ^ w))
    ∙ below w q v hv

pub from_bool_lt : (b : Bool) → from_bool b < 2 ^ 1
from_bool_lt false = omega arith
from_bool_lt true = omega arith

pub to_bool-from_bool : (b : Bool) → to_bool (from_bool b) ≡ b
to_bool-from_bool false = refl
to_bool-from_bool true = refl
