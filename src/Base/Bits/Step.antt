-- ===== src/Base/Bits/Step.antt =====
-- One equation for the lowest digit of each bit operation. The native operations stand for a
-- recursion on binary digits with a count of digits to go; here that count is dropped.
use Prim.Native.Nat.{
  ℕ, zero, suc, ◌+◌, ◌*◌, ◌/◌, ◌%◌, ◌≤◌, min, max, bit_and, bit_or, bit_xor, digits, bitwise,
  bit_and-bitwise, bit_or-bitwise, bit_xor-bitwise, differ,
}
use mathlib.Core.Path.{◌≡◌, refl, sym, ap, ◌∙◌}
use native.Mathlib.Omega.{arith}

-- `op` on numbers is `f` on their lowest digits and itself on the other digits.
abbrev pub HasStep : (ℕ → ℕ → ℕ) → (ℕ → ℕ → ℕ) → Type 0
HasStep op f = (a b : ℕ) → op a b ≡ op (a / 2) (b / 2) * 2 + f (a % 2) (b % 2)

module _ (last : ℕ → ℕ) (f : ℕ → ℕ → ℕ) where
  -- A count of digits that is large enough gives what the first number as the count gives; `bound`
  -- bounds the count.
  enough : (bound k a b : ℕ) → k ≤ bound → a ≤ k → digits last f k a b ≡ bitwise last f a b
  enough bound zero a b in_bound h = let none_left : a ≡ 0 = omega arith in rw none_left
  enough bound (suc k) zero b in_bound h = refl
  enough zero (suc k) (suc a) b in_bound h = absurd (omega arith)
  enough (suc bound) (suc k) (suc a) b in_bound h =
      let same = λ (j : ℕ). enough bound j (suc a / 2) (b / 2) in
      ap (λ t. t * 2 + f (suc a % 2) (b % 2))
        (same k (omega arith) (omega arith) ∙ sym (same a (omega arith) (omega arith)))

  module _ (op : ℕ → ℕ → ℕ) (means : (a b : ℕ) → op a b ≡ bitwise last f a b)
      (at_zero : (b : ℕ) → last b ≡ last (b / 2) * 2 + f 0 (b % 2)) where
    op-HasStep : HasStep op f
    op-HasStep zero b =
        means 0 b ∙ at_zero b ∙ ap (λ t. t * 2 + f 0 (b % 2)) (sym (means 0 (b / 2)))
    op-HasStep (suc a) b =
        means (suc a) b
        ∙ ap (λ t. t * 2 + f (suc a % 2) (b % 2))
            (enough a a (suc a / 2) (b / 2) (omega arith) (omega arith)
              ∙ sym (means (suc a / 2) (b / 2)))

pub bit_and_step : HasStep bit_and min
bit_and_step = op-HasStep (λ _. 0) min bit_and (λ a b. bit_and-bitwise a b) (λ b. omega arith)

pub bit_or_step : HasStep bit_or max
bit_or_step = op-HasStep (λ b. b) max bit_or (λ a b. bit_or-bitwise a b) (λ b. omega arith)

pub bit_xor_step : HasStep bit_xor differ
bit_xor_step = op-HasStep (λ b. b) differ bit_xor (λ a b. bit_xor-bitwise a b) (λ b. omega arith)
