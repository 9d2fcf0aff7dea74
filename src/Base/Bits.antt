-- ===== src/Base/Bits.antt =====
-- Facts about `&`, `|`, `^` and `!` on words, bit by bit and field by field, at every width.
mod Step
pub mod Fields
pub use Fields.*
use Step.{bit_or_step, bit_and_step, bit_xor_step}
use Prim.Native.Nat.{
  ℕ, zero, suc, ◌+◌, ◌-◌, ◌*◌, ◌/◌, ◌%◌, ◌^◌, ◌≤◌, ◌<◌, min, max, bit_and, bit_or, bit_xor, differ,
}
use mathlib.Core.Path.{◌≡◌, refl, ap}
use mathlib.Core.Logic.{◌≢◌}
use native.Mathlib.Numerals.{add-one}
use native.Mathlib.Nat.{div-div-eq-div-mul, pow-suc, pow-le-pow_right, le_trans, add_comm}
use native.Mathlib.Omega.{arith}

-- Bit `j` of a word.
abbrev pub bit : ℕ → ℕ → ℕ
bit zero a = a % 2
bit (suc j) a = bit j (a / 2)

pub bit-le-one : (j a : ℕ) → bit j a ≤ 1
bit-le-one zero a = omega arith
bit-le-one (suc j) a = bit-le-one j (a / 2)

pub bit-zero : (j : ℕ) → bit j 0 ≡ 0
bit-zero zero = refl
bit-zero (suc j) = bit-zero j

-- A digitwise operation, bit by bit.
module _ (op f : ℕ → ℕ → ℕ) (step : (a b : ℕ) → op a b ≡ op (a / 2) (b / 2) * 2 + f (a % 2) (b % 2))
    (digit : (x y : ℕ) → x ≤ 1 → y ≤ 1 → f x y ≤ 1) where
  halves : (a b : ℕ) → (op a b / 2 ≡ op (a / 2) (b / 2)) × (op a b % 2 ≡ f (a % 2) (b % 2))
  halves a b =
      let small = digit (a % 2) (b % 2) (omega arith) (omega arith) in omega (arith, step a b)

  bit-op : (j a b : ℕ) → bit j (op a b) ≡ f (bit j a) (bit j b)
  bit-op zero a b = (halves a b).1
  bit-op (suc j) a b = rw ((halves a b).0) (bit-op j (a / 2) (b / 2))

pub bit-and : (j a b : ℕ) → bit j (bit_and a b) ≡ min (bit j a) (bit j b)
bit-and j a b = bit-op bit_and min bit_and_step (λ x y h k. omega arith) j a b

pub bit-or : (j a b : ℕ) → bit j (bit_or a b) ≡ max (bit j a) (bit j b)
bit-or j a b = bit-op bit_or max bit_or_step (λ x y h k. omega arith) j a b

differ-le-one : (x y : ℕ) → x ≤ 1 → y ≤ 1 → differ x y ≤ 1
differ-le-one zero y h k = k
differ-le-one (suc x) zero h k = h
differ-le-one (suc x) (suc y) h k = differ-le-one x y (omega arith) (omega arith)

pub bit-xor : (j a b : ℕ) → bit j (bit_xor a b) ≡ differ (bit j a) (bit j b)
bit-xor j a b = bit-op bit_xor differ bit_xor_step differ-le-one j a b

half-pow : (k : ℕ) → 2 ^ suc k / 2 ≡ 2 ^ k
half-pow k = omega (arith, pow-suc 2 k)

even-pow : (k : ℕ) → 2 ^ suc k % 2 ≡ 0
even-pow k = omega (arith, pow-suc 2 k)

pub bit-pow_self : (k : ℕ) → bit k (2 ^ k) ≡ 1
bit-pow_self zero = refl
bit-pow_self (suc k) = rw (half-pow k) (bit-pow_self k)

pub bit-pow_ne : (j k : ℕ) → j ≢ k → bit j (2 ^ k) ≡ 0
bit-pow_ne zero zero ne = absurd (ne refl)
bit-pow_ne zero (suc k) ne = even-pow k
bit-pow_ne (suc j) zero ne = bit-zero j
bit-pow_ne (suc j) (suc k) ne = rw (half-pow k) (bit-pow_ne j k (λ e. ne (ap suc e)))

-- `a & 1 << k` shows bit `k` and nothing else.
pub and-pow : (k a : ℕ) → bit_and a (2 ^ k) ≡ bit k a * 2 ^ k
and-pow zero a = omega (arith, and-mask 1 a)
and-pow (suc k) a = ground (
  arith,
  bit_and_step a (2 ^ suc k),
  half-pow k,
  even-pow k,
  mul-pow-suc (bit k (a / 2)) k,
  and-pow k (a / 2),
)

pub bit-not : (n j m : ℕ) → j < n → m < 2 ^ n → bit j (bit_not n m) ≡ 1 - bit j m
bit-not zero j m h l = elim h [ ]
bit-not (suc n) zero m h l = omega (arith, pow-suc 2 n)
bit-not (suc n) (suc j) m h l =
    let e : (2 ^ suc n - 1 - m) / 2 ≡ bit_not n (m / 2) = omega (arith, pow-suc 2 n) in
    rw e (bit-not n j (m / 2) (omega arith) (omega (arith, pow-suc 2 n)))

pub eq_of_bits : (n a b : ℕ) → a < 2 ^ n → b < 2 ^ n → ((j : ℕ) → j < n → bit j a ≡ bit j b) → a ≡ b
eq_of_bits zero a b ha hb h = omega arith
eq_of_bits (suc n) a b ha hb h =
    let low : a % 2 ≡ b % 2 = h 0 (omega arith) in
    let high : a / 2 ≡ b / 2 =
      eq_of_bits n (a / 2) (b / 2) (omega (arith, pow-suc 2 n)) (omega (arith, pow-suc 2 n))
        (λ j l. h (suc j) (omega arith)) in
    omega arith

lt-pow : (a : ℕ) → a < 2 ^ a
lt-pow zero = omega arith
lt-pow (suc a) = omega (arith, pow-suc 2 a, lt-pow a)

lt-pow-add : (a b : ℕ) → a < 2 ^ (a + b)
lt-pow-add a b = le_trans (lt-pow a) (pow-le-pow_right (omega arith) (omega arith))

-- A number is known by its bits.
pub eq_of_all_bits : (a b : ℕ) → ((j : ℕ) → bit j a ≡ bit j b) → a ≡ b
eq_of_all_bits a b h =
    eq_of_bits (a + b) a b (lt-pow-add a b) (rw (add_comm a b) (lt-pow-add b a)) (λ j _. h j)

differ-differ : (x y : ℕ) → x ≤ 1 → y ≤ 1 → differ (differ x y) y ≡ x
differ-differ zero zero h k = refl
differ-differ zero (suc y) h k = let e : y ≡ 0 = omega arith in rw e
differ-differ (suc x) zero h k = refl
differ-differ (suc x) (suc y) h k =
    let e : x ≡ 0 = omega arith in let e' : y ≡ 0 = omega arith in rw (e, e')

-- `^` by the same word twice changes nothing.
pub xor-xor : (a b : ℕ) → bit_xor (bit_xor a b) b ≡ a
xor-xor a b =
    eq_of_all_bits _ _ λ j.
      rw (bit-xor, bit-xor) (differ-differ (bit j a) (bit j b) (bit-le-one j a) (bit-le-one j b))

-- Halving a shifted number shifts it once more.
pub div-pow_half : (a k : ℕ) → a / 2 ^ k / 2 ≡ a / 2 ^ (k + 1)
div-pow_half a k = rw (add-one, pow-suc) (div-div-eq-div-mul a (2 ^ k) 2)

differ-zero : (x : ℕ) → differ x 0 ≡ x
differ-zero zero = refl
differ-zero (suc x) = refl

xor-zero : (a : ℕ) → bit_xor a 0 ≡ a
xor-zero a = eq_of_all_bits _ _ λ j. rw (bit-xor, bit-zero j) (differ-zero (bit j a))

-- `a ^ 1 << k` clears bit `k` where it is set.
pub xor-pow : (k a : ℕ) → bit k a ≡ 1 → bit_xor a (2 ^ k) + 2 ^ k ≡ a
xor-pow zero a h =
    let low : differ (a % 2) 1 ≡ 0 = rw h refl in
    omega (arith, bit_xor_step a 1, xor-zero (a / 2), low)
xor-pow (suc k) a h =
    let low : differ (a % 2) (2 ^ suc k % 2) ≡ a % 2 = rw (even-pow k) (differ-zero (a % 2)) in
    let high : bit_xor (a / 2) (2 ^ suc k / 2) + 2 ^ k ≡ a / 2 =
      rw (half-pow k) (xor-pow k (a / 2) h) in
    omega (arith, bit_xor_step a (2 ^ suc k), low, high, pow-suc 2 k)
