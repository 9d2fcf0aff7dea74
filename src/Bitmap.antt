-- ===== src/Bitmap.antt =====
-- kernel/src/bitmap.rs: a bitmap over a slice of 64-bit words. `none` is the panic of an index
-- out of bounds.
pub mod Access
pub mod Search
mod Tests
use mxos_v.Base.{
  ℕ, zero, suc, ◌+◌, ◌*◌, ◌/◌, ◌%◌, ◌^◌, ◌-◌, bit_and, bit_or, bit_xor, Bool, true, false, not,
  Option, none, some, List, [], ◌∷◌, ◌>>=◌, ◌==◌, if◌then◌else◌, get_elem?, set, drop,
}
use mxos_v.Base.Bits.{bit_not}

-- The word that holds a bit, and a mask for the bit in it. The shift amount is a `u32`.
unfoldable pub split_bit : ℕ → ℕ × ℕ
split_bit b = (b / 64, 2 ^ (b % 2 ^ 32 % 64))

unfoldable pub merge_bit : ℕ → ℕ → ℕ
merge_bit index b = 64 * index + b

unfoldable pub get : List ℕ → ℕ → Option Bool
get words b = do
  let (i, mask) = split_bit b
  w ← get_elem? words i
  some (not (bit_and w mask == 0))

unfoldable pub toggle : List ℕ → ℕ → Option (List ℕ)
toggle words b = do
  let (i, mask) = split_bit b
  w ← get_elem? words i
  some (set words i (bit_xor w mask))

-- `Bitmap::set`
unfoldable pub set_bit : List ℕ → ℕ → Option (List ℕ)
set_bit words b = do
  let (i, mask) = split_bit b
  w ← get_elem? words i
  some (set words i (bit_or w mask))

unfoldable pub reset : List ℕ → ℕ → Option (List ℕ)
reset words b = do
  let (i, mask) = split_bit b
  w ← get_elem? words i
  some (set words i (bit_and w (bit_not 64 mask)))

unfoldable pub assign : List ℕ → ℕ → Bool → Option (List ℕ)
assign words b true = set_bit words b
assign words b false = reset words b

-- `trailing_zeros` and `trailing_ones` of a word, with the number of bits that are left.
unfoldable pub trailing_zeros : ℕ → ℕ → ℕ
trailing_zeros zero w = 0
trailing_zeros (suc n) w = if w % 2 == 0 then suc (trailing_zeros n (w / 2)) else 0

unfoldable pub trailing_ones : ℕ → ℕ → ℕ
trailing_ones zero w = 0
trailing_ones (suc n) w = if w % 2 == 1 then suc (trailing_ones n (w / 2)) else 0

-- `enumerate().skip(..).find(..)`: the first word that passes, with its index.
unfoldable pub find_word : (ℕ → Bool) → ℕ → List ℕ → Option (ℕ × ℕ)
find_word p i [] = none
find_word p i (w ∷ ws) = if p w then some (i, w) else find_word p (i + 1) ws

unfoldable pub find_first_set : List ℕ → ℕ → Option ℕ
find_first_set words start = do
  (i, bits) ← find_word (λ b. not (b == 0)) (start / 64) (drop (start / 64) words)
  some (merge_bit i (trailing_zeros 64 bits))

unfoldable pub find_first_unset : List ℕ → ℕ → Option ℕ
find_first_unset words start = do
  (i, bits) ← find_word (λ b. not (b == 2 ^ 64 - 1)) (start / 64) (drop (start / 64) words)
  some (merge_bit i (trailing_ones 64 bits))
