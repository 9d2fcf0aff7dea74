-- ===== src/Psf/Ucs2.antt =====
-- kernel/src/psf/ucs2.rs: UCS-2 strings, little endian, as their bytes. `none` is a panic in
-- `index`, and the source's `None` elsewhere.

pub mod Laws
use mxos_v.Base.{
  ℕ, suc, ◌+◌, ◌*◌, ◌/◌, ◌%◌, ◌^◌, Bool, true, false, ◌&&◌, ◌||◌, Option, none, some, List, [], ◌∷◌,
  map, length, take, drop, get_range, chunks, ltb, leb, ◌==◌, if◌then◌else◌, ◌>>=◌,
}

-- `char::from_u32`
abbrev pub from_u32 : ℕ → Option ℕ
from_u32 n = if leb 0xD800 n && ltb n 0xE000 || leb 0x110000 n then none else some n

-- `u16::from_le_bytes`
abbrev pub u16_from_le : ℕ → ℕ → ℕ
u16_from_le a b = a + 0x100 * b

abbrev pub is_char : ℕ → Bool
is_char n = elim (from_u32 n) [ none ↦ false | some c ↦ true ]

-- A whole code unit that is a character.
unfoldable pub chunk_is_char : List ℕ → Bool
chunk_is_char (a ∷ b ∷ []) = is_char (u16_from_le a b)
chunk_is_char _ = false

abbrev pub all : List (List ℕ) → Bool
all [] = true
all (c ∷ cs) = chunk_is_char c && all cs

unfoldable pub verify : List ℕ → Bool
verify bytes = all (chunks 2 bytes)

unfoldable pub from_bytes : List ℕ → Option (List ℕ)
from_bytes bytes = if verify bytes then some bytes else none

-- The unchecked conversion of a chunk; a chunk of another length is undefined behaviour.
unfoldable pub char_of_chunk : List ℕ → ℕ
char_of_chunk (a ∷ b ∷ []) = u16_from_le a b
char_of_chunk _ = 0

unfoldable pub chars : List ℕ → List ℕ
chars s = map char_of_chunk (chunks 2 s)

unfoldable pub str_len : List ℕ → ℕ
str_len s = length s / 2

-- The sums and products of `usize` wrap, as in a build without overflow checks.
unfoldable pub get : List ℕ → ℕ → Option ℕ
get s index =
    let start = 2 * index % 2 ^ 64 in
    get_range s start ((start + 2) % 2 ^ 64) >>= λ c. some (char_of_chunk c)

abbrev pub list_eq : List ℕ → List ℕ → Bool
list_eq [] [] = true
list_eq (x ∷ xs) (y ∷ ys) = (x == y) && list_eq xs ys
list_eq _ _ = false

-- `==` with a `str`, as its characters
unfoldable pub eq : List ℕ → List ℕ → Bool
eq s other = list_eq (chars s) other

-- A bound of a range.
pub data Bound : Type 0 where
  included : ℕ → Bound
  excluded : ℕ → Bound
  unbounded : Bound

unfoldable pub start_of : Bound → ℕ
start_of (Bound.included start) = 2 * start % 2 ^ 64
start_of (Bound.excluded start) = 2 * (start + 1) % 2 ^ 64
start_of Bound.unbounded = 0

-- A bounded end is a `todo!()`.
unfoldable pub end_of : List ℕ → Bound → Option ℕ
end_of s (Bound.included n) = none
end_of s (Bound.excluded n) = none
end_of s Bound.unbounded = some (length s)

unfoldable pub index : List ℕ → Bound → Bound → Option (List ℕ)
index s from to = end_of s to >>= λ end. get_range s (start_of from) end
