-- ===== src/Psf/Ucs2/Laws.antt =====
-- UCS-2 strings against their characters: the encoding, and the access by index.
use mxos_v.Base.{
  ℕ, zero, suc, ◌+◌, ◌*◌, ◌/◌, ◌%◌, ◌^◌, Option, ◌>>=◌, get_range, ◌≤◌, ◌<◌, ◌≡◌, ◌⊎◌, ◌≢◌, refl,
  ap, ap₂, ◌∙◌, Bool, true, false, ◌&&◌, some, List, [], ◌∷◌, length, get_elem?, get_range-cons,
  leb, Bool-cases, inl, inr, arith,
}
use mxos_v.Psf.Ucs2.{
  is_char, chunk_is_char, all, verify, from_bytes, char_of_chunk, chars, str_len, get, u16_from_le,
}
use mxos_v.Base.{chunks}

-- Characters of one code unit, the surrogates left out.
abbrev pub IsBmp : List ℕ → Type 0
IsBmp [] = Unit
IsBmp (c ∷ cs) = ((c < 0xD800) ⊎ ((0xE000 ≤ c) × (c < 0x10000))) × IsBmp cs

abbrev pub AllBytes : List ℕ → Type 0
AllBytes [] = Unit
AllBytes (b ∷ bs) = (b < 0x100) × AllBytes bs

-- The bytes of a string, two for each character.
abbrev pub encode : List ℕ → List ℕ
encode [] = []
encode (c ∷ cs) = (c % 0x100) ∷ (c / 0x100) ∷ encode cs

unit_lem : (c : ℕ) → u16_from_le (c % 0x100) (c / 0x100) ≡ c
unit_lem c = omega arith

is_char-Bmp : (c : ℕ) → (c < 0xD800) ⊎ ((0xE000 ≤ c) × (c < 0x10000)) → is_char c ≡ true
is_char-Bmp c h = ground arith

verify-encode : (cs : List ℕ) → IsBmp cs → verify (encode cs) ≡ true
unfolding verify chunk_is_char
verify-encode [] h = refl
verify-encode (c ∷ cs) (h, hs) = rw (unit_lem c, is_char-Bmp c h) (verify-encode cs hs)

chars-encode : (cs : List ℕ) → chars (encode cs) ≡ cs
unfolding chars char_of_chunk
chars-encode [] = refl
chars-encode (c ∷ cs) = ap₂ (λ x xs. x ∷ xs) (unit_lem c) (chars-encode cs)

&&_split : (a b : Bool) → (a && b) ≡ true → (a ≡ true) × (b ≡ true)
&&_split true b h = (refl, h)
&&_split false b h = cc

-- An accepted string holds whole code units, and a character in each.
verify-pair :
    (a b : ℕ) (bs : List ℕ)
    → verify (a ∷ b ∷ bs) ≡ true
    → (is_char (u16_from_le a b) ≡ true) × (verify bs ≡ true)
unfolding verify chunk_is_char
verify-pair a b bs h = &&_split (is_char (u16_from_le a b)) (all (chunks 2 bs)) h

verify-odd : (a : ℕ) → verify (a ∷ []) ≢ true
unfolding verify chunk_is_char
verify-odd a h = cc

-- The bytes of the characters of an accepted string are the string.
encode-chars : (s : List ℕ) → AllBytes s → verify s ≡ true → encode (chars s) ≡ s
unfolding chars char_of_chunk
encode-chars [] small h = refl
encode-chars (a ∷ []) small h = absurd (verify-odd a h)
encode-chars (a ∷ b ∷ s) (ha, (hb, small)) h =
    let low : u16_from_le a b % 0x100 ≡ a = omega arith in
    let high : u16_from_le a b / 0x100 ≡ b = omega arith in
    rw (low, high) (ap (λ t. a ∷ b ∷ t) (encode-chars s small ((verify-pair a b s h).1)))

str_len-chars : (s : List ℕ) → verify s ≡ true → str_len s ≡ length (chars s)
unfolding str_len chars
str_len-chars [] h = refl
str_len-chars (a ∷ []) h = absurd (verify-odd a h)
str_len-chars (a ∷ b ∷ s) h = omega (arith, str_len-chars s ((verify-pair a b s h).1))

-- The bytes of an index, where nothing wraps.
pair_at : List ℕ → ℕ → Option ℕ
pair_at s i = get_range s (2 * i) (2 * i + 2) >>= λ c. some (char_of_chunk c)

get-pair_at : (s : List ℕ) (i : ℕ) → i + 1 < 2 ^ 63 → get s i ≡ pair_at s i
unfolding get pair_at
get-pair_at s i h =
    let start : 2 * i % 2 ^ 64 ≡ 2 * i = omega arith in
    let end : (2 * i + 2) % 2 ^ 64 ≡ 2 * i + 2 = omega arith in rw (get, start, end) refl

pair_at-cons : (a b : ℕ) (s : List ℕ) (i : ℕ) → pair_at (a ∷ b ∷ s) (suc i) ≡ pair_at s i
unfolding pair_at
pair_at-cons a b s i =
    let first : 2 * suc i ≡ suc (suc (2 * i)) = omega arith in
    let last : suc (suc (2 * i)) + 2 ≡ suc (suc (2 * i + 2)) = omega arith in
    let one = get_range-cons a (b ∷ s) (suc (2 * i)) (suc (2 * i + 2)) in
    let two = get_range-cons b s (2 * i) (2 * i + 2) in rw (pair_at, first, last, one, two) refl

pair_at-chars : (s : List ℕ) (i : ℕ) → verify s ≡ true → pair_at s i ≡ get_elem? (chars s) i
unfolding pair_at chars char_of_chunk
pair_at-chars [] i h =
    let ordered : leb (2 * i) (2 * i + 2) ≡ true = ground arith in
    let beyond : leb (2 * i + 2) 0 ≡ false = ground arith in rw (pair_at, ordered, beyond) refl
pair_at-chars (a ∷ []) i h = absurd (verify-odd a h)
pair_at-chars (a ∷ b ∷ s) zero h =
    let room : leb 2 (suc (suc (length s))) ≡ true = ground arith in rw (pair_at, room) refl
pair_at-chars (a ∷ b ∷ s) (suc i) h =
    pair_at-cons a b s i ∙ pair_at-chars s i ((verify-pair a b s h).1)

-- A string of characters of one code unit each, encoded in two bytes each, is accepted as it is, and
-- its characters are read back.
pub from_bytes-encode :
    (cs : List ℕ)
    → IsBmp cs
    → (from_bytes (encode cs) ≡ some (encode cs)) × (chars (encode cs) ≡ cs)
unfolding from_bytes
from_bytes-encode cs h = (rw (from_bytes, verify-encode cs h) refl, chars-encode cs)

-- An accepted string of bytes is unchanged; it is the encoding of its characters, its length is their number,
-- and `get` finds the character of an index, or none beyond the end, where the index after it is below
-- 2 ^ 63.
pub from_bytes-chars :
    (bytes s : List ℕ)
    → AllBytes bytes
    → from_bytes bytes ≡ some s
    → (s ≡ bytes)
      × (encode (chars s) ≡ bytes)
      × (str_len s ≡ length (chars s))
      × ((i : ℕ) → i + 1 < 2 ^ 63 → get s i ≡ get_elem? (chars s) i)
unfolding from_bytes
from_bytes-chars bytes s small h = elim (Bool-cases (verify bytes)) [
  | inl valid ↦
      let same : bytes ≡ s = cc (rw (from_bytes, valid) at h) in
      rw (← same) (
        refl,
        encode-chars bytes small valid,
        str_len-chars bytes valid,
        λ i small. get-pair_at bytes i small ∙ pair_at-chars bytes i valid,
      )
  | inr bad ↦ absurd (cc (rw (from_bytes, bad) at h))
]
