-- ===== src/Psf/Utf8.antt =====
-- `core::str::from_utf8`, which kernel/src/psf.rs calls: the characters of a UTF-8 string.
use mxos_v.Base.{
  ℕ, zero, suc, ◌+◌, ◌-◌, ◌*◌, true, false, ◌&&◌, Option, none, some, List, [], ◌∷◌, leb, ltb,
  if◌then◌else◌, ◌==◌,
}

-- What a character still needs: the count of its further bytes, the range of the next one, and the
-- bits read so far.
pub record Pending : Type 0 where
  pub count : ℕ
  pub low : ℕ
  pub high : ℕ
  pub bits : ℕ

-- The first byte of a longer character.
abbrev pub lead : ℕ → Option Pending
lead a =
    if leb 0xC2 a && ltb a 0xE0
    then some (record { count = 1; low = 0x80; high = 0xBF; bits = a - 0xC0 })
    else if leb 0xE0 a && ltb a 0xF0
    then some (record {
      count = 2;
      low = if a == 0xE0 then 0xA0 else 0x80;
      high = if a == 0xED then 0x9F else 0xBF;
      bits = a - 0xE0;
    })
    else if leb 0xF0 a && ltb a 0xF5
    then some (record {
      count = 3;
      low = if a == 0xF0 then 0x90 else 0x80;
      high = if a == 0xF4 then 0x8F else 0xBF;
      bits = a - 0xF0;
    })
    else none

abbrev pub cons_some : ℕ → Option (List ℕ) → Option (List ℕ)
cons_some c none = none
cons_some c (some cs) = some (c ∷ cs)

-- The characters of the rest of a string, inside a character.
abbrev pub decode : ℕ → ℕ → ℕ → ℕ → List ℕ → Option (List ℕ)
decode zero low high bits [] = some []
decode (suc n) low high bits [] = none
decode zero low high bits (a ∷ bytes) = elim (ltb a 0x80) [
  | true ↦ cons_some a (decode 0 0 0 0 bytes)
  | false ↦ elim (lead a) [ none ↦ none | some p ↦ decode p.count p.low p.high p.bits bytes ]
]
decode (suc zero) low high bits (a ∷ bytes) = elim (leb low a && leb a high) [
  | true ↦ cons_some (0x40 * bits + (a - 0x80)) (decode 0 0 0 0 bytes)
  | false ↦ none
]
decode (suc (suc n)) low high bits (a ∷ bytes) = elim (leb low a && leb a high) [
  | true ↦ decode (suc n) 0x80 0xBF (0x40 * bits + (a - 0x80)) bytes
  | false ↦ none
]

unfoldable pub from_utf8 : List ℕ → Option (List ℕ)
from_utf8 bytes = decode 0 0 0 0 bytes
