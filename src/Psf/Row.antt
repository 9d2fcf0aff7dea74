-- ===== src/Psf/Row.antt =====
-- kernel/src/psf.rs: the rows of a glyph, and the iterator over the pixels of a row.
pub mod Pixels
pub mod Back
pub mod Collect
pub mod Nth
pub mod Glyphs
use mxos_v.Base.{
  ℕ, ◌+◌, ◌-◌, ◌*◌, ◌/◌, ◌%◌, ◌^◌, min, bit_and, bit_xor, Bool, true, false, not, ◌&&◌, Option,
  none, some, List, [], ◌∷◌, map, length, take, drop, chunks, split_last, leb, ltb, ◌==◌,
  if◌then◌else◌, assert, ◌>>◌, ◌>>=◌,
}
use mxos_v.Psf.File.{Glyph}

pub record GlyphRowIter : Type 0 where
  pub bytes : List ℕ
  pub indices : ℕ

-- The bit of the first pixel to come in the first byte, and that of the last one in the last byte.
unfoldable pub split_indices : ℕ → ℕ × ℕ
split_indices indices = (bit_and indices 7, indices / 2 ^ 4)

-- `byte >> 7 - i & 1 != 0`
unfoldable pub pixel_of : ℕ → ℕ → Bool
pixel_of byte i = not (bit_and (byte / 2 ^ (7 - i)) 1 == 0)

unfoldable pub next : GlyphRowIter → Option Bool × GlyphRowIter
next it = elim it.bytes [
  | [] ↦ (none, it)
  | first ∷ rest ↦
      let ends = split_indices it.indices in
      elim (leb (length it.bytes) 1 && ltb (ends.1) (ends.0)) [
        | true ↦ (none, record it { bytes = [] })
        | false ↦ (
          some (pixel_of first (ends.0)),
          if ends.0 == 7
              then record { bytes = rest; indices = bit_xor it.indices 7 }
              else record it { indices = it.indices + 1 },
        )
      ]
]

unfoldable pub nth : ℕ → GlyphRowIter → Option Bool × GlyphRowIter
nth n it =
    let bytes' = drop (min (length it.bytes) (n / 8 + 1)) it.bytes in
    let indices' = it.indices + n % 8 in
    if bit_and indices' 8 == 0
    then next (record { bytes = bytes'; indices = indices' })
    else next (record { bytes = drop 1 bytes'; indices = bit_xor indices' 8 })

-- `none` is the panic of a subtraction below 0.
unfoldable pub size_hint : GlyphRowIter → Option ℕ
size_hint it =
    let ends = split_indices it.indices in
    assert (leb (ends.0) (8 * length it.bytes))
    >> assert (leb 8 (8 * length it.bytes - ends.0 + ends.1))
    >> some (8 * length it.bytes - ends.0 + ends.1 - 8)

unfoldable pub count : GlyphRowIter → Option ℕ
count it = size_hint it

unfoldable pub next_back : GlyphRowIter → Option Bool × GlyphRowIter
next_back it = elim (split_last it.bytes) [
  | none ↦ (none, it)
  | some p ↦
      let ends = split_indices it.indices in
      elim (leb (length it.bytes) 1 && ltb (ends.1) (ends.0)) [
        | true ↦ (none, record it { bytes = [] })
        | false ↦ (
          some (pixel_of (p.0) (ends.1)),
          if ends.1 == 0
              then record { bytes = p.1; indices = bit_xor it.indices 0x70 }
              else record it { indices = it.indices - 0x10 },
        )
      ]
]

-- `none` is the panic of a subtraction below 0.
unfoldable pub nth_back : ℕ → GlyphRowIter → Option (Option Bool × GlyphRowIter)
nth_back n it =
    let bytes' = take (length it.bytes - n / 8) it.bytes in
    let indices' = it.indices - n % 8 * 2 ^ 4 in
    assert (leb (n % 8 * 2 ^ 4) it.indices)
    >> some (
        if bit_and indices' 0x80 == 0
        then next_back (record { bytes = bytes'; indices = indices' })
        else next_back
            (record { bytes = take (length bytes' - 1) bytes'; indices = bit_xor indices' 0x80 }))

-- `none` is a panic: an overflow of the width, or the chunks of no bytes of a glyph without columns.
unfoldable pub rows : Glyph → Option (List GlyphRowIter)
rows g =
    let indices' = (g.width + 7) % 8 * 2 ^ 4 in
    assert (ltb (g.width + 7) (2 ^ 32))
    >> assert (leb 1 ((g.width + 7) / 2 ^ 3))
    >> some (
        map (λ b. record { bytes = b; indices = indices' })
          (chunks ((g.width + 7) / 2 ^ 3) g.bytes))
