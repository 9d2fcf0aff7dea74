-- ===== src/Malloc/Pages.antt =====
-- Segment and page addresses, and the packed word of `thread_free`.
use mxos_v.Base.{
  ℕ, ◌+◌, ◌-◌, ◌*◌, ◌/◌, ◌%◌, ◌^◌, ◌≤◌, ◌<◌, ◌≡◌, refl, ap, ◌∙◌, sym, some, bit_and, arith,
}
use native.Mathlib.Nat.{mul-le-mul_right, add-mul, mul-div_cancel}
use mxos_v.Base.Bits.{bit_not, and-mask, or-zero, set_bits_lem}
use mxos_v.Malloc.{
  segment_size, small_page_size, from_ptr, small_page_id, small_page_start, block_small_page_id,
  ThreadFreeState, normal, delaying, delayed, state_code, split_thread_free,
}

-- Clearing the low bits of a word.
clear_segment :
    (x : ℕ) → x < 2 ^ 64 → bit_and x (bit_not 64 (segment_size - 1)) ≡ x / 2 ^ 22 * 2 ^ 22
clear_segment x h = sym (or-zero _) ∙ set_bits_lem 42 22 0 x 0 h (omega arith) ∙ omega arith

clear_tag : (x : ℕ) → x < 2 ^ 64 → bit_and x (bit_not 64 7) ≡ x / 8 * 8
clear_tag x h = sym (or-zero _) ∙ set_bits_lem 61 3 0 x 0 h (omega arith) ∙ omega arith

next_page : (i size : ℕ) → i < 63 → i * size + size ≤ 63 * size
next_page i size h =
    let more : (i + 1) * size ≤ 63 * size = mul-le-mul_right size (omega arith) in
    omega (arith, more, add-mul i 1 size)

module _ (offset size : ℕ) (pos : 0 < size) (fits : offset + 63 * size ≤ small_page_size) where
  -- Where the metadata of 63 pages fit in the first 64 KiB of a segment, the metadata of page `i`
  -- lead to `i` and to the start of that page, and they and every address inside the page lead to
  -- the segment; the address leads to `i` too.
  pub page_addresses :
      (n i inside : ℕ)
      → n < 2 ^ 42
      → i < 63
      → inside < small_page_size
      → let seg = n * segment_size in
        let page = seg + (offset + i * size) in
        let start = small_page_start offset size page in
        (small_page_id offset size page ≡ i)
        × (start ≡ seg + small_page_size * (1 + i))
        × (from_ptr page ≡ seg)
        × (from_ptr (start + inside) ≡ seg)
        × (block_small_page_id (start + inside) ≡ i)
  unfolding small_page_id small_page_start from_ptr block_small_page_id
  page_addresses n i inside hn hi hin =
      let seg = n * segment_size in
      let small : i * size + size ≤ 63 * size = next_page i size hi in
      let page = seg + (offset + i * size) in
      let low : bit_and page (segment_size - 1) ≡ offset + i * size =
        and-mask 22 page ∙ omega arith in
      let high : bit_and page (bit_not 64 (segment_size - 1)) ≡ seg =
        clear_segment page (omega arith) ∙ omega arith in
      let minus : offset + i * size - offset ≡ i * size = omega arith in
      let block = seg + small_page_size * (1 + i) + inside in
      let id : (bit_and page (segment_size - 1) - offset) / size ≡ i =
        ap (λ t. (t - offset) / size) low ∙ ap (λ t. t / size) minus ∙ mul-div_cancel i pos in
      rw (id, high)
        (
          refl,
          refl,
          refl,
          clear_segment block (omega arith) ∙ omega arith,
          ap (λ t. t / small_page_size - 1) (and-mask 22 block) ∙ omega arith,
        )

low_tag : (x : ℕ) → bit_and x 3 ≡ x % 4
low_tag x = and-mask 2 x

with_tag : (list tag : ℕ) → list % 8 ≡ 0 → tag < 4 → (list + tag) % 4 ≡ tag
with_tag list tag h k = omega arith

list_part :
    (list tag : ℕ)
    → list < 2 ^ 64
    → list % 8 ≡ 0
    → tag < 4
    → bit_and (list + tag) (bit_not 64 7) ≡ list
list_part list tag h aligned k = clear_tag (list + tag) (omega arith) ∙ omega arith

-- A list pointer of 64 bits that is a multiple of eight, packed with a state, is split into that
-- state and that pointer.
split_thread_free-pack :
    (state : ThreadFreeState) (list : ℕ)
    → list < 2 ^ 64
    → list % 8 ≡ 0
    → split_thread_free (list + state_code state) ≡ some (state, list)
unfolding split_thread_free
split_thread_free-pack normal list h aligned =
    rw
      (
        low_tag (list + 0) ∙ with_tag list 0 aligned (omega arith),
        list_part list 0 h aligned (omega arith),
      )
      refl
split_thread_free-pack delaying list h aligned =
    rw
      (
        low_tag (list + 1) ∙ with_tag list 1 aligned (omega arith),
        list_part list 1 h aligned (omega arith),
      )
      refl
split_thread_free-pack delayed list h aligned =
    rw
      (
        low_tag (list + 3) ∙ with_tag list 3 aligned (omega arith),
        list_part list 3 h aligned (omega arith),
      )
      refl
