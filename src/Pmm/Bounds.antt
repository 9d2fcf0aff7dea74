-- ===== src/Pmm/Bounds.antt =====
-- The bitmaps that `new` cuts out of `buddy_map`, and which blocks have a bit in them.
use mxos_v.Base.{
  ℕ, zero, suc, ◌+◌, ◌-◌, ◌*◌, ◌/◌, ◌%◌, ◌^◌, ◌≤◌, ◌<◌, ◌≡◌, refl, ap, true, none, some, List, [],
  ◌∷◌, arith, leb, le→leb, length, drop, ◌==◌, Bool-cases, inl, inr,
}
use native.Mathlib.Nat.{
  one-le-pow, div-lt_iff_lt-mul, mul-add-div, div-eq_of_lt, div-add-mod', mul-div_right,
}
use mxos_v.Base.Bits.{div-pow_half}
use mxos_v.Bitmap.Access.{panic_iff}
use mxos_v.Pmm.Slices.{with_slice-none}
use mxos_v.Pmm.{
  DirectMap, free, free_loop, Memory, Buddy, BuddyAllocator, order_map_size, map_len_loop,
  buddy_map_len, split_at, fill_zero, split_maps, new, min_order,
}

abbrev pub AllZero : List ℕ → Type 0
AllZero [] = Unit
AllZero (x ∷ xs) = (x ≡ 0) × AllZero xs

fill_zero-AllZero : (xs : List ℕ) → AllZero (fill_zero xs)
unfolding fill_zero
fill_zero-AllZero [] = tt
fill_zero-AllZero (x ∷ xs) = (refl, fill_zero-AllZero xs)

length-fill_zero : (xs : List ℕ) → length (fill_zero xs) ≡ length xs
unfolding fill_zero
length-fill_zero [] = refl
length-fill_zero (x ∷ xs) = ap suc (length-fill_zero xs)

-- The two parts of a split.
record Parts (n : ℕ) (xs : List ℕ) : Type 0 where
  front : List ℕ
  back : List ℕ
  runs : split_at n xs ≡ some (front, back)
  front_length : length front ≡ n
  back_length : length back + n ≡ length xs
  front_zero : AllZero xs → AllZero front
  back_zero : AllZero xs → AllZero back

split_at-Parts : (n : ℕ) (xs : List ℕ) → n ≤ length xs → Parts n xs
unfolding split_at
split_at-Parts zero xs h = record {
  front = [];
  back = xs;
  runs = refl;
  front_length = refl;
  back_length = omega arith;
  front_zero = λ z. tt;
  back_zero = λ z. z;
}
split_at-Parts (suc n) [] h = elim h [ ]
split_at-Parts (suc n) (x ∷ xs) h =
    let p = split_at-Parts n xs (omega arith) in
    record {
      front = x ∷ p.front;
      back = p.back;
      runs = rw (p.runs);
      front_length = ap suc p.front_length;
      back_length = omega (arith, p.back_length);
      front_zero = λ z. (z.0, p.front_zero z.1);
      back_zero = λ z. p.back_zero z.1;
    }

map_len_loop_sum :
    (ms rounds order sum : ℕ)
    → map_len_loop ms rounds order sum ≡ sum + map_len_loop ms rounds order 0
unfolding map_len_loop
map_len_loop_sum ms zero order sum = omega arith
map_len_loop_sum ms (suc rounds) order sum = omega (
  arith,
  map_len_loop_sum ms rounds (order + 1) (sum + order_map_size ms order),
  map_len_loop_sum ms rounds (order + 1) (0 + order_map_size ms order),
)

-- No block is free, and the bitmap of each order has its size and is clear.
abbrev pub IsFresh : ℕ → ℕ → List Buddy → Type 0
IsFresh ms order [] = Unit
IsFresh ms order (b ∷ bs) =
    ((b.free_list ≡ none) × (length b.map ≡ order_map_size ms order) × AllZero b.map)
    × IsFresh ms (order + 1) bs

record Carved (ms rounds order : ℕ) (words : List ℕ) : Type 0 where
  out : List Buddy
  runs : split_maps ms rounds order words ≡ some out
  fresh : IsFresh ms order out
  count : length out ≡ rounds

split_maps-Carved :
    (ms rounds order : ℕ) (words : List ℕ)
    → map_len_loop ms rounds order 0 ≤ length words
    → AllZero words
    → Carved ms rounds order words
unfolding split_maps map_len_loop
split_maps-Carved ms zero order words h z = record {
  out = [];
  runs = refl;
  fresh = tt;
  count = refl;
}
split_maps-Carved ms (suc rounds) order words h z =
    let size = order_map_size ms order in
    let sum = map_len_loop_sum ms rounds (order + 1) (0 + size) in
    let p = split_at-Parts size words (omega arith) in
    let rest =
      split_maps-Carved ms rounds (order + 1) p.back (omega (arith, p.back_length))
        (p.back_zero z) in
    record {
      out = record { free_list = none; map = p.front } ∷ rest.out;
      runs = rw (p.runs, rest.runs) refl;
      fresh = ((refl, p.front_length, p.front_zero z), rest.fresh);
      count = ap suc rest.count;
    }

-- With a slice of `buddy_map_len` words or more, `new` gives ten orders with clear bitmaps of their
-- sizes and no free block, and it leaves the memory alone.
pub new-IsFresh :
    (ms : ℕ) (buddy_map : List ℕ) (mem : Memory)
    → buddy_map_len ms ≤ length buddy_map
    → (s : BuddyAllocator) × (new ms buddy_map mem ≡ some s)
      × IsFresh ms min_order s.buddies
      × (length s.buddies ≡ 10)
      × (s.mem ≡ mem)
unfolding new buddy_map_len
new-IsFresh ms buddy_map mem h =
    let words = fill_zero buddy_map in
    let long : map_len_loop ms 10 12 0 ≤ length words = omega (arith, length-fill_zero buddy_map) in
    let r = split_maps-Carved ms 10 12 words long (fill_zero-AllZero buddy_map) in
    (
      record { buddies = r.out; mem = mem },
      rw (le→leb (map_len_loop ms 10 12 0) (length buddy_map) h, r.runs) refl,
      r.fresh,
      r.count,
      refl,
    )

-- In a memory of whole pairs, the pair of every block that lies in it has a bit.
pair_in_bitmap :
    (ms order addr : ℕ)
    → ms % 2 ^ (order + 1) ≡ 0
    → addr < ms
    → addr / 2 ^ (order + 1) < 64 * order_map_size ms order
unfolding order_map_size
pair_in_bitmap ms order addr whole lt =
    let u = 2 ^ (order + 1) in
    let pos : 0 < u = one-le-pow (order + 1) 2 (omega arith) in
    let e : ms ≡ ms / u * u = omega (arith, div-add-mod' ms u) in
    let below : addr / u < ms / u = (div-lt_iff_lt-mul pos).1 (rw (← e) lt) in omega arith

-- Where the pairs before the last half fill their words, that half has no bit.
module _ (order k r : ℕ) (hi : r < 2 ^ (order + 1)) where
  abbrev unit : ℕ
  unit = 2 ^ (order + 1)

  past_bitmap : 64 * order_map_size (unit * (64 * k) + r) order ≤ unit * (64 * k) / unit
  unfolding order_map_size
  past_bitmap =
      let pos : 0 < unit = one-le-pow (order + 1) 2 (omega arith) in
      rw (mul-add-div pos (64 * k) r, div-eq_of_lt hi, mul-div_right (64 * k) pos) (omega arith)

-- Freeing the last block of a memory that ends with half a pair, where the pairs before it fill
-- their words, panics: the bitmap of its order rounds the number of pairs down.
pub free-last_block_panics :
    (d : DirectMap) (order k r : ℕ) (s : BuddyAllocator) (b : Buddy) (rest : List Buddy)
    → 2 ^ order ≤ r
    → r < 2 ^ (order + 1)
    → drop (order - min_order) s.buddies ≡ b ∷ rest
    → length b.map ≡ order_map_size (2 ^ (order + 1) * (64 * k) + r) order
    → free d order (2 ^ (order + 1) * (64 * k)) s ≡ none
unfolding free free_loop
free-last_block_panics d order k r s b rest lo hi tail size =
    let u = 2 ^ (order + 1) in
    let a = u * (64 * k) in
    let past : 64 * length b.map ≤ a / 2 ^ order / 2 =
      rw (size, div-pow_half a order) (past_bitmap order k r hi) in
    let (_, toggles, _) = panic_iff b.map (a / 2 ^ order / 2) true in
    let stops =
      with_slice-none (λ slice. free_loop slice (a / 2 ^ order) (d.to_virt a) s.mem)
        (order - min_order) s.buddies (rw (tail, toggles.1 past) refl) in
    elim (Bool-cases (a % 2 ^ order == 0)) [
      | inl e ↦ elim (Bool-cases (leb min_order order)) [
        | inl e' ↦ rw (e, e', stops)
        | inr e' ↦ rw (e, e')
      ]
      | inr e ↦ rw e
    ]
