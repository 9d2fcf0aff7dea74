-- ===== src/Bitmap/Search.antt =====
-- What `find_first_set` and `find_first_unset` find: the search starts at the word of `start`.
use mxos_v.Base.{
  ltb, ltb→lt, ltb→ge, ==_iff, get_elem?_lt, get_elem?-lt-length, get_elem?-drop, ℕ, zero, suc, ◌+◌,
  ◌-◌, ◌*◌, ◌/◌, ◌%◌, ◌^◌, ◌≤◌, ◌<◌, ◌≡◌, ◌≢◌, Bool, true, false, not, Option, none, some, List, [],
  ◌∷◌, arith, ◌==◌, get_elem?, drop, length, Option-cases, Bool-cases, >>=-eq-some, ◌>>=◌, ap, inl,
  inr,
}
use mxos_v.Base.Bits.{bit, bit-zero, bit-not}
use mxos_v.Bitmap.{
  get, merge_bit, trailing_zeros, trailing_ones, find_word, find_first_set, find_first_unset,
}
use mxos_v.Bitmap.Access.{is_set, get-word}
use native.Mathlib.Nat.{pow-suc, one-le-pow}

-- The count of trailing zeros is the place of the lowest bit.
trailing_zeros_lem :
    (n w : ℕ) → w < 2 ^ n → w ≢ 0 → (trailing_zeros n w < n) × (bit (trailing_zeros n w) w ≡ 1)
unfolding trailing_zeros
trailing_zeros_lem zero w h ne = absurd (ne (omega arith))
trailing_zeros_lem (suc n) w h ne = elim (Bool-cases (w % 2 == 0)) [
  | inl even ↦ rw even (
      let ih = trailing_zeros_lem n (w / 2) (omega (arith, pow-suc 2 n)) (λ e. ne (ground arith)) in
      (omega arith, ih.1))
  | inr odd ↦ rw odd (omega arith, ground arith)
]

trailing_zeros_below : (n w j : ℕ) → j < trailing_zeros n w → bit j w ≡ 0
unfolding trailing_zeros
trailing_zeros_below zero w j h = elim h [ ]
trailing_zeros_below (suc n) w zero h = ground arith
trailing_zeros_below (suc n) w (suc j) h = ground (arith, trailing_zeros_below n (w / 2) j)

trailing_ones_lem :
    (n w : ℕ)
    → w < 2 ^ n
    → w ≢ 2 ^ n - 1
    → (trailing_ones n w < n) × (bit (trailing_ones n w) w ≡ 0)
unfolding trailing_ones
trailing_ones_lem zero w h ne = absurd (ne (omega arith))
trailing_ones_lem (suc n) w h ne = elim (Bool-cases (w % 2 == 1)) [
  | inl odd ↦ rw odd (
      let ih =
        trailing_ones_lem n (w / 2) (omega (arith, pow-suc 2 n))
          (λ e. ne (ground (arith, pow-suc 2 n))) in
      (omega arith, ih.1))
  | inr even ↦ rw even (omega arith, ground arith)
]

trailing_ones_below : (n w j : ℕ) → j < trailing_ones n w → bit j w ≡ 1
unfolding trailing_ones
trailing_ones_below zero w j h = elim h [ ]
trailing_ones_below (suc n) w zero h = ground arith
trailing_ones_below (suc n) w (suc j) h = ground (arith, trailing_ones_below n (w / 2) j)

-- Every word fits 64 bits.
abbrev pub IsWords : List ℕ → Type 0
IsWords ws = (i w : ℕ) → get_elem? ws i ≡ some w → w < 2 ^ 64

-- The word at `n` is the first that passes.
record IsFirst (p : ℕ → Bool) (ws : List ℕ) (n w : ℕ) : Type 0 where
  there : get_elem? ws n ≡ some w
  passes : p w ≡ true
  before : (j v : ℕ) → j < n → get_elem? ws j ≡ some v → p v ≡ false

IsFirst-cons :
    {p : ℕ → Bool} (x : ℕ) {ws : List ℕ} {n w : ℕ}
    → p x ≡ false
    → IsFirst p ws n w
    → IsFirst p (x ∷ ws) (suc n) w
IsFirst-cons {p} x {ws} {n} miss f = record { there = f.there; passes = f.passes; before = earlier }
  where
    earlier : (j v : ℕ) → j < suc n → get_elem? (x ∷ ws) j ≡ some v → p v ≡ false
    earlier zero v h e = let e' : x ≡ v = cc e in rw (← e') miss
    earlier (suc j) v h e = f.before j v (omega arith) e

find_word-some :
    (p : ℕ → Bool) (i : ℕ) (ws : List ℕ) {k w : ℕ}
    → find_word p i ws ≡ some (k, w)
    → (n : ℕ) × (k ≡ i + n) × IsFirst p ws n w
unfolding find_word
find_word-some p i [] h = absurd (cc)
find_word-some p i (x ∷ ws) {k} {w} h = elim (Bool-cases (p x)) [
  | inl hit ↦
      let e : some (i, x) ≡ some (k, w) = rw hit at h in
      let ek : i ≡ k = cc e in
      let ew : x ≡ w = cc e in
      (
        0,
        omega arith,
        record { there = ap some ew; passes = rw (← ew) hit; before = λ j v l. elim l [ ] },
      )
  | inr miss ↦
      let (n, e, f) = find_word-some p (i + 1) ws (rw miss at h) in
      (suc n, omega arith, IsFirst-cons x miss f)
]

find_word-none :
    (p : ℕ → Bool) (i : ℕ) (ws : List ℕ)
    → find_word p i ws ≡ none
    → (j v : ℕ) → get_elem? ws j ≡ some v
    → p v ≡ false
unfolding find_word
find_word-none p i [] h j v e = absurd (cc)
find_word-none p i (x ∷ ws) h zero v e = elim (Bool-cases (p x)) [
  | inl hit ↦ cc (rw hit at h)
  | inr miss ↦ let e' : x ≡ v = cc e in rw (← e') miss
]
find_word-none p i (x ∷ ws) h (suc j) v e = elim (Bool-cases (p x)) [
  | inl hit ↦ cc (rw hit at h)
  | inr miss ↦ find_word-none p (i + 1) ws (rw miss at h) j v e
]

read_word :
    (ws : List ℕ) (b w : ℕ) {v : Bool}
    → get_elem? ws (b / 64) ≡ some w
    → is_set (b % 64) w ≡ v
    → get ws b ≡ some v
read_word ws b w e h = rw (get-word ws b, e) (ap some h)

-- A search for a bit of value `v`: `p` picks a word that has one and `place` its lowest.
module _ (p : ℕ → Bool) (place : ℕ → ℕ) (v : Bool)
    (hit : (w : ℕ) → w < 2 ^ 64 → p w ≡ true → (place w < 64) × (is_set (place w) w ≡ v))
    (below : (w j : ℕ) → j < place w → is_set j w ≡ not v)
    (miss : (w : ℕ) → p w ≡ false → (j : ℕ) → j < 64 → is_set j w ≡ not v) where
  abbrev search : List ℕ → ℕ → Option ℕ
  search ws start =
      find_word p (start / 64) (drop (start / 64) ws) >>= λ r. some (merge_bit r.0 (place r.1))

  search-some :
      (ws : List ℕ) (start : ℕ) {r : ℕ}
      → IsWords ws
      → search ws start ≡ some r
      → (64 * (start / 64) ≤ r)
        × (get ws r ≡ some v)
        × ((b : ℕ) → 64 * (start / 64) ≤ b → b < r → get ws b ≡ some (not v))
  unfolding merge_bit
  search-some ws start {r} ok h =
      let s = start / 64 in
      let (kw, e, m) =
        >>=-eq-some (find_word p s (drop s ws)) (λ q. some (merge_bit q.0 (place q.1))) h in
      let w = kw.1 in
      let (n, ek, f) = find_word-some p s (drop s ws) e in
      let there : get_elem? ws (s + n) ≡ some w = rw (get_elem?-drop s ws n) at (f.there) in
      let good = hit w (ok (s + n) w there) f.passes in
      let er : 64 * kw.0 + place w ≡ r = cc m in
      let word_of : r / 64 ≡ s + n = omega arith in
      let place_of : r % 64 ≡ place w = omega arith in
      (
        omega arith,
        read_word ws r w (rw word_of there) (rw place_of (good.1)),
        λ b from to. elim (Bool-cases (b / 64 == s + n)) [
          | inl same ↦
              let q : b / 64 ≡ s + n = (==_iff (b / 64) (s + n)).0 same in
              read_word ws b w (rw q there) (below w (b % 64) (omega arith))
          | inr other ↦
              let q : b / 64 < s + n = ground (arith, other) in
              let (u, eu) =
                get_elem?_lt ws (b / 64) (omega (arith, get_elem?-lt-length ws (s + n) there)) in
              let back : s + (b / 64 - s) ≡ b / 64 = omega arith in
              let missed =
                f.before (b / 64 - s) u (omega arith)
                  (rw (get_elem?-drop s ws (b / 64 - s), back) eu) in
              read_word ws b u eu (miss u missed (b % 64) (omega arith))
        ],
      )

  search-none :
      (ws : List ℕ) (start : ℕ)
      → search ws start ≡ none
      → (b : ℕ) → 64 * (start / 64) ≤ b
      → b < 64 * length ws
      → get ws b ≡ some (not v)
  unfolding merge_bit
  search-none ws start h b from to =
      let s = start / 64 in
      let (u, eu) = get_elem?_lt ws (b / 64) (omega arith) in
      let back : s + (b / 64 - s) ≡ b / 64 = omega arith in
      let all_missed = find_word-none p s (drop s ws) (nothing_found h) in
      let missed = all_missed (b / 64 - s) u (rw (get_elem?-drop s ws (b / 64 - s), back) eu) in
      read_word ws b u eu (miss u missed (b % 64) (omega arith))
    where
      nothing_found :
          search ws start ≡ none → find_word p (start / 64) (drop (start / 64) ws) ≡ none
      nothing_found h = elim (Option-cases (find_word p (start / 64) (drop (start / 64) ws))) [
        | inl e ↦ e
        | inr (q, e) ↦ cc (rw e at h)
      ]

ones-bit : (n j : ℕ) → j < n → bit j (2 ^ n - 1) ≡ 1
ones-bit n j h =
    let e : 2 ^ n - 1 - 0 ≡ 2 ^ n - 1 = omega arith in
    rw (e, bit-zero j) at (bit-not n j 0 h (one-le-pow n 2 (omega arith)))

module _ (w : ℕ) where
  set_hit :
      w < 2 ^ 64
      → not (w == 0) ≡ true
      → (trailing_zeros 64 w < 64) × (is_set (trailing_zeros 64 w) w ≡ true)
  set_hit h p = let z = trailing_zeros_lem 64 w h (ground arith) in (z.0, rw z.1)

  set_miss : not (w == 0) ≡ false → (j : ℕ) → j < 64 → is_set j w ≡ false
  set_miss p j h = let e : w ≡ 0 = ground arith in rw (e, bit-zero j)

  unset_hit :
      w < 2 ^ 64
      → not (w == 2 ^ 64 - 1) ≡ true
      → (trailing_ones 64 w < 64) × (is_set (trailing_ones 64 w) w ≡ false)
  unset_hit h p = let z = trailing_ones_lem 64 w h (ground arith) in (z.0, rw z.1)

  unset_miss : not (w == 2 ^ 64 - 1) ≡ false → (j : ℕ) → j < 64 → is_set j w ≡ true
  unset_miss p j h = let e : w ≡ 2 ^ 64 - 1 = ground arith in rw (e, ones-bit 64 j h)

-- Bit `r` has value `v`, and from the word of `start` on it is the first such bit.
pub record IsLowest (ws : List ℕ) (start : ℕ) (v : Bool) (r : ℕ) : Type 0 where
  pub from : 64 * (start / 64) ≤ r
  pub has : get ws r ≡ some v
  pub lowest : (b : ℕ) → 64 * (start / 64) ≤ b → b < r → get ws b ≡ some (not v)

-- On words of 64 bits, what `find_first_set` returns is set, and is the lowest set bit from the word
-- of `start` on.
pub find_first_set-some :
    (ws : List ℕ) (start r : ℕ)
    → IsWords ws
    → find_first_set ws start ≡ some r
    → IsLowest ws start true r
unfolding find_first_set merge_bit
find_first_set-some ws start r ok h =
    let (a, b, c) =
      search-some (λ b. not (b == 0)) (trailing_zeros 64) true set_hit
        (λ w j l. rw (trailing_zeros_below 64 w j l)) set_miss ws start ok h in
    record { from = a; has = b; lowest = c }

-- Where `find_first_set` returns nothing, every bit from the word of `start` on is clear.
pub find_first_set-none :
    (ws : List ℕ) (start b : ℕ)
    → find_first_set ws start ≡ none
    → 64 * (start / 64) ≤ b
    → b < 64 * length ws
    → get ws b ≡ some false
unfolding find_first_set merge_bit
find_first_set-none ws start b h =
    search-none (λ b. not (b == 0)) (trailing_zeros 64) true set_hit
      (λ w j l. rw (trailing_zeros_below 64 w j l)) set_miss ws start h b

-- On words of 64 bits, what `find_first_unset` returns is clear, and is the lowest clear bit from the
-- word of `start` on.
find_first_unset-some :
    (ws : List ℕ) (start r : ℕ)
    → IsWords ws
    → find_first_unset ws start ≡ some r
    → IsLowest ws start false r
unfolding find_first_unset merge_bit
find_first_unset-some ws start r ok h =
    let (a, b, c) =
      search-some (λ b. not (b == 2 ^ 64 - 1)) (trailing_ones 64) false unset_hit
        (λ w j l. rw (trailing_ones_below 64 w j l)) unset_miss ws start ok h in
    record { from = a; has = b; lowest = c }

-- A search that starts inside a word does not skip the bits of that word below `start`: where the
-- word has such a bit set, the bit that is found lies below `start`.
pub find_first_set_below :
    (ws : List ℕ) (start b r : ℕ)
    → IsWords ws
    → 64 * (start / 64) ≤ b
    → b < start
    → get ws b ≡ some true
    → find_first_set ws start ≡ some r
    → r < start
find_first_set_below ws start b r ok from below set found =
    let low = find_first_set-some ws start r ok found in
    elim (Bool-cases (ltb r start)) [
      | inl h ↦ ltb→lt r start h
      | inr h ↦ cc (low.lowest b from (omega (arith, ltb→ge r start h)), set)
    ]
