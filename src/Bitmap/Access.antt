-- ===== src/Bitmap/Access.antt =====
-- Reading a bit after a write, for every pair of bits, and where the operations panic.
use mxos_v.Base.{
  ◌↔◌, get_elem?-none, ℕ, ◌*◌, ◌/◌, ◌%◌, ◌^◌, ◌≤◌, ◌<◌, ◌≡◌, refl, ◌≢◌, inl, inr, bit_and, bit_or,
  bit_xor, Bool, true, false, not, Option, none, some, List, arith, ◌==◌, if◌then◌else◌, get_elem?,
  set, length, Option-cases, >>=-eq-some, ◌>>=◌, sym, ap, get_elem?-set_self, get_elem?-set_ne,
  get_elem?-lt-length, set-set_self, set-get_elem?,
}
use mxos_v.Base.Bits.{
  bit, bit_not, and-pow, bit-and, bit-or, bit-xor, bit-pow_self, bit-pow_ne, bit-not, xor-xor,
  bit-le-one,
}
use mxos_v.Bitmap.{split_bit, get, toggle, set_bit, reset, assign}
use mathlib.Core.Option
use native.Mathlib.Nat.{one-le-pow, pow-suc, pow-le-pow_right}
use native.Mathlib.Decide.{ℕ_discrete}

-- The bit, as a test on its word.
abbrev pub is_set : ℕ → ℕ → Bool
is_set j w = bit j w == 1

mask-test : (j w : ℕ) → not (bit_and w (2 ^ j) == 0) ≡ is_set j w
mask-test j w = ground (arith, and-pow j w, bit-le-one j w, one-le-pow j 2)

pub get-word :
    (ws : List ℕ) (b : ℕ) → get ws b ≡ Option.map (is_set (b % 64)) (get_elem? ws (b / 64))
unfolding get split_bit
get-word ws b =
    let e : b % 2 ^ 32 % 64 ≡ b % 64 = omega arith in
    rw e (elim (Option-cases (get_elem? ws (b / 64))) [
      | inl h ↦ rw h
      | inr (w, h) ↦ rw h (ap some (mask-test (b % 64) w))
    ])

-- The shape of the three writes: `f` is applied to the word that holds the bit.
abbrev rewrite_word : (ℕ → ℕ) → List ℕ → ℕ → Option (List ℕ)
rewrite_word f ws b = get_elem? ws (b / 64) >>= λ w. some (set ws (b / 64) (f w))

module _ (ws : List ℕ) (b c : ℕ) (f : ℕ → ℕ) (g : Bool → Bool)
    (here : (w : ℕ) → is_set (b % 64) (f w) ≡ g (is_set (b % 64) w))
    (elsewhere : (w k : ℕ) → k < 64 → k ≢ b % 64 → is_set k (f w) ≡ is_set k w) where
  abbrev Expected : List ℕ → Type 0
  Expected ws' = get ws' c ≡ (if b == c then Option.map g (get ws c) else get ws c)

  get-same_word :
      (w : ℕ) → get_elem? ws (b / 64) ≡ some w → c / 64 ≡ b / 64 → Expected (set ws (b / 64) (f w))
  get-same_word w h same =
      rw
        (
          get-word,
          get-word,
          same,
          h,
          get_elem?-set_self ws (b / 64) (f w) (get_elem?-lt-length ws (b / 64) h),
        )
        (ground (arith, here w, elsewhere w (c % 64)))

  get-other_word : (w : ℕ) → c / 64 ≢ b / 64 → Expected (set ws (b / 64) (f w))
  get-other_word w other =
      rw (get-word, get-word, get_elem?-set_ne ws (b / 64) (c / 64) (f w) (λ e. other (sym e)))
        (let e : (b == c) ≡ false = ground arith in rw e)

  get-rewrite_word : {ws' : List ℕ} → rewrite_word f ws b ≡ some ws' → Expected ws'
  get-rewrite_word {ws'} h =
      let (w, hw, e) = >>=-eq-some (get_elem? ws (b / 64)) (λ w. some (set ws (b / 64) (f w))) h in
      let e' : set ws (b / 64) (f w) ≡ ws' = cc e in
      rw (← e') (elim (ℕ_discrete (c / 64) (b / 64)) [
        | yes same ↦ get-same_word w hw same
        | no other ↦ get-other_word w other
      ])

-- A step that reads the word of a bit and then cannot fail panics exactly past the end.
panics_past_end {ℓ} :
    {A : Type ℓ} (f : ℕ → A) (ws : List ℕ) (b : ℕ)
    → ((get_elem? ws (b / 64) >>= λ w. some (f w)) ≡ none) ↔ (64 * length ws ≤ b)
panics_past_end f ws b = elim (Option-cases (get_elem? ws (b / 64))) [
  | inl e ↦ (λ _. omega (arith, get_elem?-none ws (b / 64) e), λ _. rw e)
  | inr (w, e) ↦
      (λ h. cc (rw e at h), λ h. absurd (omega (arith, get_elem?-lt-length ws (b / 64) e)))
]

module _ (b : ℕ) where
  shift_amount : b % 2 ^ 32 % 64 ≡ b % 64
  shift_amount = omega arith

  toggle-rewrite : (ws : List ℕ) → toggle ws b ≡ rewrite_word (λ w. bit_xor w (2 ^ (b % 64))) ws b
  unfolding toggle split_bit
  toggle-rewrite ws = rw shift_amount

  set_bit-rewrite : (ws : List ℕ) → set_bit ws b ≡ rewrite_word (λ w. bit_or w (2 ^ (b % 64))) ws b
  unfolding set_bit split_bit
  set_bit-rewrite ws = rw shift_amount

  reset-rewrite :
      (ws : List ℕ) → reset ws b ≡ rewrite_word (λ w. bit_and w (bit_not 64 (2 ^ (b % 64)))) ws b
  unfolding reset split_bit
  reset-rewrite ws = rw shift_amount

mask-lt : (j : ℕ) → j < 64 → 2 ^ j < 2 ^ 64
mask-lt j h = omega (arith, pow-le-pow_right {n = 2} (omega arith) h, pow-suc 2 j, one-le-pow j 2)

module _ (ws : List ℕ) (b c : ℕ) {ws' : List ℕ} where
  -- After `toggle` the bit is flipped and every other bit is as it was.
  pub get-toggle :
      toggle ws b ≡ some ws' → get ws' c ≡ (if b == c then Option.map not (get ws c) else get ws c)
  get-toggle h =
      get-rewrite_word ws b c (λ w. bit_xor w (2 ^ (b % 64))) not
        (λ w.
          ground (
            arith,
            bit-xor (b % 64) w (2 ^ (b % 64)),
            bit-pow_self (b % 64),
            bit-le-one (b % 64) w,
          ))
        (λ w k l ne.
          ground (arith, bit-xor k w (2 ^ (b % 64)), bit-pow_ne k (b % 64) ne, bit-le-one k w))
        (rw (toggle-rewrite b ws) at h)

  get-set_bit :
      set_bit ws b ≡ some ws'
      → get ws' c ≡ (if b == c then Option.map (λ _. true) (get ws c) else get ws c)
  get-set_bit h =
      get-rewrite_word ws b c (λ w. bit_or w (2 ^ (b % 64))) (λ _. true)
        (λ w.
          ground
            (arith, bit-or (b % 64) w (2 ^ (b % 64)), bit-pow_self (b % 64), bit-le-one (b % 64) w))
        (λ w k l ne. ground (arith, bit-or k w (2 ^ (b % 64)), bit-pow_ne k (b % 64) ne))
        (rw (set_bit-rewrite b ws) at h)

  get-reset :
      reset ws b ≡ some ws'
      → get ws' c ≡ (if b == c then Option.map (λ _. false) (get ws c) else get ws c)
  get-reset h =
      get-rewrite_word ws b c (λ w. bit_and w (bit_not 64 (2 ^ (b % 64)))) (λ _. false)
        (λ w. ground (
          arith,
          bit-and (b % 64) w (bit_not 64 (2 ^ (b % 64))),
          bit-not 64 (b % 64) (2 ^ (b % 64)),
          mask-lt (b % 64),
          bit-pow_self (b % 64),
        ))
        (λ w k l ne. ground (
          arith,
          bit-and k w (bit_not 64 (2 ^ (b % 64))),
          bit-not 64 k (2 ^ (b % 64)),
          mask-lt (b % 64),
          bit-pow_ne k (b % 64) ne,
          bit-le-one k w,
        ))
        (rw (reset-rewrite b ws) at h)

  -- After `assign` the bit reads as the assigned value and every other bit is as it was.
  get-assign :
      (v : Bool)
      → assign ws b v ≡ some ws'
      → get ws' c ≡ (if b == c then Option.map (λ _. v) (get ws c) else get ws c)
  unfolding assign
  get-assign true h = get-set_bit h
  get-assign false h = get-reset h

-- Toggling a bit twice gives the bitmap back.
pub toggle-toggle :
    (ws : List ℕ) (b : ℕ) {ws' : List ℕ} → toggle ws b ≡ some ws' → toggle ws' b ≡ some ws
toggle-toggle ws b {ws'} h =
    let i = b / 64 in
    let m = 2 ^ (b % 64) in
    let (w, hw, e) =
      >>=-eq-some (get_elem? ws i) (λ w. some (set ws i (bit_xor w m)))
        (rw (toggle-rewrite b ws) at h) in
    let e' : set ws i (bit_xor w m) ≡ ws' = cc e in
    rw
      (
        toggle-rewrite b ws',
        ← e',
        get_elem?-set_self ws i (bit_xor w m) (get_elem?-lt-length ws i hw),
        ◌>>=◌,
        xor-xor w m,
        set-set_self ws i (bit_xor w m) w,
        set-get_elem? ws i hw,
      )
      refl

-- An index at or past the end panics, and any other does not: `get`, `toggle` and `assign` alike.
pub panic_iff :
    (ws : List ℕ) (b : ℕ) (v : Bool)
    → ((get ws b ≡ none) ↔ (64 * length ws ≤ b))
      × ((toggle ws b ≡ none) ↔ (64 * length ws ≤ b))
      × ((assign ws b v ≡ none) ↔ (64 * length ws ≤ b))
unfolding assign get split_bit
panic_iff ws b v = (
  panics_past_end (λ w. not (bit_and w (2 ^ (b % 2 ^ 32 % 64)) == 0)) ws b,
  rw (toggle-rewrite b ws) (panics_past_end (λ w. set ws (b / 64) (bit_xor w (2 ^ (b % 64)))) ws b),
  assign_panics v,
)
  where
    assign_panics : (v : Bool) → (assign ws b v ≡ none) ↔ (64 * length ws ≤ b)
    assign_panics true =
        rw (set_bit-rewrite b ws)
          (panics_past_end (λ w. set ws (b / 64) (bit_or w (2 ^ (b % 64)))) ws b)
    assign_panics false =
        rw (reset-rewrite b ws)
          (panics_past_end (λ w. set ws (b / 64) (bit_and w (bit_not 64 (2 ^ (b % 64))))) ws b)
