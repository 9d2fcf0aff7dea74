-- ===== src/Vmm/Free.antt =====
-- `free`: the space that it gives back, and the ranges that it joins.
use mxos_v.Base.{
  ℕ, ◌+◌, ◌-◌, ◌%◌, ◌^◌, ◌≤◌, ◌<◌, max, bit_and, ◌≡◌, ◌⊎◌, refl, sym, ap, ◌∙◌, true, false, some,
  List, [], ◌∷◌, ◌==◌, ==_iff, ltb, leb, leb→le, ltb→lt, lt→ltb, Bool-cases, Option-cases, inl, inr,
  arith,
}
use mxos_v.Base.Bits.{bit_not}
use mxos_v.Vmm.{
  SizeAddr, TreeBestFitAlloc, Freed, entry_eq, page_size, round_up, set_remove, map_before, map_get,
  map_remove, take_out, join_before, join_after, add_range, free,
}
use mxos_v.Vmm.Sets.{
  inside, inside_entry, covering, covering-set_insert, entry_eq-inside, set_remove-first,
  set_remove-later,
}

abbrev pub Member : SizeAddr → List SizeAddr → Type 0
Member e [] = ⊥
Member e (y ∷ ys) = (entry_eq e y ≡ true) ⊎ Member e ys

-- A range of the set, taken out.
covering-remove :
    (x : ℕ) (e : SizeAddr) (es : List SizeAddr)
    → Member e es
    → covering x es ≡ inside_entry x e + covering x (set_remove e es)
covering-remove x e [] h = elim h [ ]
covering-remove x e (y ∷ ys) h = elim (Bool-cases (entry_eq e y)) [
  | inl same ↦ rw (set_remove-first e y ys same, entry_eq-inside x e y same) refl
  | inr other ↦ elim h [
    | inl same ↦ absurd (cc)
    | inr later ↦ rw (set_remove-later e y ys other, covering-remove x e ys later) (omega arith)
  ]
]

entry_eq_trans_ne :
    (a b y : SizeAddr) → entry_eq a b ≡ false → entry_eq a y ≡ true → entry_eq b y ≡ false
entry_eq_trans_ne a b y ne same = ground arith

Member-remove :
    (a b : SizeAddr) (es : List SizeAddr)
    → entry_eq a b ≡ false
    → Member a es
    → Member a (set_remove b es)
Member-remove a b [] ne h = elim h [ ]
Member-remove a b (y ∷ ys) ne (inl same) =
    rw (set_remove-later b y ys (entry_eq_trans_ne a b y ne same)) (inl same)
Member-remove a b (y ∷ ys) ne (inr later) = elim (Bool-cases (entry_eq b y)) [
  | inl same ↦ rw (set_remove-first b y ys same) later
  | inr other ↦ rw (set_remove-later b y ys other) (inr (Member-remove a b ys ne later))
]

abbrev pub Lists : List (ℕ × ℕ) → ℕ → ℕ → Type 0
Lists [] k v = ⊥
Lists ((k', v') ∷ m) k v = ((k' ≡ k) × (v' ≡ v)) ⊎ Lists m k v

-- A range that the map lists is in the set too, and ends below 2 ^ 64.
abbrev pub IsListed : TreeBestFitAlloc → Type 0
IsListed t =
    (k v : ℕ)
    → Lists t.addr_size_tree k v
    → Member (record { size = v; addr = k }) t.size_addr_tree × (k + v < 2 ^ 64)

map_before-Lists :
    (k : ℕ) (m : List (ℕ × ℕ)) {e : ℕ × ℕ}
    → map_before k m ≡ some e
    → (e.0 < k) × Lists m (e.0) (e.1)
unfolding map_before
map_before-Lists k [] h = cc
map_before-Lists k ((k', v') ∷ m) {e} h = elim (Bool-cases (ltb k' k)) [
  | inl below ↦ elim (Option-cases (map_before k m)) [
    | inl last ↦
        let same : (k', v') ≡ e = cc (rw (map_before, below, last) at h) in
        (
          omega (arith, ap (λ q. q.0) same, ltb→lt k' k below),
          inl (ap (λ q. q.0) same, ap (λ q. q.1) same),
        )
    | inr (e', later) ↦
        let same : e' ≡ e = cc (rw (map_before, below, later) at h) in
        let (less, there) = map_before-Lists k m {e = e'} later in rw (← same) (less, inr there)
  ]
  | inr above ↦ absurd (cc (rw (map_before, above) at h))
]

map_get-Lists : (k : ℕ) (m : List (ℕ × ℕ)) {v : ℕ} → map_get k m ≡ some v → Lists m k v
unfolding map_get
map_get-Lists k [] h = cc
map_get-Lists k ((k', v') ∷ m) {v} h = elim (Bool-cases (k == k')) [
  | inl here ↦ inl (sym ((==_iff k k').0 here), cc (rw (map_get, here) at h))
  | inr later ↦ inr (map_get-Lists k m (rw (map_get, later) at h))
]

Lists-tail :
    (k k' v v' : ℕ) (m m' : List (ℕ × ℕ))
    → (Lists m' k v → Lists m k v)
    → Lists ((k', v') ∷ m') k v
    → Lists ((k', v') ∷ m) k v
Lists-tail k k' v v' m m' f (inl e) = inl e
Lists-tail k k' v v' m m' f (inr e) = inr (f e)

map_remove-Lists : (p : ℕ) (m : List (ℕ × ℕ)) (k v : ℕ) → Lists (map_remove p m) k v → Lists m k v
unfolding map_remove
map_remove-Lists p [] k v h = h
map_remove-Lists p ((k', v') ∷ m) k v h = elim (Bool-cases (p == k')) [
  | inl here ↦ inr (rw (map_remove, here) at h)
  | inr later ↦
      Lists-tail k k' v v' m (map_remove p m) (map_remove-Lists p m k v)
        (rw (map_remove, later) at h)
]

-- The range that is being freed, with the ranges of the set, covers what `target` says.
record IsFreeing (target : ℕ → ℕ) (f : Freed) : Type 0 where
  space : (x : ℕ) → target x ≡ inside_entry x f.range + covering x f.trees.size_addr_tree
  once : (x : ℕ) → target x ≤ 1
  pos : 0 < f.range.size
  ends : f.range.addr + f.range.size < 2 ^ 64

-- Above the range that is being freed, the two trees agree.
abbrev IsListedAbove : Freed → Type 0
IsListedAbove f =
    (k v : ℕ)
    → f.range.addr < k
    → Lists f.trees.addr_size_tree k v
    → Member (record { size = v; addr = k }) f.trees.size_addr_tree × (k + v < 2 ^ 64)

-- A range of the set that the freed one touches from above ends where that one starts.
touching :
    (p s a n rest : ℕ)
    → inside a a (a + n) + (inside a p (p + s) + rest) ≤ 1
    → 0 < n
    → p < a
    → a ≤ p + s
    → p + s ≡ a
touching p s a n rest once pos below reach = ground arith

joined :
    (x p s a n : ℕ) → p + s ≡ a → inside x p (p + (s + n)) ≡ inside x a (a + n) + inside x p (p + s)
joined x p s a n e = let ends : p + (s + n) ≡ a + n = omega arith in rw (← e) (ground arith)

other_key :
    (k v p s : ℕ)
    → p < k
    → entry_eq (record { size = v; addr = k }) (record { size = s; addr = p }) ≡ false
other_key k v p s h = ground arith

-- The range before, joined.
module _ (target : ℕ → ℕ) (f : Freed) (p s : ℕ) (listed : IsListed f.trees)
    (inv : IsFreeing target f) (there : Lists f.trees.addr_size_tree p s) where
  abbrev before : SizeAddr
  before = record { size = s; addr = p }

  still_listed :
      (k v : ℕ)
      → p < k
      → Lists (map_remove p f.trees.addr_size_tree) k v
      → Member (record { size = v; addr = k }) (set_remove before f.trees.size_addr_tree)
        × (k + v < 2 ^ 64)
  still_listed k v above h =
      let (member, ends) = listed k v (map_remove-Lists p f.trees.addr_size_tree k v h) in
      (
        Member-remove (record { size = v; addr = k }) before f.trees.size_addr_tree
            (other_key k v p s above) member,
        ends,
      )

  abbrev with_before : Freed
  with_before = record {
    range = record { size = max s ((f.range.addr - p + f.range.size) % 2 ^ 64); addr = p };
    trees = take_out before f.trees;
  }

  with_before-IsFreeing : p < f.range.addr → f.range.addr ≤ p + s → IsFreeing target with_before
  with_before-IsFreeing below reach =
      let a : ℕ = f.range.addr in
      let n : ℕ = f.range.size in
      let out = λ (x : ℕ). covering-remove x before f.trees.size_addr_tree ((listed p s there).0) in
      let rest : ℕ = covering a (set_remove before f.trees.size_addr_tree) in
      let at_start : inside a a (a + n) + (inside a p (p + s) + rest) ≤ 1 =
        omega (arith, inv.once a, inv.space a, out a) in
      let ends : p + s ≡ a = touching p s a n rest at_start inv.pos below reach in
      let whole : max s ((a - p + n) % 2 ^ 64) ≡ s + n = omega (arith, inv.ends, inv.pos) in
      record {
        space = λ x. rw whole (omega (arith, inv.space x, out x, joined x p s a n ends));
        once = inv.once;
        pos = rw whole (omega (arith, inv.pos));
        ends = rw whole (omega (arith, inv.ends));
      }

join_before-IsFreeing :
    (target : ℕ → ℕ) (f : Freed)
    → IsListed f.trees
    → IsFreeing target f
    → IsFreeing target (join_before f) × IsListedAbove (join_before f)
unfolding join_before
join_before-IsFreeing target f listed inv =
    elim (Option-cases (map_before f.range.addr f.trees.addr_size_tree)) [
      | inl alone ↦ rw (join_before, alone) (inv, λ k v _ h. listed k v h)
      | inr ((p, s), found) ↦
          let (below, there) = map_before-Lists _ _ {e = (p, s)} found in
          let (member, prev_ends) = listed p s there in
          let no_wrap : (p + s) % 2 ^ 64 ≡ p + s = omega arith in
          elim (Bool-cases (leb f.range.addr (p + s))) [
            | inr apart ↦ rw (join_before, found, no_wrap, apart) (inv, λ k v _ h. listed k v h)
            | inl reach ↦
                rw (join_before, found, no_wrap, reach)
                  (
                    with_before-IsFreeing target f p s listed inv there below (leb→le _ _ reach),
                    still_listed target f p s listed inv there,
                  )
          ]
    ]

join_after-IsFreeing :
    (target : ℕ → ℕ) (f : Freed)
    → IsListedAbove f
    → IsFreeing target f
    → IsFreeing target (join_after f)
unfolding join_after
join_after-IsFreeing target f listed inv =
    let a : ℕ = f.range.addr in
    let n : ℕ = f.range.size in
    let inside_space = lt→ltb (a + n) (2 ^ 64) inv.ends in
    elim (Option-cases (map_get (a + n) f.trees.addr_size_tree)) [
      | inl alone ↦ rw (join_after, inside_space, alone) inv
      | inr (s, found) ↦
          let next_range : SizeAddr = record { size = s; addr = a + n } in
          let (member, ends) =
            listed (a + n) s (omega (arith, inv.pos))
              (map_get-Lists (a + n) f.trees.addr_size_tree found) in
          let no_wrap : (n + s) % 2 ^ 64 ≡ n + s = omega arith in
          rw (join_after, inside_space, found, no_wrap)
            (record {
              space = λ x. omega (
                arith,
                inv.space x,
                covering-remove x next_range f.trees.size_addr_tree member,
                joined x a n (a + n) s refl,
              );
              once = inv.once;
              pos = omega (arith, inv.pos);
              ends = omega arith;
            })
    ]

start_free : (a n rest : ℕ) → inside a a (a + n) + rest ≤ 1 → 0 < n → rest ≡ 0
start_free a n rest once pos = ground arith

add_range-space :
    (target : ℕ → ℕ) (f : Freed)
    → IsFreeing target f
    → (x : ℕ) → target x ≡ covering x (add_range f).size_addr_tree
unfolding add_range
add_range-space target f inv x =
    let a : ℕ = f.range.addr in
    let rest : ℕ = covering a f.trees.size_addr_tree in
    let at_start : inside a a (a + f.range.size) + rest ≤ 1 =
      omega (arith, inv.once a, inv.space a) in
    let room : rest ≡ 0 = start_free a f.range.size rest at_start inv.pos in
    inv.space x ∙ sym (covering-set_insert x f.range f.trees.size_addr_tree inv.pos room)

-- The pages that hold the bytes of a range.
abbrev pub pages_of : ℕ → ℕ → SizeAddr
pages_of addr size = record {
  size = round_up page_size size;
  addr = bit_and addr (bit_not 64 (page_size - 1));
}

-- Where the set holds every range that the map lists, and the freed pages overlap no range and end
-- below 2 ^ 64, the free addresses after `free` are those from before and those of the pages, each
-- in one range.
pub free-space :
    (addr size : ℕ) (t : TreeBestFitAlloc)
    → IsListed t
    → 0 < round_up page_size size
    → (pages_of addr size).addr + round_up page_size size < 2 ^ 64
    → ((x : ℕ) → inside_entry x (pages_of addr size) + covering x t.size_addr_tree ≤ 1)
    → (x : ℕ)
    → covering x (free addr size t).size_addr_tree
      ≡ inside_entry x (pages_of addr size) + covering x t.size_addr_tree
unfolding free
free-space addr size t listed pos ends once x =
    let start : Freed = record { range = pages_of addr size; trees = t } in
    let target = λ (x : ℕ). inside_entry x (pages_of addr size) + covering x t.size_addr_tree in
    let inv : IsFreeing target start = record {
      space = λ x. refl;
      once = once;
      pos = pos;
      ends = ends;
    } in
    let (inv₁, above) = join_before-IsFreeing target start listed inv in
    let inv₂ = join_after-IsFreeing target (join_before start) above inv₁ in
    sym (add_range-space target (join_after (join_before start)) inv₂ x)
