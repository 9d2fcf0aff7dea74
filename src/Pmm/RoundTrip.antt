-- ===== src/Pmm/RoundTrip.antt =====
-- `alloc` and the `free` that undoes it.
use mxos_v.Base.{
  le→leb, lt→ltb, ℕ, zero, suc, ◌+◌, ◌-◌, ◌/◌, ◌%◌, ◌^◌, ◌≤◌, ◌<◌, ◌≡◌, refl, ap, ◌∙◌, Bool, true,
  false, not, Option, none, some, List, [], ◌∷◌, arith, ◌>>=◌, ◌==◌, ==_refl, drop, length,
  Option-cases, inl, inr,
}
use mathlib.Core.Path.{fun_ext}
use mxos_v.Base.Bits.{div-pow_half}
use mxos_v.Bitmap
use mxos_v.Bitmap.Access.{get-toggle, toggle-toggle, panic_iff}
use mxos_v.Pmm.{
  Memory, Buddy, BuddyAllocator, DirectMap, store, push_free_list, pop_free_list, free_loop,
  pop_first, toggle_orders, with_slice, free, alloc, alloc_slice, min_order, end_order,
}
use mxos_v.Pmm.Slices.{
  splice, splice-drop, splice-splice, drop-splice, with_slice-run, length-splice,
}

-- Writing back what memory holds changes nothing.
store_self : (mem : Memory) (a : ℕ) → store mem a (mem a) ≡ mem
store_self mem a = fun_ext λ p. ground arith

-- The block on level `n` above has its bit set, and its pairs on the levels below are clear:
-- the block is free as a whole. `pair` counts pairs of the first level.
abbrev pub Marked : ℕ → ℕ → List Buddy → Type 0
Marked n pair [] = ⊥
Marked zero pair (b ∷ bs) = Bitmap.get b.map pair ≡ some true
Marked (suc n) pair (b ∷ bs) = (Bitmap.get b.map pair ≡ some false) × Marked n (pair / 2) bs

-- Toggling a bit flips what is read there.
pub get-toggle_self :
    (m : List ℕ) (pair : ℕ) {m' : List ℕ} {v : Bool}
    → Bitmap.toggle m pair ≡ some m'
    → Bitmap.get m pair ≡ some v
    → Bitmap.get m' pair ≡ some (not v)
get-toggle_self m pair {m'} {v} h e = get-toggle m pair pair h ∙ (rw (==_refl pair, e) refl)

-- What a successful `pop_first` did, by the number of buddies that it passed over.
pub pop_first-zero :
    (mem : Memory) (b : Buddy) (bs : List Buddy) {virt : ℕ} {popped : List Buddy}
    → pop_first mem (b ∷ bs) ≡ some (virt, 0, popped)
    → (b.free_list ≡ some virt) × (popped ≡ record b { free_list = mem virt } ∷ bs)
unfolding pop_first pop_free_list
pop_first-zero mem b bs {virt} {popped} h = ground arith

pub pop_first-suc :
    (mem : Memory) (b : Buddy) (bs : List Buddy) {virt n : ℕ} {popped : List Buddy}
    → pop_first mem (b ∷ bs) ≡ some (virt, suc n, popped)
    → (rest : List Buddy) × (b.free_list ≡ none)
      × (pop_first mem bs ≡ some (virt, n, rest))
      × (popped ≡ b ∷ rest)
unfolding pop_first pop_free_list
pop_first-suc mem b bs {virt} {n} {popped} h = ground arith

pub toggle_orders-suc :
    (rounds order addr : ℕ) (b : Buddy) (bs : List Buddy) {toggled : List Buddy}
    → toggle_orders (suc rounds) order addr (b ∷ bs) ≡ some toggled
    → (m : List ℕ) × (rest : List Buddy) × (Bitmap.toggle b.map (addr / 2 ^ (order + 1)) ≡ some m)
      × (toggle_orders rounds (order + 1) addr bs ≡ some rest)
      × (toggled ≡ record b { map = m } ∷ rest)
unfolding toggle_orders
toggle_orders-suc rounds order addr b bs {toggled} h = ground arith

toggle_orders-zero :
    (order addr : ℕ) (bs : List Buddy) {rest : List Buddy}
    → toggle_orders 0 order addr bs ≡ some rest
    → bs ≡ rest
unfolding toggle_orders
toggle_orders-zero order addr bs h = cc

module _ (b : Buddy) (bs : List Buddy) (pair virt : ℕ) (mem : Memory) {w : List ℕ}
    (tog : Bitmap.toggle b.map (pair / 2) ≡ some w) where
  -- The pair differs after the toggle: the block goes on this list.
  pub free_loop_stop :
      0 < virt
      → Bitmap.get w (pair / 2) ≡ some true
      → free_loop (b ∷ bs) pair virt mem
        ≡ some
            (record b { free_list = some virt; map = w } ∷ bs, (store mem virt b.free_list, true))
  unfolding free_loop push_free_list
  free_loop_stop pos read =
      let e : (virt == 0) ≡ false = ground arith in rw (tog, ◌>>=◌, read) (rw e)

  -- The pair is the same after the toggle: the block is merged and goes up.
  pub free_loop_climb :
      Bitmap.get w (pair / 2) ≡ some false
      → free_loop (b ∷ bs) pair virt mem
        ≡ (free_loop bs (pair / 2) virt mem >>= λ r. some (record b { map = w } ∷ r.0, r.1))
  unfolding free_loop
  free_loop_climb read = rw (tog, ◌>>=◌, read)

module _ (virt : ℕ) (mem : Memory) (pos : 0 < virt) where
  free_loop-toggled :
      (n order addr pair : ℕ) (bs popped toggled : List Buddy)
      → pop_first mem bs ≡ some (virt, n, popped)
      → toggle_orders (suc n) order addr popped ≡ some toggled
      → pair / 2 ≡ addr / 2 ^ (order + 1)
      → Marked n (pair / 2) bs
      → free_loop toggled pair virt mem ≡ some (bs, (mem, true))
  free_loop-toggled n order addr pair [] popped toggled p t e m = absurd m
  free_loop-toggled zero order addr pair (b ∷ bs) popped toggled p t e m =
      let (head, ep) = pop_first-zero mem b bs p in
      let (w, rest, tog, more, et) =
        toggle_orders-suc 0 order addr (record b { free_list = mem virt }) bs (rw ep at t) in
      let undo = toggle-toggle b.map (pair / 2) (rw (← e) at tog) in
      let same = toggle_orders-zero (order + 1) addr bs more in
      rw
        (
          et,
          free_loop_stop (record b { free_list = mem virt; map = w }) rest pair virt mem undo pos m,
          store_self mem virt,
          ← same,
          ← head,
        )
        refl
  free_loop-toggled (suc n) order addr pair (b ∷ bs) popped toggled p t e m =
      let (rest, head, p', ep) = pop_first-suc mem b bs p in
      let (w, rest', tog, more, et) = toggle_orders-suc (suc n) order addr b rest (rw ep at t) in
      let undo = toggle-toggle b.map (pair / 2) (rw (← e) at tog) in
      let ih =
        free_loop-toggled n (order + 1) addr (pair / 2) bs rest rest' p' more
          (ap (λ t. t / 2) e ∙ div-pow_half addr (order + 1)) (m.1) in
      rw (et, free_loop_climb (record b { map = w }) rest' pair virt mem undo (m.0), ih) refl

-- A pair that can be read can be toggled.
pub toggle_run :
    (m : List ℕ) (pair : ℕ) {v : Bool}
    → Bitmap.get m pair ≡ some v
    → (w : List ℕ) × (Bitmap.toggle m pair ≡ some w)
toggle_run m pair h = elim (Option-cases (Bitmap.toggle m pair)) [
  | inl e ↦
      let (reads, toggles, _) = panic_iff m pair true in absurd (cc (reads.1 (toggles.0 e), h))
  | inr found ↦ found
]

pop_first-Marked :
    (mem : Memory) (n pair : ℕ) (bs : List Buddy) {virt : ℕ} {popped : List Buddy}
    → pop_first mem bs ≡ some (virt, n, popped)
    → Marked n pair bs
    → Marked n pair popped
pop_first-Marked mem n pair [] p m = absurd m
pop_first-Marked mem zero pair (b ∷ bs) p m = rw ((pop_first-zero mem b bs p).1) m
pop_first-Marked mem (suc n) pair (b ∷ bs) p m =
    let (rest, head, p', ep) = pop_first-suc mem b bs p in
    rw ep (m.0, pop_first-Marked mem n (pair / 2) bs p' (m.1))

toggle_orders_run :
    (n order addr : ℕ) (bs : List Buddy)
    → Marked n (addr / 2 ^ (order + 1)) bs
    → (toggled : List Buddy) × (toggle_orders (suc n) order addr bs ≡ some toggled)
unfolding toggle_orders
toggle_orders_run n order addr [] m = absurd m
toggle_orders_run zero order addr (b ∷ bs) m =
    let (w, e) = toggle_run b.map (addr / 2 ^ (order + 1)) m in (record b { map = w } ∷ bs, rw e)
toggle_orders_run (suc n) order addr (b ∷ bs) m =
    let (w, e) = toggle_run b.map (addr / 2 ^ (order + 1)) (m.0) in
    let (rest, e') =
      toggle_orders_run n (order + 1) addr bs (rw (div-pow_half addr (order + 1)) at (m.1)) in
    (record b { map = w } ∷ rest, rw (e, ◌>>=◌, e'))

-- `a` is the block that `alloc order` takes: the head of the first list that is not empty, `n`
-- levels above `order`, and free as a whole.
pub record FirstFree (d : DirectMap) (order a n : ℕ) (s : BuddyAllocator) : Type 0 where
  pub popped : List Buddy
  pub first : pop_first s.mem (drop (order - min_order) s.buddies) ≡ some (d.to_virt a, n, popped)
  pub marked : Marked n (a / 2 ^ (order + 1)) (drop (order - min_order) s.buddies)
  pub aligned : a % 2 ^ order ≡ 0
  pub from : min_order ≤ order
  pub to : order < end_order
  pub present : order - min_order ≤ length s.buddies

module _ (d : DirectMap) (order : ℕ) (s : BuddyAllocator) (from : min_order ≤ order) where
  pub alloc_run :
      {bs : List Buddy} {r : Option ℕ}
      → order < end_order
      → with_slice (order - min_order) (alloc_slice d order s.mem) s.buddies ≡ some (bs, r)
      → alloc d order s ≡ some (r, record s { buddies = bs })
  unfolding alloc
  alloc_run to h = rw (le→leb min_order order from, lt→ltb order end_order to, h)

  pub free_run :
      (a : ℕ) {bs : List Buddy} {mem : Memory}
      → a % 2 ^ order ≡ 0
      → with_slice
          (order - min_order)
          (λ slice. free_loop slice (a / 2 ^ order) (d.to_virt a) s.mem)
          s.buddies
        ≡ some (bs, (mem, true))
      → free d order a s ≡ some (record { buddies = bs; mem = mem })
  unfolding free
  free_run a aligned h = rw (aligned, le→leb min_order order from, h)

-- Where `a` is the first frame on the lists from the order on, at level `n` above it, aligned to
-- the order, and the bits of its pairs say that the block at that level is free as a whole and
-- those below are merged, `alloc` returns `a`, and freeing `a` gives back the allocator, memory
-- included.
pub free-alloc :
    (d : DirectMap) (order a n : ℕ) (s : BuddyAllocator)
    → FirstFree d order a n s
    → (s' : BuddyAllocator) × (alloc d order s ≡ some (some a, s')) × (free d order a s' ≡ some s)
unfolding alloc_slice
free-alloc d order a n s f =
    let i = order - min_order in
    let slice = drop i s.buddies in
    let (toggled, et) =
      toggle_orders_run n order a f.popped (pop_first-Marked s.mem n _ slice f.first f.marked) in
    let halve = div-pow_half a order in
    let back =
      free_loop-toggled (d.to_virt a) s.mem (d.not_null a) n order a (a / 2 ^ order) slice f.popped
        toggled f.first et halve (rw halve f.marked) in
    let out = splice i s.buddies toggled in
    let takes : alloc_slice d order s.mem slice ≡ some (toggled, some a) =
      rw (f.first, alloc_slice, d.back a, et) in
    let allocs =
      with_slice-run (alloc_slice d order s.mem) i s.buddies toggled (some a) f.present takes in
    let s' = record s { buddies = out } in
    let put = λ (xs : List Buddy). free_loop xs (a / 2 ^ order) (d.to_virt a) s.mem in
    let long : i ≤ length out = length-splice i s.buddies toggled f.present in
    let tail : drop i out ≡ toggled = drop-splice i s.buddies toggled f.present in
    let frees = with_slice-run put i out slice (s.mem, true) long (rw tail back) in
    let whole : splice i out slice ≡ s.buddies =
      splice-splice i s.buddies toggled slice ∙ splice-drop i s.buddies in
    (
      s',
      alloc_run d order s f.from f.to allocs,
      free_run d order s' f.from a f.aligned frees
          ∙ ap (λ bs. some (record { buddies = bs; mem = s.mem })) whole,
    )
