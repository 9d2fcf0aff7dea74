-- ===== src/Pmm/Refill.antt =====
-- A block that is freed is the next one to be allocated, where the smaller lists are empty.
use mxos_v.Base.{
  ℕ, zero, suc, ◌+◌, ◌-◌, ◌/◌, ◌%◌, ◌^◌, ◌≤◌, ◌<◌, ◌≡◌, refl, true, false, none, some, List, [],
  ◌∷◌, drop, length,
}
use mxos_v.Base.Bits.{div-pow_half}
use mxos_v.Bitmap
use mxos_v.Pmm.{
  Memory, Buddy, BuddyAllocator, DirectMap, store, pop_free_list, free_loop, pop_first, free,
  min_order, end_order,
}
use mxos_v.Pmm.Slices.{splice, drop-splice, length-splice, with_slice-run}
use mxos_v.Pmm.RoundTrip.{
  Marked, FirstFree, get-toggle_self, toggle_run, free_loop_stop, free_loop_climb, free_run,
}

-- The block is in use and its buddies on the `n` levels below are free: freeing it merges up to
-- level `n`. `pair` counts pairs of the first level.
abbrev pub Held : ℕ → ℕ → List Buddy → Type 0
Held n pair [] = ⊥
Held zero pair (b ∷ bs) = Bitmap.get b.map pair ≡ some false
Held (suc n) pair (b ∷ bs) = (Bitmap.get b.map pair ≡ some true) × Held n (pair / 2) bs

-- The first `n` free lists are empty.
abbrev pub EmptyBelow : ℕ → List Buddy → Type 0
EmptyBelow zero bs = Unit
EmptyBelow (suc n) [] = Unit
EmptyBelow (suc n) (b ∷ bs) = (b.free_list ≡ none) × EmptyBelow n bs

-- The outcome of the loop of `free`.
record Returned (n pair virt : ℕ) (bs : List Buddy) (mem : Memory) : Type 0 where
  out : List Buddy
  mem' : Memory
  popped : List Buddy
  runs : free_loop bs pair virt mem ≡ some (out, (mem', true))
  first : pop_first mem' out ≡ some (virt, n, popped)
  marked : Marked n (pair / 2) out

module _ (virt : ℕ) (mem : Memory) (pos : 0 < virt) where
  free_loop-Returned :
      (n pair : ℕ) (bs : List Buddy)
      → Held n (pair / 2) bs
      → EmptyBelow n bs
      → Returned n pair virt bs mem
  unfolding pop_first pop_free_list
  free_loop-Returned n pair [] h empty = absurd h
  free_loop-Returned zero pair (b ∷ bs) h empty =
      let (w, e) = toggle_run b.map (pair / 2) h in
      let read = get-toggle_self b.map (pair / 2) e h in
      record {
        out = record b { free_list = some virt; map = w } ∷ bs;
        mem' = store mem virt b.free_list;
        popped = record b { free_list = store mem virt b.free_list virt; map = w } ∷ bs;
        runs = free_loop_stop b bs pair virt mem e pos read;
        first = refl;
        marked = read;
      }
  free_loop-Returned (suc n) pair (b ∷ bs) h empty =
      let (w, e) = toggle_run b.map (pair / 2) (h.0) in
      let read = get-toggle_self b.map (pair / 2) e (h.0) in
      let up = free_loop-Returned n (pair / 2) bs (h.1) (empty.1) in
      record {
        out = record b { map = w } ∷ up.out;
        mem' = up.mem';
        popped = record b { map = w } ∷ up.popped;
        runs = rw (free_loop_climb b bs pair virt mem e read, up.runs) refl;
        first = rw (empty.0, up.first) refl;
        marked = (read, up.marked);
      }

-- Freeing an aligned block of an order of the allocator that is in use, whose buddies on the `n`
-- levels from its order on are free and the one above is not, where the lists of these levels are
-- empty, succeeds and leaves the block as the first free one, at level `n`: `alloc` of that order
-- can return it next.
pub free-FirstFree :
    (d : DirectMap) (order a n : ℕ) (s : BuddyAllocator)
    → min_order ≤ order
    → order < end_order
    → order - min_order ≤ length s.buddies
    → a % 2 ^ order ≡ 0
    → Held n (a / 2 ^ (order + 1)) (drop (order - min_order) s.buddies)
    → EmptyBelow n (drop (order - min_order) s.buddies)
    → (s' : BuddyAllocator) × (free d order a s ≡ some s') × FirstFree d order a n s'
free-FirstFree d order a n s from to present aligned held empty =
    let i = order - min_order in
    let slice = drop i s.buddies in
    let halve = div-pow_half a order in
    let r =
      free_loop-Returned (d.to_virt a) s.mem (d.not_null a) n (a / 2 ^ order) slice (rw halve held)
        empty in
    let put = λ (xs : List Buddy). free_loop xs (a / 2 ^ order) (d.to_virt a) s.mem in
    let frees = with_slice-run put i s.buddies r.out (r.mem', true) present r.runs in
    let s' : BuddyAllocator = record { buddies = splice i s.buddies r.out; mem = r.mem' } in
    let tail : drop i (splice i s.buddies r.out) ≡ r.out = drop-splice i s.buddies r.out present in
    (
      s',
      free_run d order s from a aligned frees,
      record {
        popped = r.popped;
        first = rw tail r.first;
        marked = rw (tail, ← halve) r.marked;
        aligned = aligned;
        from = from;
        to = to;
        present = length-splice i s.buddies r.out present;
      },
    )
