-- ===== src/Pmm/FreeList.antt =====
-- A free list threaded through memory, as a list of addresses: pushing and popping are cons and
-- uncons, and a push leaves the other lists as they are.
use mxos_v.Base.{ℕ, ◌<◌, ◌≡◌, ◌==◌, false, ◌≢◌, refl, Option, none, some, List, [], ◌∷◌, arith}
use mxos_v.Pmm.{Memory, Buddy, store, push_free_list, pop_free_list}

-- The list that starts at `head` holds exactly these addresses, in this order.
abbrev pub Chain : Memory → Option ℕ → List ℕ → Type 0
Chain mem none [] = Unit
Chain mem none (x ∷ xs) = ⊥
Chain mem (some p) [] = ⊥
Chain mem (some p) (x ∷ xs) = (p ≡ x) × Chain mem (mem p) xs

abbrev pub Avoids : ℕ → List ℕ → Type 0
Avoids a [] = Unit
Avoids a (x ∷ xs) = (x ≢ a) × Avoids a xs

-- A write to a frame that is not on the list does not touch the list.
pub Chain-store :
    (mem : Memory) (a : ℕ) (v : Option ℕ) (head : Option ℕ) (xs : List ℕ)
    → Avoids a xs
    → Chain mem head xs
    → Chain (store mem a v) head xs
Chain-store mem a v none [] n c = tt
Chain-store mem a v none (x ∷ xs) n c = c
Chain-store mem a v (some p) [] n c = c
Chain-store mem a v (some p) (x ∷ xs) n c =
    let e : store mem a v p ≡ mem p = ground arith in
    (c.0, rw e (Chain-store mem a v (mem p) xs (n.1) (c.1)))

-- Pushing a frame that is not null and not on the list puts it in front, keeps the bitmap, and
-- keeps any other list that the frame is not on.
push_free_list-Chain :
    (b : Buddy) (addr : ℕ) (mem : Memory) (xs : List ℕ) (other : Option ℕ) (ys : List ℕ)
    → 0 < addr
    → Avoids addr xs
    → Avoids addr ys
    → Chain mem b.free_list xs
    → Chain mem other ys
    → let (b', mem') = push_free_list b addr mem in
      Chain mem' b'.free_list (addr ∷ xs) × Chain mem' other ys × (b'.map ≡ b.map)
unfolding push_free_list
push_free_list-Chain b addr mem xs other ys pos ax ay c c' =
    let e : (addr == 0) ≡ false = ground arith in
    rw e (
      let self : store mem addr b.free_list addr ≡ b.free_list = ground arith in
      (
        (refl, rw self (Chain-store mem addr b.free_list b.free_list xs ax c)),
        Chain-store mem addr b.free_list other ys ay c',
        refl,
      ))

-- Popping a list that is not empty gives its first frame and leaves the list of the others, and it
-- keeps the bitmap.
pop_free_list-Chain :
    (b : Buddy) (mem : Memory) (x : ℕ) (xs : List ℕ)
    → Chain mem b.free_list (x ∷ xs)
    → (b' : Buddy) × (pop_free_list b mem ≡ some (x, b'))
      × Chain mem b'.free_list xs
      × (b'.map ≡ b.map)
unfolding pop_free_list
pop_free_list-Chain b mem x xs c = at b.free_list refl c
  where
    at :
        (h : Option ℕ)
        → b.free_list ≡ h
        → Chain mem h (x ∷ xs)
        → (b' : Buddy) × (pop_free_list b mem ≡ some (x, b'))
          × Chain mem b'.free_list xs
          × (b'.map ≡ b.map)
    at none e c = absurd c
    at (some p) e c =
        (record b { free_list = mem p }, rw (e, pop_free_list) (ground arith), c.1, refl)
