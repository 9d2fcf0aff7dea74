-- ===== src/Heap/Laws.antt =====
-- `push`, `pop`, `peek` and `pop_any` of the pairing heap: values and order.
use mxos_v.Base.{
  ℕ, zero, suc, ◌+◌, ◌-◌, ◌%◌, ◌/◌, ◌<◌, ◌≡◌, refl, Bool, true, false, some, le→leb, Bool-cases,
  inl, inr, arith,
}
use mxos_v.Bitmap.{trailing_zeros}
use mxos_v.Heap.{
  Order, Link, nil, node, PairingHeap, is_nil, push_loop, push, pop, peek, pop_any, pop_any_link,
}
use mxos_v.Heap.Merge.{one, count, Below, IsHeap, meld-Melds, merge_pairs-Melds}

module _ {ℓ} {A : Type ℓ} (ord : Order A) where
  -- Every value is at most `x`.
  abbrev pub AllBelow : A → Link A → Type 0
  AllBelow x nil = Unit
  AllBelow x (node w l r) = (ord.le w x ≡ true) × AllBelow x l × AllBelow x r

  le_self : (a : A) → ord.le a a ≡ true
  le_self a = elim (Bool-cases (ord.le a a)) [ inl e ↦ e | inr e ↦ ord.total a a e ]

  Below-trans : (x w : A) (l : Link A) → ord.le w x ≡ true → Below ord w l → Below ord x l
  Below-trans x w nil e b = tt
  Below-trans x w (node v l r) e b = (ord.trans v w x b.0 e, Below-trans x w r e b.1)

  IsHeap-AllBelow : (x : A) (l : Link A) → Below ord x l → IsHeap ord l → AllBelow x l
  IsHeap-AllBelow x nil b h = tt
  IsHeap-AllBelow x (node w l r) b h =
      (b.0, IsHeap-AllBelow x l (Below-trans x w l b.0 h.0) h.1, IsHeap-AllBelow x r b.1 h.2)

  -- What `pop` returns and leaves.
  pub record Popped (h : PairingHeap A) : Type ℓ where
    pub value : A
    pub rest : PairingHeap A
    pub runs : pop ord h ≡ some (some value, rest)
    pub greatest : AllBelow value rest.root
    pub counts : (p : A → Bool) → count p h.root ≡ one p value + count p rest.root
    pub heap : IsHeap ord rest.root
    pub length : rest.len + 1 ≡ h.len

  -- On a heap in order that is not empty, `pop` returns a greatest value, takes that value away and
  -- no other, lowers the length by one, and leaves a heap in order.
  pub pop-Popped :
      (h : PairingHeap A) (v : A) (l r : Link A)
      → h.root ≡ node v l r
      → IsHeap ord (node v l r)
      → 0 < h.len
      → Popped h
  unfolding pop
  pop-Popped h v l r e order pos =
      let m = merge_pairs-Melds ord v l r in
      let after = m.heap order tt in
      record {
        value = m.value;
        rest = record { root = m.child; num_merges = 0; len = h.len - 1 };
        runs = rw (e, m.runs, le→leb 1 h.len pos) refl;
        greatest = IsHeap-AllBelow m.value m.child after.0 after.1;
        counts = λ p. rw e (omega (arith, m.counts p));
        heap = after.1;
        length = omega arith;
      }

  -- `peek` on a heap in order that is not empty returns a greatest value, and only rearranges the heap.
  peek-greatest :
      (h : PairingHeap A) (v : A) (l r : Link A)
      → h.root ≡ node v l r
      → IsHeap ord (node v l r)
      → (x : A) × (h' : PairingHeap A) × (peek ord h ≡ some (some x, h'))
        × AllBelow x h'.root
        × ((p : A → Bool) → count p h.root ≡ count p h'.root)
        × IsHeap ord h'.root
        × (h'.len ≡ h.len)
  unfolding peek
  peek-greatest h v l r e order =
      let m = merge_pairs-Melds ord v l r in
      let after = m.heap order tt in
      (
        m.value,
        record h { root = node m.value m.child nil; num_merges = 0 },
        rw (e, m.runs) refl,
        (le_self m.value, IsHeap-AllBelow m.value m.child after.0 after.1, tt),
        λ p. rw e (omega (arith, m.counts p)),
        after,
        refl,
      )

  -- The outcome of the loop of `push`: the values of the siblings are kept.
  record Looped (k : ℕ) (r : Link A) : Type ℓ where
    out : Link A
    runs : push_loop ord k r ≡ some out
    counts : (p : A → Bool) → count p out ≡ count p r
    heap : IsHeap ord r → IsHeap ord out

  push_loop-Looped : (k : ℕ) (v w : A) (l m r : Link A) → Looped k (node v l (node w m r))
  unfolding push_loop
  push_loop-Looped zero v w l m r = record {
    out = node v l (node w m r);
    runs = refl;
    counts = λ p. refl;
    heap = λ h. h;
  }
  push_loop-Looped (suc k) v w l m nil =
      let t = meld-Melds ord v w l m in
      record {
        out = node t.value t.child nil;
        runs = rw (t.runs) refl;
        counts = λ p. omega (arith, t.counts p);
        heap = λ h. t.heap (h.0, h.1, tt) (h.2.0, h.2.1, tt);
      }
  push_loop-Looped (suc k) v w l m (node u n r) =
      let t = meld-Melds ord v w l m in
      let more = push_loop-Looped k t.value u t.child n r in
      record {
        out = more.out;
        runs = rw (t.runs, more.runs);
        counts = λ p. omega (arith, t.counts p, more.counts p);
        heap = λ h. let g = t.heap (h.0, h.1, tt) (h.2.0, h.2.1, tt) in more.heap (g.0, g.1, h.2.2);
      }

  odd_stays : (n : ℕ) → n % 2 ≡ 1 → trailing_zeros 64 n ≡ 0
  unfolding trailing_zeros
  odd_stays n h = ground arith

  even_merges : (n : ℕ) → n % 2 ≡ 0 → trailing_zeros 64 n ≡ suc (trailing_zeros 63 (n / 2))
  unfolding trailing_zeros
  even_merges n h = rw h refl

  -- The loop keeps every value unless the new node is alone and the number of merges is even.
  push_loop_keeps :
      (n : ℕ) (x : A) (r : Link A)
      → (is_nil r ≡ true → n % 2 ≡ 1)
      → Looped (trailing_zeros 64 n) (node x nil r)
  unfolding push_loop
  push_loop_keeps n x (node w m r) h = push_loop-Looped (trailing_zeros 64 n) x w nil m r
  push_loop_keeps n x nil h = record {
    out = node x nil nil;
    runs = rw (odd_stays n (h refl), push_loop) refl;
    counts = λ p. refl;
    heap = λ g. g;
  }

  -- What `push` leaves.
  pub record Pushed (h : PairingHeap A) (x : A) : Type ℓ where
    pub rest : PairingHeap A
    pub runs : push ord h x ≡ some rest
    pub counts : (p : A → Bool) → count p rest.root ≡ one p x + count p h.root
    pub heap : IsHeap ord rest.root
    pub length : rest.len ≡ h.len + 1

  -- `push` on a heap in order with the root `v` adds the value and keeps the others and the order,
  -- where the root has no siblings if `v` is at most the value, and the number of pushes since the
  -- last merge is odd with this one if the root has no siblings and `v` is greater.
  pub push-Pushed :
      (h : PairingHeap A) (x v : A) (l r : Link A)
      → h.root ≡ node v l r
      → IsHeap ord (node v l r)
      → (ord.le v x ≡ true → is_nil r ≡ true)
      → (ord.le v x ≡ false → is_nil r ≡ true → (h.num_merges + 1) % 2 ≡ 1)
      → Pushed h x
  unfolding push
  push-Pushed h x v l r e order single odd = elim (Bool-cases (ord.le v x)) [
    | inl le ↦ on_top r e order (single le) le
    | inr gt ↦
        let loop = push_loop_keeps (h.num_merges + 1) x r (odd gt) in
        record {
          rest = record {
            root = node v l loop.out;
            num_merges = h.num_merges + 1;
            len = h.len + 1;
          };
          runs = rw (e, push, gt, loop.runs) refl;
          counts = λ p. rw e (omega (arith, loop.counts p));
          heap = (order.0, order.1, loop.heap (tt, tt, order.2));
          length = refl;
        }
  ]
    where
      on_top :
          (r : Link A)
          → h.root ≡ node v l r
          → IsHeap ord (node v l r)
          → is_nil r ≡ true
          → ord.le v x ≡ true
          → Pushed h x
      on_top nil e order t le = record {
        rest = record { root = node x (node v l nil) nil; num_merges = 0; len = h.len + 1 };
        runs = rw (e, push, le) refl;
        counts = λ p. rw e (omega arith);
        heap = ((le, tt), order, tt);
        length = refl;
      }
      on_top (node w m r) e order t le = absurd (cc)

  -- Where the root `v` is greater than the value and has no siblings, and the number of pushes since
  -- the last merge is even with this one, `push` drops the value, and counts it in the length.
  push_drops :
      (h : PairingHeap A) (x v : A) (l : Link A)
      → h.root ≡ node v l nil
      → ord.le v x ≡ false
      → (h.num_merges + 1) % 2 ≡ 0
      → push ord h x
        ≡ some (record { root = node v l nil; num_merges = h.num_merges + 1; len = h.len + 1 })
  unfolding push push_loop
  push_drops h x v l e gt even =
      rw (e, push, gt, even_merges (h.num_merges + 1) even, push_loop) refl

  -- Where the root is at most the value and has a sibling that is greater than the value, as `pop` can
  -- leave it, `push` succeeds and leaves a heap that is not in order.
  pub push_breaks :
      (h : PairingHeap A) (x v w : A) (l m r : Link A)
      → h.root ≡ node v l (node w m r)
      → ord.le v x ≡ true
      → ord.le w x ≡ false
      → (h' : PairingHeap A) × (push ord h x ≡ some h') × ¬ IsHeap ord h'.root
  unfolding push
  push_breaks h x v w l m r e le gt = (
    record { root = node x (node v l (node w m r)) nil; num_merges = 0; len = h.len + 1 },
    rw (e, push, le) refl,
    λ bad. cc (gt, bad.0.1.0),
  )

  -- What `pop_any` returns and leaves.
  pub record Taken (h : PairingHeap A) : Type ℓ where
    pub value : A
    pub rest : PairingHeap A
    pub runs : pop_any ord h ≡ some (some value, rest)
    pub counts : (p : A → Bool) → count p h.root ≡ one p value + count p rest.root
    pub heap : IsHeap ord h.root → IsHeap ord rest.root
    pub length : rest.len ≡ h.len

  record Took (a : Link A) : Type ℓ where
    value : A
    out : Link A
    runs : pop_any_link ord a ≡ some (some value, out)
    counts : (p : A → Bool) → count p a ≡ one p value + count p out
    heap : IsHeap ord a → IsHeap ord out

  pop_any_link-Took : (v : A) (l r : Link A) → Took (node v l r)
  unfolding pop_any_link
  pop_any_link-Took v l nil = record {
    value = v;
    out = l;
    runs = refl;
    counts = λ p. omega arith;
    heap = λ h. h.1;
  }
  pop_any_link-Took v l (node w nil r) = record {
    value = w;
    out = node v l r;
    runs = refl;
    counts = λ p. omega arith;
    heap = λ h. (h.0, h.1, h.2.2);
  }
  pop_any_link-Took v l (node w (node c cl cr) r) =
      let m = merge_pairs-Melds ord c cl cr in
      record {
        value = w;
        out = node v l (node m.value m.child r);
        runs = rw (m.runs) refl;
        counts = λ p. omega (arith, m.counts p);
        heap = λ h. let g = m.heap h.2.1 tt in (h.0, h.1, (g.0, g.1, h.2.2));
      }

  -- On a heap that is not empty, `pop_any` takes one value away and no other and keeps the order, but
  -- it leaves the length as it was.
  pub pop_any-Taken : (h : PairingHeap A) (v : A) (l r : Link A) → h.root ≡ node v l r → Taken h
  unfolding pop_any
  pop_any-Taken h v l r e =
      let t = pop_any_link-Took v l r in
      record {
        value = t.value;
        rest = record h { root = t.out };
        runs = rw (e, t.runs) refl;
        counts = λ p. rw e (t.counts p);
        heap = rw e (t.heap);
        length = refl;
      }
