-- ===== src/Heap/Merge.antt =====
-- `meld` and `merge_pairs`: no assertion fails, the values are kept, and heap order is kept.
use mxos_v.Base.{
  ℕ, ◌+◌, ◌≡◌, refl, Bool, true, Option, some, if◌then◌else◌, Bool-cases, inl, inr, arith,
}
use mxos_v.Heap.{Order, Link, nil, node, Node, meld, merge_pairs}

-- One if the value passes.
abbrev pub one {ℓ} : {A : Type ℓ} → (A → Bool) → A → ℕ
one p x = if p x then 1 else 0

-- How many values pass.
abbrev pub count {ℓ} : {A : Type ℓ} → (A → Bool) → Link A → ℕ
count p nil = 0
count p (node v l r) = one p v + count p l + count p r

module _ {ℓ} {A : Type ℓ} (ord : Order A) where
  -- The values of the siblings are at most `v`.
  abbrev pub Below : A → Link A → Type 0
  Below v nil = Unit
  Below v (node w l r) = (ord.le w v ≡ true) × Below v r

  -- Every value is at least those of its children.
  abbrev pub IsHeap : Link A → Type 0
  IsHeap nil = Unit
  IsHeap (node v l r) = Below v l × IsHeap l × IsHeap r

  -- The outcome `m` is one tree with the values of `a` and `b`, in heap order where these are.
  pub record Melds (m : Option (Node A)) (a b : Link A) : Type ℓ where
    pub value : A
    pub child : Link A
    pub runs : m ≡ some (record { value = value; left_child = child; right_sibling = nil })
    pub counts : (p : A → Bool) → count p (node value child nil) ≡ count p a + count p b
    pub heap : IsHeap a → IsHeap b → IsHeap (node value child nil)

  abbrev pub alone : A → Link A → Node A
  alone v l = record { value = v; left_child = l; right_sibling = nil }

  pub meld-Melds :
      (v w : A) (l k : Link A)
      → Melds (meld ord (alone v l) (alone w k)) (node v l nil) (node w k nil)
  unfolding meld
  meld-Melds v w l k = elim (Bool-cases (ord.le w v)) [
    | inl e ↦ record {
      value = v;
      child = node w k l;
      runs = rw (ord.lt_not v w, e) refl;
      counts = λ p. omega arith;
      heap = λ h g. ((e, h.0), (g.0, g.1, h.1), tt);
    }
    | inr e ↦ record {
      value = w;
      child = node v l k;
      runs = rw (ord.lt_not v w, e) refl;
      counts = λ p. omega arith;
      heap = λ h g. ((ord.total w v e, g.0), (h.0, h.1, g.1), tt);
    }
  ]

  -- The root with its siblings becomes one tree.
  pub merge_pairs-Melds : (v : A) (l r : Link A) → Melds (merge_pairs ord v l r) (node v l r) nil
  unfolding merge_pairs
  merge_pairs-Melds v l nil = record {
    value = v;
    child = l;
    runs = refl;
    counts = λ p. omega arith;
    heap = λ h g. h;
  }
  merge_pairs-Melds v l (node v1 l1 nil) =
      let m = meld-Melds v v1 l l1 in
      record {
        value = m.value;
        child = m.child;
        runs = m.runs;
        counts = λ p. omega (arith, m.counts p);
        heap = λ h g. m.heap (h.0, h.1, tt) (h.2.0, h.2.1, tt);
      }
  merge_pairs-Melds v l (node v1 l1 (node v2 l2 r2)) =
      let m = meld-Melds v v1 l l1 in
      let n = merge_pairs-Melds v2 l2 r2 in
      let t = meld-Melds m.value n.value m.child n.child in
      record {
        value = t.value;
        child = t.child;
        runs = rw (m.runs, n.runs, t.runs);
        counts = λ p. omega (arith, m.counts p, n.counts p, t.counts p);
        heap = λ h g.
            t.heap (m.heap (h.0, h.1, tt) (h.2.0, h.2.1, tt))
              (n.heap (h.2.2.0, h.2.2.1, h.2.2.2) tt);
      }
