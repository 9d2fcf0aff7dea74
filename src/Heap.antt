-- ===== src/Heap.antt =====
-- kernel/src/memory/malloc/pairing_heap.rs: the pairing max heap. `none` is a panic, of a
-- `debug_assert!` or of an underflow.
pub mod Merge
pub mod Laws
mod Tests
use mxos_v.Base.{
  ℕ, zero, suc, ◌+◌, ◌-◌, ◌≡◌, Bool, true, false, not, Option, none, some, ◌>>=◌, ◌>>◌, assert, leb,
  if◌then◌else◌,
}
use mxos_v.Bitmap.{trailing_zeros}

-- `Ord`: a total order with its two tests.
pub record Order {ℓ} (A : Type ℓ) : Type ℓ where
  pub le : A → A → Bool
  pub lt : A → A → Bool
  pub lt_not : (a b : A) → lt a b ≡ not (le b a)
  pub trans : (a b c : A) → le a b ≡ true → le b c ≡ true → le a c ≡ true
  pub total : (a b : A) → le a b ≡ false → le b a ≡ true

-- `Option<Box<Node<T>>>`: the value, the left child and the right sibling.
pub data Link {ℓ} (A : Type ℓ) : Type ℓ where
  nil : Link A
  node : A → Link A → Link A → Link A

-- `Node<T>`
pub record Node {ℓ} (A : Type ℓ) : Type ℓ where
  pub value : A
  pub left_child : Link A
  pub right_sibling : Link A

abbrev pub is_nil {ℓ} : {A : Type ℓ} → Link A → Bool
is_nil nil = true
is_nil (node v l r) = false

pub record PairingHeap {ℓ} (A : Type ℓ) : Type ℓ where
  pub root : Link A
  pub num_merges : ℕ
  pub len : ℕ

module _ {ℓ} {A : Type ℓ} (ord : Order A) where
  unfoldable pub meld : Node A → Node A → Option (Node A)
  meld root child = do
    assert (is_nil root.right_sibling)
    assert (is_nil child.right_sibling)
    let top = if ord.lt root.value child.value then child else root
    let below = if ord.lt root.value child.value then root else child
    some (record top { left_child = node below.value below.left_child top.left_child })

  -- The root is given by its value, child and sibling.
  unfoldable pub merge_pairs : A → Link A → Link A → Option (Node A)
  merge_pairs v l nil = some (record { value = v; left_child = l; right_sibling = nil })
  merge_pairs v l (node v1 l1 nil) =
      meld (record { value = v; left_child = l; right_sibling = nil })
        (record { value = v1; left_child = l1; right_sibling = nil })
  merge_pairs v l (node v1 l1 (node v2 l2 r2)) = do
    root ←
        meld (record { value = v; left_child = l; right_sibling = nil })
          (record { value = v1; left_child = l1; right_sibling = nil })
    node2 ← merge_pairs v2 l2 r2
    meld root node2

  unfoldable pub new : PairingHeap A
  new = record { root = nil; num_merges = 0; len = 0 }

  unfoldable pub peek : PairingHeap A → Option (Option A × PairingHeap A)
  peek h = elim h.root [
    | nil ↦ some (none, h)
    | node v l r ↦ merge_pairs v l r >>= λ n. some (
      some n.value,
      record h { root = node n.value n.left_child n.right_sibling; num_merges = 0 },
    )
  ]

  -- The loop of `push` on the siblings of the root, with the rounds left. A last sibling that was
  -- taken off is dropped.
  unfoldable pub push_loop : ℕ → Link A → Option (Link A)
  push_loop zero r = some r
  push_loop (suc k) nil = some nil
  push_loop (suc k) (node v1 l1 nil) = some nil
  push_loop (suc k) (node v1 l1 (node v2 l2 r2)) = do
    n ←
        meld (record { value = v1; left_child = l1; right_sibling = nil })
          (record { value = v2; left_child = l2; right_sibling = nil })
    elim (is_nil r2) [
      | true ↦ some (node n.value n.left_child r2)
      | false ↦ push_loop k (node n.value n.left_child r2)
    ]

  unfoldable pub push : PairingHeap A → A → Option (PairingHeap A)
  push h x = elim h.root [
    | nil ↦ some (record { root = node x nil nil; num_merges = 0; len = h.len + 1 })
    | node v l r ↦ elim (ord.le v x) [
      | true ↦ some (record { root = node x (node v l r) nil; num_merges = 0; len = h.len + 1 })
      | false ↦ push_loop (trailing_zeros 64 (h.num_merges + 1)) (node x nil r) >>= λ r'.
          some (record { root = node v l r'; num_merges = h.num_merges + 1; len = h.len + 1 })
    ]
  ]

  unfoldable pub pop : PairingHeap A → Option (Option A × PairingHeap A)
  pop h = elim h.root [
    | nil ↦ some (none, h)
    | node v l r ↦ do
      n ← merge_pairs v l r
      assert (leb 1 h.len)
      some (some n.value, record { root = n.left_child; num_merges = 0; len = h.len - 1 })
  ]

  -- `pop_any` on the root.
  unfoldable pub pop_any_link : Link A → Option (Option A × Link A)
  pop_any_link nil = some (none, nil)
  pop_any_link (node v l nil) = some (some v, l)
  pop_any_link (node v l (node v1 nil r1)) = some (some v1, node v l r1)
  pop_any_link (node v l (node v1 (node c cl cr) r1)) =
      merge_pairs c cl cr >>= λ n. some (some v1, node v l (node n.value n.left_child r1))

  unfoldable pub pop_any : PairingHeap A → Option (Option A × PairingHeap A)
  pop_any h = pop_any_link h.root >>= λ r. some (r.0, record h { root = r.1 })
