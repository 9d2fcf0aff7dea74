-- ===== src/Vmm/Space.antt =====
-- `alloc`: the range that it returns, and the space that it leaves.
use mxos_v.Base.{
  ap, ap₂, ℕ, ◌+◌, ◌-◌, ◌%◌, ◌^◌, ◌≤◌, ◌<◌, max, ◌≡◌, refl, sym, ◌∙◌, true, Option, none, some,
  ◌>>=◌, List, [], ◌∷◌, ltb→lt, Bool-cases, inl, inr, arith,
}
use native.Mathlib.Nat.{pow-le-pow_right}
use mxos_v.Vmm.{
  entry_lt, SizeAddr, TreeBestFitAlloc, page_size, set_remove, set_from, round_up, align_of,
  free_size, keep_before, keep_after, carve, alloc, sub64,
}
use mxos_v.Vmm.Align.{round_page, align_pow, round_up_lem}
use mxos_v.Vmm.Sets.{
  set_from-first, set_from-later, inside, inside_entry, covering, IsPaged, covering-set_remove,
  set_from-fits,
}
use mxos_v.Vmm.Keep.{HasKey, keep_before-space, keep_after-space}

inside-cut :
    (x a b c d : ℕ)
    → a ≤ b
    → b ≤ c
    → c ≤ d
    → inside x a d ≡ inside x a b + (inside x b c + inside x c d)
inside-cut x a b c d h k l = ground arith

-- The entry is the part before the range, the range, and the part after it.
cut :
    (x a b size n c : ℕ)
    → a ≤ b
    → b - a + size ≤ n
    → c ≡ b + size
    → inside x a (a + n)
      ≡ inside x a (a + (b - a)) + (inside x b (b + size) + inside x c (c + (n - (b - a) - size)))
cut x a b size n c h k e =
    let ends : a + (b - a) ≡ b = omega arith in
    let last : c + (n - (b - a) - size) ≡ a + n = omega arith in
    rw (ends, last, e) (inside-cut x a b (b + size) (a + n) h (omega arith) (omega arith))

past : (e : SizeAddr) (y : ℕ) → e.addr + e.size ≤ y → inside_entry y e ≡ 0
past e y h = ground arith

-- No other entry holds an address of the entry that is taken out.
the_rest :
    (x : ℕ) (entry : SizeAddr) (others : List SizeAddr) {all : ℕ}
    → all ≡ inside_entry x entry + covering x others
    → all ≤ 1
    → entry.addr ≤ x
    → x < entry.addr + entry.size
    → covering x others ≡ 0
the_rest x entry others e h lo hi = ground arith

-- What `alloc` returns and leaves, where it finds an entry.
pub record Allocated (size align : ℕ) (result : Option (Option SizeAddr × TreeBestFitAlloc))
    (t : TreeBestFitAlloc) : Type 0 where
  pub addr : ℕ
  pub rest : TreeBestFitAlloc
  pub runs : result ≡ some (some (record { size = size; addr = addr }), rest)
  pub aligned : addr % align ≡ 0
  pub space :
      (x : ℕ)
      → covering x t.size_addr_tree ≡ inside x addr (addr + size) + covering x rest.size_addr_tree

-- The carving of an entry, by the sizes of the parts before and after the range.
carve_at :
    (align size b n : ℕ) (entry : SizeAddr) (t : TreeBestFitAlloc)
    → let addr = round_up align entry.addr in
      sub64 addr entry.addr ≡ b
      → sub64 (sub64 entry.size b) size ≡ n
      → carve size align entry t ≡ (
          keep_before entry
            (record { size = b; addr = entry.addr })
            (record t { size_addr_tree = set_remove entry t.size_addr_tree })
          >>= λ t'. some (
            some (record { size = size; addr = addr }),
            keep_after (record { size = n; addr = (addr + size) % 2 ^ 64 }) t',
          ))
unfolding carve
carve_at align size b n entry t first second =
    let addr = round_up align entry.addr in
    ap₂
      (λ x y.
        keep_before entry (record { size = x; addr = entry.addr })
          (record t { size_addr_tree = set_remove entry t.size_addr_tree })
        >>= λ t'. some (
          some (record { size = size; addr = addr }),
          keep_after (record { size = y; addr = (addr + size) % 2 ^ 64 }) t',
        ))
      first (ap (λ x. sub64 (sub64 entry.size x) size) first ∙ second)

module _ (k size : ℕ) (entry key : SizeAddr) (t : TreeBestFitAlloc) (lo : 12 ≤ k) (hi : k < 64)
    (found : set_from key t.size_addr_tree ≡ some entry)
    (large : max size (2 ^ k) + 2 ^ k - 4096 ≤ entry.size) (paged : entry.addr % 4096 ≡ 0)
    (ends : entry.addr + entry.size < 2 ^ 64) (once : (x : ℕ) → covering x t.size_addr_tree ≤ 1)
    (listed : HasKey entry.addr t.addr_size_tree) where
  carve-Allocated : Allocated size (2 ^ k) (carve size (2 ^ k) entry t) t
  carve-Allocated =
      let big : 2 ^ 12 ≤ 2 ^ k = pow-le-pow_right (omega arith) {i = 12} lo in
      let (aligned, above, near) = round_page k entry.addr lo hi paged (omega arith) in
      let addr = round_up (2 ^ k) entry.addr in
      let before : SizeAddr = record { size = addr - entry.addr; addr = entry.addr } in
      let after : SizeAddr = record {
        size = entry.size - before.size - size;
        addr = (addr + size) % 2 ^ 64;
      } in
      let no_wrap : (addr + size) % 2 ^ 64 ≡ addr + size = omega arith in
      let first : sub64 addr entry.addr ≡ addr - entry.addr = omega arith in
      let second : sub64 (sub64 entry.size (addr - entry.addr)) size
          ≡ entry.size - (addr - entry.addr) - size =
        omega arith in
      let others = set_remove entry t.size_addr_tree in
      let taken = λ (x : ℕ). covering-set_remove x key entry t.size_addr_tree found in
      let free_of = λ (x : ℕ) (l : entry.addr ≤ x) (h : x < entry.addr + entry.size).
        the_rest x entry others (taken x) (once x) l h in
      let (t1, keeps, space1) =
        keep_before-space entry before (record t { size_addr_tree = others }) listed
          (free_of entry.addr (omega arith) (omega arith)) in
      let space2 = keep_after-space after t1 (λ e.
        let left = ltb→lt 0 after.size e in
        let last = free_of after.addr (omega arith) (omega arith) in
        omega (arith, space1 after.addr, past before after.addr (omega arith), last)) in
      record {
        addr = addr;
        rest = keep_after after t1;
        runs =
            carve_at (2 ^ k) size before.size after.size entry t first second
            ∙ ap
                (λ r. r >>= λ t'.
                  some (some (record { size = size; addr = addr }), keep_after after t'))
                keeps;
        aligned = aligned;
        space = λ x. omega (
          arith,
          taken x,
          space1 x,
          space2 x,
          cut x entry.addr addr size entry.size after.addr above (omega arith) no_wrap,
        );
      }

-- Where the search finds an entry, `alloc` of a size on pages that starts on a page succeeds.

round_size :
    (size : ℕ)
    → size + 4095 < 2 ^ 64
    → (size ≤ round_up page_size size) × (round_up page_size size % 4096 ≡ 0)
round_size size h =
    let e = round_up_lem 12 size (omega arith) (omega arith) in (omega (arith, e), omega (arith, e))

same_align :
    (size align k : ℕ) (entry : SizeAddr) (t : TreeBestFitAlloc)
    → align ≡ 2 ^ k
    → Allocated size (2 ^ k) (carve size (2 ^ k) entry t) t
    → Allocated size align (carve size align entry t) t
same_align size align k entry t e a = rw e a

from_carve :
    (size order : ℕ) (entry : SizeAddr) (t : TreeBestFitAlloc)
    → let s = round_up page_size size in
      let align = align_of order in
      set_from (record { size = free_size s align; addr = 0 }) t.size_addr_tree ≡ some entry
      → Allocated s align (carve s align entry t) t
      → Allocated s align (alloc size order t) t
unfolding alloc
from_carve size order entry t found a = rw (alloc, found) a

-- On ranges of whole pages that overlap nowhere, where the search finds an entry that the address
-- tree lists too, `alloc` succeeds. The range that it returns starts at a multiple of the alignment
-- and has the size rounded up to pages; each address that was free is now either in that range or
-- still free, and not both. No sum of the call overflows.
pub alloc-Allocated :
    (size order : ℕ) (entry : SizeAddr) (t : TreeBestFitAlloc)
    → order < 64
    → size + 4095 < 2 ^ 64
    → max (round_up page_size size) (align_of order) + align_of order < 2 ^ 64
    → set_from
        (record { size = free_size (round_up page_size size) (align_of order); addr = 0 })
        t.size_addr_tree
      ≡ some entry
    → IsPaged t.size_addr_tree
    → ((x : ℕ) → covering x t.size_addr_tree ≤ 1)
    → HasKey entry.addr t.addr_size_tree
    → Allocated (round_up page_size size) (align_of order) (alloc size order t) t
      × (size ≤ round_up page_size size)
      × (round_up page_size size % 4096 ≡ 0)
alloc-Allocated size order entry t ho hs hm found paged once listed =
    let s = round_up page_size size in
    let (k, lo, hi, e) = align_pow order ho in
    let round = round_size size hs in
    let key : SizeAddr = record { size = free_size s (align_of order); addr = 0 } in
    let (fits, on_page, ends) = set_from-fits key entry t.size_addr_tree found paged in
    let a =
      carve-Allocated k s entry key t lo hi found (rw (← e) (omega arith)) on_page ends once
        listed in
    (
      from_carve size order entry t found (same_align s (align_of order) k entry t e a),
      round.0,
      round.1,
    )

-- Every entry is smaller.
abbrev pub IsSmaller : ℕ → List SizeAddr → Type 0
IsSmaller n [] = Unit
IsSmaller n (e ∷ es) = (e.size < n) × IsSmaller n es

set_from-IsSmaller :
    (n : ℕ) (es : List SizeAddr)
    → set_from (record { size = n; addr = 0 }) es ≡ none
    → IsSmaller n es
set_from-IsSmaller n [] h = tt
set_from-IsSmaller n (y ∷ ys) h =
    let key : SizeAddr = record { size = n; addr = 0 } in
    elim (Bool-cases (entry_lt y key)) [
      | inl lt ↦ (smaller y n lt, set_from-IsSmaller n ys (sym (set_from-later key y ys lt) ∙ h))
      | inr ge ↦ absurd (none_not_some (sym h ∙ set_from-first key y ys ge))
    ]
  where
    smaller :
        (y : SizeAddr) (n : ℕ) → entry_lt y (record { size = n; addr = 0 }) ≡ true → y.size < n
    smaller y n h = ground arith

    none_not_some : {y : SizeAddr} → none ≡ some y → ⊥
    none_not_some h = cc

abbrev returns :
    SizeAddr
    → (TreeBestFitAlloc → TreeBestFitAlloc)
    → TreeBestFitAlloc
    → Option (Option SizeAddr × TreeBestFitAlloc)
returns range f t1 = some (some range, f t1)

never_none :
    (m : Option TreeBestFitAlloc) (range : SizeAddr) (f : TreeBestFitAlloc → TreeBestFitAlloc)
    {t' : TreeBestFitAlloc}
    → (m >>= returns range f) ≡ some (none, t')
    → ⊥
never_none none range f h = cc
never_none (some t1) range f h = cc

-- `alloc` finds nothing only where every entry is smaller than the size with the slack for the
-- alignment, and then it changes nothing.
alloc-none :
    (size order : ℕ) (t t' : TreeBestFitAlloc)
    → alloc size order t ≡ some (none, t')
    → IsSmaller (free_size (round_up page_size size) (align_of order)) t.size_addr_tree × (t' ≡ t)
unfolding alloc
alloc-none size order t t' h =
    at (set_from (record { size = free_size s align; addr = 0 }) t.size_addr_tree) refl h
  where
    s : ℕ
    s = round_up page_size size

    align : ℕ
    align = align_of order

    not_carved : (entry : SizeAddr) → carve s align entry t ≡ some (none, t') → ⊥
    not_carved entry h =
        unfold carve in
        let addr = round_up align entry.addr in
        let before : SizeAddr = record { size = sub64 addr entry.addr; addr = entry.addr } in
        let after : SizeAddr = record {
          size = sub64 (sub64 entry.size before.size) s;
          addr = (addr + s) % 2 ^ 64;
        } in
        never_none
          (keep_before entry before
            (record t { size_addr_tree = set_remove entry t.size_addr_tree }))
          (record { size = s; addr = addr }) (keep_after after) h

    at :
        (o : Option SizeAddr)
        → set_from (record { size = free_size s align; addr = 0 }) t.size_addr_tree ≡ o
        → (elim o as (λ o. Option (Option SizeAddr × TreeBestFitAlloc)) [
          | none ↦ some (none, t)
          | some entry ↦ carve s align entry t
        ])
          ≡ some (none, t')
        → IsSmaller (free_size s align) t.size_addr_tree × (t' ≡ t)
    at none e h = (set_from-IsSmaller (free_size s align) t.size_addr_tree e, cc)
    at (some entry) e h = absurd (not_carved entry h)
