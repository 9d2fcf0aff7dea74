-- ===== src/Malloc/Thread/Picks.antt =====
-- The page that a pass of the loop of `alloc` looks at.
use mxos_v.Base.{
  ℕ, zero, suc, ◌+◌, ◌-◌, ◌<◌, ◌≡◌, ◌⊎◌, inl, inr, refl, sym, ap, ◌∙◌, Option, none, some,
  Option-cases, Bool-cases, List, [], ◌∷◌, length, get_or, ◌==◌, ==_refl, ltb, lt→ltb, leb, arith,
}
use mxos_v.Malloc.{
  from_ptr, small_page_start, small_size_classes, large_size_classes, segment_size, small_page_size,
  large_size_class_page_starts,
}
use mxos_v.Malloc.Bounds.{page_starts_fit}
use mxos_v.Malloc.PageMeta.{PageMeta, Taken, take_head, take_lists, take_block}
use mxos_v.Malloc.PageMeta.Laws.{List-cases}
use mxos_v.Malloc.PageMeta as Meta
use mathlib.Core.Path.{subst}
use mxos_v.Malloc.Thread.First.{update_same}
use mxos_v.Malloc.Carve.{carve_blocks, carve_small_page, carve_large_page}
use mxos_v.Malloc.Thread.{
  Threads, page_at, erase, push_page, push_small, push_segment, remove_page, free_small_page,
  release_page, find_page, alloc_small_page, alloc_large_page, cut_page, small_page, pop_segment,
  or_new_page, pick_page, num_small,
}

-- A list without an entry that occurs again.
abbrev pub Distinct : List ℕ → Type 0
Distinct [] = Unit
Distinct (p ∷ ps) = (erase p ps ≡ ps) × Distinct ps

pub erase_head : (p : ℕ) (ps : List ℕ) → erase p (p ∷ ps) ≡ erase p ps
erase_head p ps = rw (==_refl p) refl

-- A list that has a first entry.
abbrev pub HasHead : List ℕ → Type 0
HasHead l = (b : ℕ) × (rest : List ℕ) × (l ≡ b ∷ rest)

carve_blocks-HasHead :
    (fuel base o end size x : ℕ) (free : List ℕ)
    → HasHead (carve_blocks fuel base o end size (x ∷ free))
unfolding carve_blocks
carve_blocks-HasHead zero base o end size x free = (x, free, refl)
carve_blocks-HasHead (suc fuel) base o end size x free = elim (Bool-cases (ltb o end)) [
  | inl more ↦
      rw (carve_blocks, more)
        (carve_blocks-HasHead fuel base (o + size) end size (base + o) (x ∷ free))
  | inr done ↦ rw (carve_blocks, done) (x, free, refl)
]

-- A range that is not empty gives a block.
carved :
    (fuel base o end size : ℕ) (free : List ℕ)
    → o < end
    → HasHead (carve_blocks (suc fuel) base o end size free)
unfolding carve_blocks
carved fuel base o end size free h =
    rw (carve_blocks, lt→ltb o end h)
      (carve_blocks-HasHead fuel base (o + size) end size (base + o) free)

free_small_page-pages :
    (p : ℕ) (t t' : Threads) → free_small_page p t ≡ some t' → t'.pages ≡ t.pages
unfolding free_small_page push_segment push_small
free_small_page-pages p t t' h =
    let segment = from_ptr p in
    elim (Bool-cases (ltb 0 (t.segment_used segment))) [
      | inr stop ↦ absurd (cc (rw (free_small_page, stop) at h))
      | inl more ↦ elim (Bool-cases (t.segment_used segment - 1 == 0)) [
        | inl last ↦
            let same = rw (free_small_page, more, last) at h in ap (get_or_pages t) (sym same)
        | inr others ↦
            let same = rw (free_small_page, more, others) at h in ap (get_or_pages t) (sym same)
      ]
    ]
  where
    get_or_pages : Threads → Option Threads → ℕ → List ℕ
    get_or_pages t none = t.pages
    get_or_pages t (some u) = u.pages

release_page-pages :
    (class k p : ℕ) (t t' : Threads)
    → release_page class p t ≡ some t'
    → t'.pages k ≡ erase p (t.pages k)
unfolding release_page free_small_page push_segment push_small remove_page
release_page-pages class k p t t' h = elim (Bool-cases (leb num_small class)) [
  | inl large ↦
      let same : push_segment (from_ptr p) (remove_page p t) ≡ t' =
        cc (rw (release_page, large) at h) in
      ap (λ u. u.pages k) (sym same)
  | inr small ↦
      ap (λ f. f k) (free_small_page-pages p (remove_page p t) t' (rw (release_page, small) at h))
]

-- What `find_page` leaves of a list: its tail from the page that is found on.
abbrev pub Found : ℕ → List ℕ → Option ℕ × Threads → Type 0
Found class l (none, t) = Unit
Found class l (some p, t) =
    (rest : List ℕ) × (t.pages class ≡ p ∷ rest) × Distinct (p ∷ rest) × (length rest < length l)

Found-longer :
    (class p : ℕ) (l : List ℕ) (r : Option ℕ × Threads) → Found class l r → Found class (p ∷ l) r
Found-longer class p l (none, t) h = tt
Found-longer class p l (some q, t) (rest, e, d, s) = (rest, e, d, omega (arith, s))

find_page-Found :
    (class : ℕ) (l : List ℕ) (t : Threads) {r : Option ℕ × Threads}
    → t.pages class ≡ l
    → Distinct l
    → find_page class l t ≡ some r
    → Found class l r
unfolding find_page
find_page-Found class [] t {r} e d h = let same : (none, t) ≡ r = cc h in rw (← same) tt
find_page-Found class (p ∷ []) t {r} e d h =
    let same : (some p, t) ≡ r = cc h in rw (← same) ([], e, d, omega arith)
find_page-Found class (p ∷ q ∷ rest) t {r} e d h =
    elim (Bool-cases ((t.metas p).used == (t.metas p).thread_freed)) [
      | inl idle ↦ elim (Option-cases (release_page class p t)) [
        | inl stop ↦ absurd (cc (rw (find_page, idle, stop) at h))
        | inr (t', gone) ↦
            let left : t'.pages class ≡ q ∷ rest =
              release_page-pages class class p t t' gone
              ∙ ap (erase p) e
              ∙ erase_head p (q ∷ rest)
              ∙ d.0 in
            Found-longer class p (q ∷ rest) r
              (find_page-Found class (q ∷ rest) t' left (d.1) (rw (find_page, idle, gone) at h))
      ]
      | inr busy ↦
          let same : (some p, t) ≡ r = cc (rw (find_page, busy) at h) in
          rw (← same) (q ∷ rest, e, d, omega arith)
    ]

-- A page that is new has a block.
abbrev pub Filled : Option ℕ × Threads → Type 0
Filled (none, t) = Unit
Filled (some p, t) = HasHead (t.metas p).free

-- What a pass looks at: a page of the list with its tail, a page with a block, or none.
abbrev pub Picked : ℕ → List ℕ → Option ℕ × Threads → Type 0
Picked class l r = Found class l r ⊎ Filled r

module _ (offset size_of_meta : ℕ) where
  pub cut_page-Filled :
      (class : ℕ) (r : Option ℕ × Threads) → Filled (cut_page offset size_of_meta class r)
  unfolding cut_page carve_small_page
  cut_page-Filled class (none, t) = tt
  cut_page-Filled class (some p, t) =
      let t' : Threads = push_page class p (remove_page p t) in
      let m : PageMeta = t'.metas p in
      let start : ℕ = small_page_start offset size_of_meta p in
      let size : ℕ = get_or small_size_classes class 0 in
      let m' : PageMeta = record m { class = class; free = carve_small_page start class m.free } in
      subst (λ n. HasHead n.free) (sym (update_same t'.metas p m'))
        (carved (small_page_size - 1) start 0 (small_page_size - size + 1) size m.free
          (omega arith))

  pub alloc_large_page-Filled :
      (class : ℕ) (t : Threads)
      → class - num_small < 24
      → Filled (alloc_large_page offset size_of_meta class t)
  unfolding alloc_large_page carve_large_page pop_segment push_page
  alloc_large_page-Filled class t h = elim (List-cases t.free_segments) [
    | inl e ↦ rw (alloc_large_page, pop_segment, e) tt
    | inr (segment, rest, e) ↦
        let large : ℕ = class - num_small in
        let (_, below, _) = page_starts_fit large h in
        let m : PageMeta = record (Meta.new class) { free = carve_large_page segment large [] } in
        let p : ℕ = page_at offset size_of_meta segment 0 in
        rw (alloc_large_page, pop_segment, e)
          (subst (λ n. HasHead n.free) (sym (update_same (pop_segment t).1.metas p m))
            (carved (segment_size - 1) segment (get_or large_size_class_page_starts large 0)
              segment_size (get_or large_size_classes large 0) [] below))
  ]

  or_new_page-Picked :
      (class : ℕ) (l : List ℕ) (r : Option ℕ × Threads) {r' : Option ℕ × Threads}
      → class < 57
      → Found class l r
      → or_new_page offset size_of_meta class r ≡ some r'
      → Picked class l r'
  unfolding or_new_page alloc_small_page
  or_new_page-Picked class l (some p, t) {r'} small f h =
      let same : (some p, t) ≡ r' = cc h in rw (← same) (inl f)
  or_new_page-Picked class l (none, t) {r'} small f h = elim (Bool-cases (ltb class num_small)) [
    | inl little ↦
        let same : alloc_small_page offset size_of_meta class t ≡ r' =
          cc (rw (or_new_page, little) at h) in
        subst (Picked class l) same (inr (cut_page-Filled class (small_page offset size_of_meta t)))
    | inr large ↦
        let same : alloc_large_page offset size_of_meta class t ≡ r' =
          cc (rw (or_new_page, large) at h) in
        subst (Picked class l) same (inr (alloc_large_page-Filled class t (omega arith)))
  ]

  pub pick_page-Picked :
      (class : ℕ) (t : Threads) {r : Option ℕ × Threads}
      → class < 57
      → Distinct (t.pages class)
      → pick_page offset size_of_meta class t ≡ some r
      → Picked class (t.pages class) r
  unfolding pick_page
  pick_page-Picked class t small d h = elim (Option-cases (find_page class (t.pages class) t)) [
    | inl e ↦ absurd (cc (rw (pick_page, e) at h))
    | inr (r', e) ↦
        or_new_page-Picked class (t.pages class) r' small
          (find_page-Found class (t.pages class) t refl d e) (rw (pick_page, e) at h)
  ]
