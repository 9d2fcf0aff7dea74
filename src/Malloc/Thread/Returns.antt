-- ===== src/Malloc/Thread/Returns.antt =====
-- Where the loop of `alloc` comes to a block or a null pointer.
use mxos_v.Base.{
  ==_iff, ◌>>=◌, ◌≤◌, false, ℕ, zero, suc, ◌<◌, ◌≡◌, ◌⊎◌, inl, inr, refl, sym, ap, ◌∙◌, true,
  Option, none, some, Option-cases, Bool-cases, List, [], ◌∷◌, length, ◌==◌, ltb, arith,
}
use mxos_v.Malloc.{}
use mxos_v.Malloc.PageMeta.{PageMeta, Taken, take_lists, take_block}
use mxos_v.Malloc.PageMeta.Laws.{List-cases}
use mathlib.Core.Path.{subst}
use mxos_v.Malloc.Thread.{
  Threads, Run, or_undefined, erase, set_meta, push_full, remove_page, find_page, alloc_small_page,
  alloc_large_page, small_page, or_new_page, hand_out, try_page, pick_page, alloc_loop, num_small,
}
use mxos_v.Malloc.Thread.Picks.{Filled, erase_head, cut_page-Filled, alloc_large_page-Filled}

-- A page of a list.
abbrev pub Any : (ℕ → Type 0) → List ℕ → Type 0
Any P [] = ⊥
Any P (p ∷ ps) = P p ⊎ Any P ps

Any-erase :
    (P Q : ℕ → Type 0) (p : ℕ) (l : List ℕ)
    → ((q : ℕ) → (p == q) ≡ false → P q → Q q)
    → Any P (erase p l)
    → Any Q l
Any-erase P Q p [] same h = h
Any-erase P Q p (q ∷ l) same h = elim (Bool-cases (p == q)) [
  | inl e ↦ inr (Any-erase P Q p l same (rw e at h))
  | inr e ↦
      let h' : P q ⊎ Any P (erase p l) = rw e at h in
      elim h' [ inl here ↦ inl (same q e here) | inr later ↦ inr (Any-erase P Q p l same later) ]
]

length-erase : (p : ℕ) (l : List ℕ) → length (erase p l) ≤ length l
length-erase p [] = omega arith
length-erase p (q ∷ l) = elim (Bool-cases (p == q)) [
  | inl e ↦ rw e (omega (arith, length-erase p l))
  | inr e ↦ rw e (omega (arith, length-erase p l))
]

-- A page on which the loop need not come to a result: `find_page` takes it for a page without blocks in
-- use, or the match of `alloc` is undefined on it.
abbrev pub Stuck : Threads → ℕ → Type 0
Stuck t p = ((t.metas p).used ≡ (t.metas p).thread_freed) ⊎ (take_block (t.metas p) ≡ none)

-- The loop comes to a block or a null pointer.
abbrev pub Returns : Run → Type 0
Returns r = (o : Option ℕ) × (t : Threads) × (r ≡ Run.returned o t)

module _ (offset size_of_meta : ℕ) where
  -- A new page gives a block, and without one the loop returns a null pointer.
  try_page-Returns :
      (again : Threads → Run) (r : Option ℕ × Threads)
      → Filled r
      → Returns (try_page offset size_of_meta again r)
  unfolding try_page take_block take_lists hand_out
  try_page-Returns again (none, t) h = (none, t, refl)
  try_page-Returns again (some p, t) (b, rest, e) = rw (try_page, take_block, e) (some b, _, refl)

  new_page-Returns :
      (class : ℕ) (again : Threads → Run) (t : Threads)
      → class < 57
      → Returns (
          or_undefined
            (or_new_page offset size_of_meta class (none, t))
            (try_page offset size_of_meta again))
  unfolding or_new_page alloc_small_page
  new_page-Returns class again t small = elim (Bool-cases (ltb class num_small)) [
    | inl little ↦
        rw (or_new_page, little)
          (try_page-Returns again (alloc_small_page offset size_of_meta class t)
            (cut_page-Filled offset size_of_meta class (small_page offset size_of_meta t)))
    | inr large ↦
        rw (or_new_page, large)
          (try_page-Returns again (alloc_large_page offset size_of_meta class t)
            (alloc_large_page-Filled offset size_of_meta class t (omega arith)))
  ]

  -- `find_page` stays at a page with a block in use.
  find_page_busy :
      (class p : ℕ) (rest : List ℕ) (t : Threads)
      → ((t.metas p).used == (t.metas p).thread_freed) ≡ false
      → find_page class (p ∷ rest) t ≡ some (some p, t)
  unfolding find_page
  find_page_busy class p [] t busy = refl
  find_page_busy class p (q ∷ rest) t busy = rw (find_page, busy) refl

  -- A page that is not on the list any more is not stuck on it.
  Stuck-before :
      (p q : ℕ) (m : PageMeta) (t : Threads)
      → (p == q) ≡ false
      → Stuck (push_full p (remove_page p (set_meta p m t))) q
      → Stuck t q
  unfolding push_full remove_page
  Stuck-before p q m t other h = let no : (q == p) ≡ false = ground arith in rw (no) at h

  full_pages_of :
      (class p : ℕ) (m : PageMeta) (t : Threads)
      → (push_full p (remove_page p (set_meta p m t))).pages class ≡ erase p (t.pages class)
  unfolding push_full remove_page
  full_pages_of class p m t = refl

  first_page :
      (class p : ℕ) (rest : List ℕ) (t : Threads) (again : Threads → Run)
      → t.pages class ≡ p ∷ rest
      → ((u : Threads)
          → length (u.pages class) ≤ length rest
          → Returns (again u) ⊎ Any (Stuck u) (u.pages class))
      → Returns (
          or_undefined (pick_page offset size_of_meta class t) (try_page offset size_of_meta again))
        ⊎ Any (Stuck t) (p ∷ rest)
  unfolding pick_page or_new_page try_page hand_out
  first_page class p rest t again e later =
      elim (Bool-cases ((t.metas p).used == (t.metas p).thread_freed)) [
        | inl idle ↦ inr (inl (inl ((==_iff _ _).0 idle)))
        | inr busy ↦
            let picks : pick_page offset size_of_meta class t ≡ some (some p, t) =
              ap (λ l. find_page class l t >>= or_new_page offset size_of_meta class) e
              ∙ ap (λ r. r >>= or_new_page offset size_of_meta class)
                  (find_page_busy class p rest t busy) in
            elim (Option-cases (take_block (t.metas p))) [
              | inl stop ↦ inr (inl (inr stop))
              | inr (Taken.block b m, e') ↦ inl (rw (picks, try_page, e') (some b, _, refl))
              | inr (Taken.full m, e') ↦
                  let m' : PageMeta = record m { is_full = true } in
                  let u : Threads = push_full p (remove_page p (set_meta p m' t)) in
                  let left : u.pages class ≡ erase p rest =
                    full_pages_of class p m' t ∙ ap (erase p) e ∙ erase_head p rest in
                  elim (later u
                    (subst (λ l. length l ≤ length rest) (sym left) (length-erase p rest))) [
                      | inl done ↦ inl (rw (picks, try_page, e') done)
                      | inr stuck ↦ inr (
                          inr (
                            Any-erase (Stuck u) (Stuck t) p rest
                              (λ q other. Stuck-before p q m' t other)
                              (subst (Any (Stuck u)) left stuck)))
                    ]
            ]
      ]

  pub alloc_loop-Returns :
      (class a : ℕ) (t : Threads)
      → class < 57
      → length (t.pages class) < a
      → Returns (alloc_loop offset size_of_meta a class t) ⊎ Any (Stuck t) (t.pages class)
  unfolding alloc_loop pick_page find_page
  alloc_loop-Returns class zero t small enough = absurd (omega (arith, enough))
  alloc_loop-Returns class (suc a) t small enough = elim (List-cases (t.pages class)) [
    | inl empty ↦
        let picks : pick_page offset size_of_meta class t
            ≡ or_new_page offset size_of_meta class (none, t) =
          ap (λ l. find_page class l t >>= or_new_page offset size_of_meta class) empty in
        inl (
          subst
            (λ r. Returns (
              or_undefined r
                (try_page offset size_of_meta (alloc_loop offset size_of_meta a class))))
            (sym picks) (new_page-Returns class (alloc_loop offset size_of_meta a class) t small))
    | inr (p, rest, e) ↦
        let size = ap length e in
        elim (first_page class p rest t (alloc_loop offset size_of_meta a class) e
          (λ u h. alloc_loop-Returns class a u small (omega (arith, h, size, enough)))) [
            | inl done ↦ inl done
            | inr stuck ↦ inr (subst (Any (Stuck t)) (sym e) stuck)
          ]
  ]
