-- ===== src/Malloc/Thread/Passes.antt =====
-- The passes of the loop of `alloc`: how many there are at most.
use mxos_v.Base.{
  ◌≢◌, ℕ, zero, suc, ◌<◌, ◌≡◌, ◌⊎◌, inl, inr, refl, sym, ap, ◌∙◌, true, Option, none, some,
  Option-cases, List, length, arith,
}
use mxos_v.Malloc.{}
use mxos_v.Malloc.PageMeta.{Taken, take_lists, take_block}
use mathlib.Core.Path.{subst}
use mxos_v.Malloc.Thread.{
  Threads, Run, erase, set_meta, push_full, remove_page, hand_out, try_page, pick_page, alloc_loop,
}
use mxos_v.Malloc.Thread.Picks.{Distinct, Found, Filled, erase_head, pick_page-Picked}
use mxos_v.Malloc.Thread.Returns.{Any, Stuck, Returns, alloc_loop-Returns}

module _ (offset size_of_meta : ℕ) where
  -- Two runs that end alike, within their fuel.
  abbrev Agree : Run → Run → Type 0
  Agree x y = (x ≡ y) × (x ≢ Run.out_of_fuel)

  undefined-Agree : Agree Run.undefined Run.undefined
  undefined-Agree = (refl, λ h. absurd (cc h))

  returned-Agree : (o : Option ℕ) (t : Threads) → Agree (Run.returned o t) (Run.returned o t)
  returned-Agree o t = (refl, λ h. absurd (cc h))

  -- A page with a block on its free list gives it, whatever the loop would do after.
  try_page-Filled :
      (again again' : Threads → Run) (r : Option ℕ × Threads)
      → Filled r
      → Agree (try_page offset size_of_meta again r) (try_page offset size_of_meta again' r)
  unfolding try_page take_block take_lists hand_out
  try_page-Filled again again' (none, t) h = returned-Agree none t
  try_page-Filled again again' (some p, t) (b, rest, e) =
      rw (try_page, take_block, e) (returned-Agree (some b) _)

  -- The loop goes on only after a page of the list, with the pages after it.
  try_page-Found :
      (class : ℕ) (l : List ℕ) (again again' : Threads → Run) (r : Option ℕ × Threads)
      → ((u : Threads)
          → Distinct (u.pages class)
          → length (u.pages class) < length l
          → Agree (again u) (again' u))
      → Found class l r
      → Agree (try_page offset size_of_meta again r) (try_page offset size_of_meta again' r)
  unfolding try_page hand_out push_full remove_page
  try_page-Found class l again again' (none, t) same f = returned-Agree none t
  try_page-Found class l again again' (some p, t) same (rest, e, d, shorter) =
      let left : erase p (t.pages class) ≡ rest = ap (erase p) e ∙ erase_head p rest ∙ d.0 in
      elim (Option-cases (take_block (t.metas p))) [
        | inl stop ↦ rw (try_page, stop) undefined-Agree
        | inr (Taken.block b m, e') ↦ rw (try_page, e') (returned-Agree (some b) _)
        | inr (Taken.full m, e') ↦
            rw (try_page, e')
              (same (push_full p (remove_page p (set_meta p (record m { is_full = true }) t)))
                (subst Distinct (sym left) (d.1))
                (subst (λ k. length k < length l) (sym left) shorter))
      ]

  -- A pass has one result with two ways to go on, where these agree on shorter lists of the class.
  one_pass :
      (class : ℕ)
      → class < 57
      → (a b : ℕ) (t : Threads) → Distinct (t.pages class)
      → ((u : Threads)
          → Distinct (u.pages class)
          → length (u.pages class) < length (t.pages class)
          → Agree
              (alloc_loop offset size_of_meta a class u)
              (alloc_loop offset size_of_meta b class u))
      → Agree
          (alloc_loop offset size_of_meta (suc a) class t)
          (alloc_loop offset size_of_meta (suc b) class t)
  unfolding alloc_loop
  one_pass class small a b t d later =
      let again = alloc_loop offset size_of_meta a class in
      let again' = alloc_loop offset size_of_meta b class in
      elim (Option-cases (pick_page offset size_of_meta class t)) [
        | inl stop ↦ rw (alloc_loop, stop) undefined-Agree
        | inr (r, e) ↦ elim (pick_page-Picked offset size_of_meta class t small d e) [
          | inr filled ↦ rw (alloc_loop, e) (try_page-Filled again again' r filled)
          | inl found ↦
              rw (alloc_loop, e) (try_page-Found class (t.pages class) again again' r later found)
        ]
      ]

  -- Where the fuel is enough, two runs agree.
  alloc_loop-Agree :
      (class a b : ℕ) (t : Threads)
      → class < 57
      → Distinct (t.pages class)
      → length (t.pages class) < a
      → length (t.pages class) < b
      → Agree (alloc_loop offset size_of_meta a class t) (alloc_loop offset size_of_meta b class t)
  alloc_loop-Agree class zero b t small d ha hb = absurd (omega (arith, ha))
  alloc_loop-Agree class (suc a) zero t small d ha hb = absurd (omega (arith, hb))
  alloc_loop-Agree class (suc a) (suc b) t small d ha hb = one_pass class small a b t d (λ u d' h.
      alloc_loop-Agree class a b u small d' (omega (arith, h, ha)) (omega (arith, h, hb)))

  -- The loop of `alloc` for a class of the table, on a list of its pages without repetition, ends within
  -- one pass more than there are pages on the list: with fuel for as many it does not run out of fuel,
  -- and its result does not depend on the fuel. It returns a block or a null pointer, unless a page of
  -- the list has as many blocks given back as in use, or the match on its lists is undefined.
  pub alloc_loop_passes :
      (class a b : ℕ) (t : Threads)
      → class < 57
      → Distinct (t.pages class)
      → length (t.pages class) < a
      → length (t.pages class) < b
      → (alloc_loop offset size_of_meta a class t ≡ alloc_loop offset size_of_meta b class t)
        × (alloc_loop offset size_of_meta a class t ≢ Run.out_of_fuel)
        × (Returns (alloc_loop offset size_of_meta a class t) ⊎ Any (Stuck t) (t.pages class))
  alloc_loop_passes class a b t small d ha hb =
      let (same, ends) = alloc_loop-Agree class a b t small d ha hb in
      (same, ends, alloc_loop-Returns offset size_of_meta class a t small ha)
