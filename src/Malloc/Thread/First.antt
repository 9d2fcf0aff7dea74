-- ===== src/Malloc/Thread/First.antt =====
-- The first allocation of a small class: a segment is taken, and a block of its last page.
use mxos_v.Base.{
  ◌%◌, ◌^◌, ℕ, zero, suc, ◌+◌, ◌≤◌, ◌<◌, ◌≡◌, refl, ap, ap₂, ◌∙◌, false, none, some, ◌>>=◌, List,
  [], ◌∷◌, get_or, ==_refl, lt→ltb, arith,
}
use mxos_v.Malloc.{small_page_size, small_size_classes, small_page_start}
use mxos_v.Malloc.PageMeta.{PageMeta, Taken, take_head, take_lists, take_block}
use mxos_v.Malloc.PageMeta as Meta
use mxos_v.Malloc.Carve.{carve_small_page}
use mxos_v.Malloc.Carve.Laws.{Tiles, carve_small_page-Tiles, small_size}
use mxos_v.Malloc.Thread.{
  Threads, Run, or_undefined, update, set_meta, push_page, push_small, remove_page, find_page,
  page_at, add_pages, small_page, small_page_of, alloc_small_page, cut_page, or_new_page, hand_out,
  try_page, pick_page, alloc_loop, num_small,
}

pub update_same : {A : Type 0} (f : ℕ → A) (k : ℕ) (v : A) → update f k v k ≡ v
update_same f k v = rw (==_refl k) refl

-- The first block of tiles is at or above their start.
Tiles-low : (size low high : ℕ) (bs : List ℕ) → Tiles size low high bs → low ≤ high
Tiles-low size low high [] h = omega (arith, h)
Tiles-low size low high (b ∷ bs) (e, h) = omega (arith, e, Tiles-low size low b bs h)

-- The block that a carved page gives first.
first_block :
    (size start last : ℕ) (bs : List ℕ)
    → Tiles size start (start + last) bs
    → 0 < last
    → (b : ℕ) × (rest : List ℕ) × (bs ≡ b ∷ rest) × (start ≤ b) × (b + size ≡ start + last)
first_block size start last [] h pos = absurd (omega (arith, h))
first_block size start last (b ∷ bs) (e, h) pos = (b, bs, refl, Tiles-low size start b bs h, e)

module _ (offset size_of_meta : ℕ) where
  add_pages-pages :
      (n segment i : ℕ) (t : Threads)
      → (add_pages offset size_of_meta n segment i t).pages ≡ t.pages
  unfolding add_pages push_small
  add_pages-pages zero segment i t = refl
  add_pages-pages (suc n) segment i t = add_pages-pages n segment (i + 1) _

  add_pages-free_segments :
      (n segment i : ℕ) (t : Threads)
      → (add_pages offset size_of_meta n segment i t).free_segments ≡ t.free_segments
  unfolding add_pages push_small
  add_pages-free_segments zero segment i t = refl
  add_pages-free_segments (suc n) segment i t = add_pages-free_segments n segment (i + 1) _

  add_pages-last :
      (n segment i : ℕ) (t : Threads)
      → (add_pages offset size_of_meta (suc n) segment i t).metas
          (page_at offset size_of_meta segment (i + n))
        ≡ Meta.new 0
  unfolding add_pages push_small
  add_pages-last zero segment i t =
      let e : i + 0 ≡ i = omega arith in rw e (update_same t.metas _ _)
  add_pages-last (suc n) segment i t =
      let e : i + suc n ≡ i + 1 + n = omega arith in rw e (add_pages-last n segment (i + 1) _)

  -- A thread without a page for the class and without free small pages, which takes a segment.
  module _ (class fuel segment : ℕ) (rest : List ℕ) (t : Threads) (small : class < 33)
      (no_page : t.pages class ≡ []) (no_small : t.free_small_pages ≡ [])
      (segments : t.free_segments ≡ segment ∷ rest) where
    abbrev last_page : ℕ
    last_page = page_at offset size_of_meta segment 62

    abbrev page_begin : ℕ
    page_begin = small_page_start offset size_of_meta last_page

    abbrev with_segment : Threads
    with_segment = record t {
      free_segments = rest;
      segment_used = update t.segment_used segment 1;
      segment_is_large = update t.segment_is_large segment false;
    }

    abbrev with_pages : Threads
    with_pages = add_pages offset size_of_meta 63 segment 0 with_segment

    small_page_lem : small_page offset size_of_meta t ≡ (some last_page, with_pages)
    unfolding small_page small_page_of
    small_page_lem = ap₂ (λ a b. small_page_of offset size_of_meta a b t) no_small segments

    new_meta : with_pages.metas last_page ≡ Meta.new 0
    new_meta = add_pages-last 62 segment 0 with_segment

    -- The thread with the page on the list of the class, before it is cut.
    abbrev linked : Threads
    linked = push_page class last_page (remove_page last_page with_pages)

    abbrev cut_meta : PageMeta
    cut_meta = record (linked.metas last_page) {
      class = class;
      free = carve_small_page page_begin class (linked.metas last_page).free;
    }

    abbrev ready : Threads
    ready = set_meta last_page cut_meta linked

    alloc_small_page_lem : alloc_small_page offset size_of_meta class t ≡ (some last_page, ready)
    unfolding alloc_small_page cut_page
    alloc_small_page_lem = ap (cut_page offset size_of_meta class) small_page_lem

    pick_page_lem : pick_page offset size_of_meta class t ≡ some (some last_page, ready)
    unfolding pick_page find_page or_new_page
    pick_page_lem =
        let nothing : find_page class (t.pages class) t ≡ some (none, t) =
          ap (λ l. find_page class l t) no_page in
        ap (λ r. r >>= or_new_page offset size_of_meta class) nothing
        ∙ rw (or_new_page, lt→ltb class num_small small) (ap some alloc_small_page_lem)

    cut_free : cut_meta.free ≡ carve_small_page page_begin class []
    unfolding push_page remove_page Meta.new
    cut_free = ap (λ m. carve_small_page page_begin class m.free) new_meta

    counted : ((with_pages.metas last_page).used + 1) % 2 ^ 32 ≡ 1
    unfolding Meta.new
    counted = ap (λ m. (m.used + 1) % 2 ^ 32) new_meta

    -- The first allocation of a small class, where the list of the class and that of the free small
    -- pages are empty, takes a segment and returns a block of the size of the class inside its last page.
    pub first_alloc :
        (b : ℕ) × (t' : Threads) × (alloc_loop offset size_of_meta (suc fuel) class t
          ≡ Run.returned (some b) t')
        × (page_begin ≤ b)
        × (b + get_or small_size_classes class 0 ≤ page_begin + small_page_size)
        × ((t'.metas last_page).used ≡ 1)
        × (t'.free_segments ≡ rest)
    unfolding alloc_loop try_page hand_out take_block take_lists push_page remove_page
    first_alloc =
        let size : ℕ = get_or small_size_classes class 0 in
        let (last, below, above, tiles) = carve_small_page-Tiles page_begin class small in
        let (_, fits) = small_size class small in
        let (b, others, is_list, low, high) =
          first_block size page_begin last (carve_small_page page_begin class []) tiles
            (omega arith) in
        let has_block : cut_meta.free ≡ b ∷ others = cut_free ∙ is_list in
        let m : PageMeta = record cut_meta { free = others; used = (cut_meta.used + 1) % 2 ^ 32 } in
        let takes : take_block cut_meta ≡ some (Taken.block b m) =
          ap (λ l. take_lists l cut_meta.local_free cut_meta) has_block in
        let again = alloc_loop offset size_of_meta fuel class in
        let here : ready.metas last_page ≡ cut_meta = update_same linked.metas last_page cut_meta in
        (
          b,
          set_meta last_page m ready,
          ap (λ r. or_undefined r (try_page offset size_of_meta again)) pick_page_lem
              ∙ ap
                  (λ n.
                    or_undefined (take_block n)
                      (hand_out offset size_of_meta last_page ready again))
                  here
              ∙ ap (λ r. or_undefined r (hand_out offset size_of_meta last_page ready again)) takes,
          low,
          omega arith,
          ap (λ n. n.used) (update_same ready.metas last_page m) ∙ counted,
          add_pages-free_segments 63 segment 0 with_segment,
        )
