-- ===== src/Malloc/Thread.antt =====
-- `ThreadAllocator` and `FreeSegments`: the lists of pages and of segments, as one thread sees them.
-- A page is the address of its `PageMeta`, a list of pages is the list of these addresses. `none` is a
-- panic or undefined behaviour.

pub mod First
pub mod Picks
pub mod Returns
pub mod Passes
use mxos_v.Base.{
  ℕ, zero, suc, ◌+◌, ◌-◌, ◌*◌, ◌%◌, ◌^◌, Bool, true, false, not, ◌&&◌, Option, none, some, ◌>>=◌,
  ◌>>◌, assert, List, [], ◌∷◌, length, ◌==◌, ltb, leb, if◌then◌else◌,
}
use mxos_v.Malloc.{segment_size, from_ptr, small_page_start, block_small_page_id}
use mxos_v.Malloc.PageMeta.{PageMeta, Taken, take_block, fast_take, push_local}
use mxos_v.Malloc.PageMeta as Meta
use mxos_v.Malloc.Carve.{carve_small_page, carve_large_page}

-- The thread allocator, the free segments, and the metadata of segments and pages by address.
pub record Threads : Type 0 where
  pub pages : ℕ → List ℕ
  pub free_small_pages : List ℕ
  pub full_pages : List ℕ
  pub delayed_free : List ℕ
  pub free_segments : List ℕ
  pub metas : ℕ → PageMeta
  pub segment_used : ℕ → ℕ
  pub segment_is_large : ℕ → Bool

-- What `alloc` comes to: a block or a null pointer with the state after it, a panic or undefined
-- behaviour, or a loop that has more passes than its fuel.
pub data Run : Type 0 where
  returned : Option ℕ → Threads → Run
  undefined : Run
  out_of_fuel : Run

abbrev pub or_undefined : {A : Type 0} → Option A → (A → Run) → Run
or_undefined none f = Run.undefined
or_undefined (some a) f = f a

-- A write to a function.
abbrev pub update {ℓ} : {A : Type ℓ} → (ℕ → A) → ℕ → A → ℕ → A
update f k v x = if x == k then v else f x

abbrev pub erase : ℕ → List ℕ → List ℕ
erase p [] = []
erase p (q ∷ qs) = let rest = erase p qs in if p == q then rest else q ∷ rest

abbrev pub set_meta : ℕ → PageMeta → Threads → Threads
set_meta p m t = record t { metas = update t.metas p m }

-- `push_page` on the list of a class, of the free small pages, and of the full pages.
unfoldable pub push_page : ℕ → ℕ → Threads → Threads
push_page class p t = record t { pages = update t.pages class (p ∷ t.pages class) }

unfoldable pub push_small : ℕ → Threads → Threads
push_small p t = record t { free_small_pages = p ∷ t.free_small_pages }

unfoldable pub push_full : ℕ → Threads → Threads
push_full p t = record t { full_pages = p ∷ t.full_pages }

-- `remove_page` unlinks a page from the list that it is on, whichever that is.
unfoldable pub remove_page : ℕ → Threads → Threads
remove_page p t = record t {
  pages = λ class. erase p (t.pages class);
  free_small_pages = erase p t.free_small_pages;
  full_pages = erase p t.full_pages;
}

-- `FreeSegments::push` and `pop`, by one thread.
unfoldable pub push_segment : ℕ → Threads → Threads
push_segment segment t = record t { free_segments = segment ∷ t.free_segments }

unfoldable pub push_bytes : ℕ → Threads → Option Threads
push_bytes ptr t = assert (ptr % segment_size == 0) >> some (push_segment ptr t)

unfoldable pub pop_segment : Threads → Option ℕ × Threads
pop_segment t = elim t.free_segments [
  | [] ↦ (none, t)
  | segment ∷ rest ↦ (some segment, record t { free_segments = rest })
]

-- The number of small classes.
abbrev pub num_small : ℕ
num_small = 33

-- The end of `free_small_page`, where the subtraction panics below 0.
unfoldable pub free_small_page : ℕ → Threads → Option Threads
free_small_page p t =
    let segment = from_ptr p in
    let used = t.segment_used segment - 1 in
    let t' : Threads = record t { segment_used = update t.segment_used segment used } in
    assert (ltb 0 (t.segment_used segment))
    >> some (if used == 0 then push_segment segment t' else push_small p t')

-- The pass of `find_page` on a page that is not the last one and has no block in use.
unfoldable pub release_page : ℕ → ℕ → Threads → Option Threads
release_page class p t =
    if leb num_small class
    then some (push_segment (from_ptr p) (remove_page p t))
    else free_small_page p (remove_page p t)

-- `find_page` along the list of the class.
unfoldable pub find_page : ℕ → List ℕ → Threads → Option (Option ℕ × Threads)
find_page class [] t = some (none, t)
find_page class (p ∷ []) t = some (some p, t)
find_page class (p ∷ q ∷ rest) t = elim ((t.metas p).used == (t.metas p).thread_freed) [
  | true ↦ release_page class p t >>= find_page class (q ∷ rest)
  | false ↦ some (some p, t)
]

-- `local_free`
unfoldable pub local_free : ℕ → ℕ → ℕ → Threads → Threads
local_free class p b t =
    let m = t.metas p in
    let t' =
      if m.is_full
      then push_page class p (remove_page p (set_meta p (record m { is_full = false }) t))
      else t in
    set_meta p (push_local b (t'.metas p)) t'

unfoldable pub fast_alloc : ℕ → Threads → Option (ℕ × Threads)
fast_alloc class t = elim (t.pages class) [
  | [] ↦ none
  | p ∷ rest ↦ fast_take (t.metas p) >>= λ r. some (r.0, set_meta p (r.1) t)
]

-- The layout of a segment, which the compiler chooses.
module _ (offset_of_page size_of_meta : ℕ) where
  abbrev pub page_at : ℕ → ℕ → ℕ
  page_at segment i = segment + offset_of_page + i * size_of_meta

  -- The loop of `alloc_small_page` over the pages of a new segment, from page `i` on.
  unfoldable pub add_pages : ℕ → ℕ → ℕ → Threads → Threads
  add_pages zero segment i t = t
  add_pages (suc n) segment i t =
      add_pages n segment (i + 1)
        (push_small (page_at segment i) (set_meta (page_at segment i) (Meta.new 0) t))

  -- A page of the small pages that are free, after a segment is taken where there is none.
  unfoldable pub small_page_of : List ℕ → List ℕ → Threads → Option ℕ × Threads
  small_page_of (p ∷ pages) segments t = (
    some p,
    record t {
      segment_used = update t.segment_used (from_ptr p) ((t.segment_used (from_ptr p) + 1) % 2 ^ 8);
    },
  )
  small_page_of [] [] t = (none, t)
  small_page_of [] (segment ∷ rest) t = (
    some (page_at segment 62),
    add_pages 63 segment 0 (record t {
      free_segments = rest;
      segment_used = update t.segment_used segment 1;
      segment_is_large = update t.segment_is_large segment false;
    }),
  )

  unfoldable pub small_page : Threads → Option ℕ × Threads
  small_page t = small_page_of t.free_small_pages t.free_segments t

  -- The end of `alloc_small_page`: the page moves to the list of the class and is cut.
  unfoldable pub cut_page : ℕ → Option ℕ × Threads → Option ℕ × Threads
  cut_page class (none, t) = (none, t)
  cut_page class (some p, t) =
      let t' = push_page class p (remove_page p t) in
      let m = t'.metas p in
      let start = small_page_start offset_of_page size_of_meta p in
      (
        some p,
        set_meta p (record m { class = class; free = carve_small_page start class m.free }) t',
      )

  unfoldable pub alloc_small_page : ℕ → Threads → Option ℕ × Threads
  alloc_small_page class t = cut_page class (small_page t)

  unfoldable pub alloc_large_page : ℕ → Threads → Option ℕ × Threads
  alloc_large_page class t =
      let r = pop_segment t in
      elim (r.0) [
        | none ↦ (none, r.1)
        | some segment ↦
            let p = page_at segment 0 in
            let t' : Threads = record (r.1) {
              segment_used = update (r.1).segment_used segment 1;
              segment_is_large = update (r.1).segment_is_large segment true;
            } in
            let m : PageMeta = record (Meta.new class) {
              free = carve_large_page segment (class - num_small) [];
            } in
            (some p, push_page class p (set_meta p m t'))
      ]

  -- A new page where `find_page` finds none.
  unfoldable pub or_new_page : ℕ → Option ℕ × Threads → Option (Option ℕ × Threads)
  or_new_page class (some p, t) = some (some p, t)
  or_new_page class (none, t) =
      some (if ltb class num_small then alloc_small_page class t else alloc_large_page class t)

  -- The page that a pass of `alloc` looks at.
  unfoldable pub pick_page : ℕ → Threads → Option (Option ℕ × Threads)
  pick_page class t = find_page class (t.pages class) t >>= or_new_page class

  -- The page of a block.
  unfoldable pub page_of : Threads → ℕ → ℕ
  page_of t b =
      page_at (from_ptr b) (if t.segment_is_large (from_ptr b) then 0 else block_small_page_id b)

  -- The loop of `alloc` over the blocks that other threads have given back.
  unfoldable pub drain : List ℕ → Threads → Threads
  drain [] t = t
  drain (b ∷ bs) t = let p = page_of t b in drain bs (local_free (t.metas p).class p b t)

  -- The end of a pass of `alloc`: the block is returned, or the page is full and the loop goes on.
  unfoldable pub hand_out : ℕ → Threads → (Threads → Run) → Taken → Run
  hand_out p t again (Taken.block b m) = Run.returned (some b) (set_meta p m t)
  hand_out p t again (Taken.full m) =
      again (push_full p (remove_page p (set_meta p (record m { is_full = true }) t)))

  unfoldable pub try_page : (Threads → Run) → Option ℕ × Threads → Run
  try_page again (none, t) = Run.returned none t
  try_page again (some p, t) = or_undefined (take_block (t.metas p)) (hand_out p t again)

  -- The loop of `alloc`, with at most `fuel` passes.
  unfoldable pub alloc_loop : ℕ → ℕ → Threads → Run
  alloc_loop zero class t = Run.out_of_fuel
  alloc_loop (suc fuel) class t =
      or_undefined (pick_page class t) (try_page (alloc_loop fuel class))

  unfoldable pub alloc : ℕ → ℕ → Threads → Run
  alloc fuel class t = alloc_loop fuel class (drain t.delayed_free (record t { delayed_free = [] }))
