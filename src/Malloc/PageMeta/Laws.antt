-- ===== src/Malloc/PageMeta/Laws.antt =====
-- The blocks of a page: where the match of `alloc` finds them, and what it does to them.
use mxos_v.Base.{
  ◌<◌, ◌%◌, ◌^◌, ℕ, ◌+◌, ◌≡◌, ◌≢◌, ◌↔◌, ◌⊎◌, inl, inr, ◌∙◌, refl, sym, ap, ap₂, none, some, List,
  [], ◌∷◌, ◌==◌, if◌then◌else◌, arith,
}
use mxos_v.Malloc.{ThreadFreeState, normal, delaying, delayed}
use mxos_v.Malloc.PageMeta.{
  PageMeta, Taken, take_head, take_thread_free, take_block, take_lists, push_local,
}

-- How often a block is on a list, and on the lists of a page.
abbrev pub count : ℕ → List ℕ → ℕ
count x [] = 0
count x (b ∷ bs) = (if x == b then 1 else 0) + count x bs

abbrev pub on_page : ℕ → PageMeta → ℕ
on_page x m = count x m.free + count x m.local_free + count x m.thread_free.list

-- What the match leaves: a block that is taken off the lists and counted, or a page without blocks
-- on its lists that waits for blocks as Delayed.
abbrev pub Takes : PageMeta → Taken → Type 0
Takes m (Taken.block b m') =
    ((x : ℕ) → on_page x m ≡ (if x == b then 1 else 0) + on_page x m') × (m'.used ≡ m.used + 1)
Takes m (Taken.full m') =
    ((x : ℕ) → on_page x m ≡ 0)
    × (m'.used ≡ m.used)
    × (m'.thread_free ≡ record { state = delayed; list = [] })

-- Taking the head of a list that holds the blocks that no other list of the page holds.
take_head-Takes :
    (m m' : PageMeta) (l : List ℕ) {r : Taken}
    → ((x : ℕ) → on_page x m ≡ count x l + count x m'.local_free + count x m'.thread_free.list)
    → m'.used ≡ m.used
    → m.used + 1 < 2 ^ 32
    → take_head l m' ≡ some r
    → Takes m r
take_head-Takes m m' [] {r} all same room h = absurd (cc h)
take_head-Takes m m' (b ∷ rest) {r} all same room h =
    let m'' : PageMeta = record m' { free = rest; used = (m'.used + 1) % 2 ^ 32 } in
    let taken : Taken.block b m'' ≡ r = cc h in
    rw (← taken) (λ x. omega (arith, all x), omega (arith, same, room))

-- A page whose own lists are empty.
module _ (m : PageMeta) (f : m.free ≡ []) (g : m.local_free ≡ []) where
  bare : (l : List ℕ) (x : ℕ) → m.thread_free.list ≡ l → on_page x m ≡ count x l
  bare l x w = rw (f, g, w) (omega arith)

  emptied :
      (l : List ℕ) (x : ℕ)
      → m.thread_free.list ≡ l
      → on_page x m ≡ count x l + count x m.local_free + 0
  emptied l x w = omega (arith, bare l x w, ap (count x) g)

  take_thread_free-Takes :
      (s : ThreadFreeState) (l : List ℕ) {r : Taken}
      → m.thread_free.list ≡ l
      → m.used + 1 < 2 ^ 32
      → take_thread_free s l m ≡ some r
      → Takes m r
  unfolding take_thread_free
  take_thread_free-Takes normal [] {r} w room h =
      let m' : PageMeta = record m { thread_free = record { state = delayed; list = [] } } in
      let is_full : Taken.full m' ≡ r = cc h in
      rw (← is_full) (λ x. omega (arith, bare [] x w), refl, refl)
  take_thread_free-Takes normal (b ∷ rest) w room h =
      take_head-Takes m (record m { thread_free = record { state = normal; list = [] } }) (b ∷ rest)
        (λ x. emptied (b ∷ rest) x w) refl room h
  take_thread_free-Takes delaying l w room h =
      take_head-Takes m (record m { thread_free = record { state = normal; list = [] } }) l
        (λ x. emptied l x w) refl room h
  take_thread_free-Takes delayed l w room h =
      take_head-Takes m (record m { thread_free = record { state = normal; list = [] } }) l
        (λ x. emptied l x w) refl room h

pub List-cases : (l : List ℕ) → (l ≡ []) ⊎ ((b : ℕ) × (rest : List ℕ) × (l ≡ b ∷ rest))
List-cases [] = inl refl
List-cases (b ∷ rest) = inr (b, rest, refl)

bare_block :
    (m : PageMeta)
    → m.free ≡ []
    → m.local_free ≡ []
    → take_block m ≡ take_thread_free m.thread_free.state m.thread_free.list m
unfolding take_block take_lists
bare_block m f g = ap₂ (λ a b. take_lists a b m) f g

-- Where the match of `alloc` is defined on a page whose counter of used blocks can grow, it takes one block off the lists of the page and
-- counts it as used, or there is no block on any list and the page waits as Delayed.
pub take_block-Takes :
    (m : PageMeta) {r : Taken} → m.used + 1 < 2 ^ 32 → take_block m ≡ some r → Takes m r
unfolding take_block take_lists
take_block-Takes m room h = elim (List-cases m.free) [
  | inr (b, rest, f) ↦
      take_head-Takes m m (b ∷ rest) (λ x. rw f refl) refl room (rw (take_block, f) at h)
  | inl f ↦ elim (List-cases m.local_free) [
    | inr (b, rest, g) ↦
        take_head-Takes m (record m { local_free = [] }) (b ∷ rest) (λ x. rw (f, g) (omega arith))
          refl room (rw (take_block, f, g) at h)
    | inl g ↦
        take_thread_free-Takes m f g m.thread_free.state m.thread_free.list refl room
          (sym (bare_block m f g) ∙ h)
  ]
]

-- The word of a page with a block behind it is Normal, as only Normal holds a list.
null_list :
    (s : ThreadFreeState) (l : List ℕ) (m : PageMeta)
    → (take_thread_free s l m ≡ none) ↔ ((l ≡ []) × (s ≢ normal))
unfolding take_thread_free
null_list normal [] m = (λ h. absurd (cc h), λ h. absurd (h.1 refl))
null_list normal (b ∷ l) m = (λ h. absurd (cc h), λ h. absurd (h.1 refl))
null_list delaying [] m = (λ h. (refl, λ e. absurd (cc e)), λ h. refl)
null_list delaying (b ∷ l) m = (λ h. absurd (cc h), λ h. absurd (cc (h.0)))
null_list delayed [] m = (λ h. (refl, λ e. absurd (cc e)), λ h. refl)
null_list delayed (b ∷ l) m = (λ h. absurd (cc h), λ h. absurd (cc (h.0)))

-- The match of `alloc` is undefined on a page exactly when the three lists of the page are empty and
-- its word is Delaying or Delayed.
pub take_block-undefined :
    (m : PageMeta)
    → (take_block m ≡ none) ↔ (
        (m.free ≡ [])
        × (m.local_free ≡ [])
        × (m.thread_free.list ≡ [])
        × (m.thread_free.state ≢ normal))
unfolding take_block take_lists
take_block-undefined m = elim (List-cases m.free) [
  | inr (b, rest, f) ↦
      (λ h. absurd (cc (rw (take_block, f) at h)), λ h. absurd (cc (sym f ∙ (h.0))))
  | inl f ↦ elim (List-cases m.local_free) [
    | inr (b, rest, g) ↦
        (λ h. absurd (cc (rw (take_block, f, g) at h)), λ h. absurd (cc (sym g ∙ (h.1))))
    | inl g ↦
        let last = null_list m.thread_free.state m.thread_free.list m in
        (
          λ h. let (empty, odd) = last.0 (sym (bare_block m f g) ∙ h) in (f, g, empty, odd),
          λ h. bare_block m f g ∙ last.1 (h.2, h.3),
        )
  ]
]

-- A page that has run full is given one block back by its own thread: the block is handed out again,
-- and the call after that is undefined, since the word of the page has stayed Delayed.
pub refill-undefined :
    (m : PageMeta) (b : ℕ)
    → m.free ≡ []
    → m.local_free ≡ []
    → m.thread_free ≡ record { state = normal; list = [] }
    → (m₁ m₂ : PageMeta) × (take_block m ≡ some (Taken.full m₁))
      × (take_block (push_local b m₁) ≡ some (Taken.block b m₂))
      × (take_block m₂ ≡ none)
unfolding take_block take_lists take_thread_free push_local
refill-undefined m b f g w =
    let m₁ : PageMeta = record m { thread_free = record { state = delayed; list = [] } } in
    let m₂ : PageMeta = record m₁ { free = []; local_free = []; used = (m₁.used + 1) % 2 ^ 32 } in
    (
      m₁,
      m₂,
      bare_block m f g ∙ ap (λ u. take_thread_free u.state u.list m) w,
      rw (push_local, take_block, f, g) refl,
      refl,
    )
