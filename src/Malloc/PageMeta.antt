-- ===== src/Malloc/PageMeta.antt =====
-- `PageMeta`: the free lists of a page. A free list is the list of its blocks, which hold its links.
pub mod Laws
use mxos_v.Base.{ℕ, ◌+◌, ◌%◌, ◌^◌, Bool, true, false, Option, none, some, List, [], ◌∷◌}
use mxos_v.Malloc.{ThreadFreeState, normal, delaying, delayed}

-- The word `thread_free`: the state in its low bits, and the list that the rest points to.
pub record ThreadFree : Type 0 where
  pub state : ThreadFreeState
  pub list : List ℕ

pub record PageMeta : Type 0 where
  pub free : List ℕ
  pub local_free : List ℕ
  pub thread_free : ThreadFree
  pub used : ℕ
  pub thread_freed : ℕ
  pub is_full : Bool
  pub class : ℕ

-- `PageMeta::new`
unfoldable pub new : ℕ → PageMeta
new class = record {
  free = [];
  local_free = [];
  thread_free = record { state = normal; list = [] };
  used = 0;
  thread_freed = 0;
  is_full = false;
  class = class;
}

-- What the match of `alloc` finds in a page: a block, or that the page is full.
pub data Taken : Type 0 where
  block : ℕ → PageMeta → Taken
  full : PageMeta → Taken

-- The head of the list that the match has found is the block, and the rest is the free list. `used`
-- has 32 bits and wraps, as in a build without overflow checks.
abbrev pub take_head : List ℕ → PageMeta → Option Taken
take_head [] m = none
take_head (b ∷ rest) m =
    some (Taken.block b (record m { free = rest; used = (m.used + 1) % 2 ^ 32 }))

-- `compare_exchange` of Normal without a list by Delayed. Where it fails, the list of the word is
-- taken and the word is Normal again; `none` is the null pointer for which that is undefined.
unfoldable pub take_thread_free : ThreadFreeState → List ℕ → PageMeta → Option Taken
take_thread_free normal [] m =
    some (Taken.full (record m { thread_free = record { state = delayed; list = [] } }))
take_thread_free normal (b ∷ rest) m =
    take_head (b ∷ rest) (record m { thread_free = record { state = normal; list = [] } })
take_thread_free delaying l m =
    take_head l (record m { thread_free = record { state = normal; list = [] } })
take_thread_free delayed l m =
    take_head l (record m { thread_free = record { state = normal; list = [] } })

-- The match of `alloc`: the free list, the local one, the one of the other threads.
unfoldable pub take_lists : List ℕ → List ℕ → PageMeta → Option Taken
take_lists (b ∷ rest) l m = take_head (b ∷ rest) m
take_lists [] (b ∷ rest) m = take_head (b ∷ rest) (record m { local_free = [] })
take_lists [] [] m = take_thread_free m.thread_free.state m.thread_free.list m

unfoldable pub take_block : PageMeta → Option Taken
take_block m = take_lists m.free m.local_free m

-- `fast_alloc` on a page: the free list alone.
unfoldable pub fast_take : PageMeta → Option (ℕ × PageMeta)
fast_take m = elim m.free [
  | [] ↦ none
  | b ∷ rest ↦ some (b, record m { free = rest; used = (m.used + 1) % 2 ^ 32 })
]

-- The end of `local_free`: the block goes on the local list.
unfoldable pub push_local : ℕ → PageMeta → PageMeta
push_local b m = record m { local_free = b ∷ m.local_free }
