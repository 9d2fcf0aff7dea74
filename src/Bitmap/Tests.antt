-- ===== src/Bitmap/Tests.antt =====
-- Runs of the bitmap operations, and the theorems at concrete bitmaps.
use mxos_v.Base.{ℕ, ◌<◌, ◌≡◌, refl, true, false, some, none, List, [], ◌∷◌, arith, zero, suc}
use mxos_v.Bitmap.{
  get, toggle, reset, find_first_set, find_first_unset, split_bit, merge_bit, find_word,
  trailing_zeros, trailing_ones,
}
use mxos_v.Bitmap.Access.{get-toggle}
use mxos_v.Bitmap.Search.{IsWords, IsLowest, find_first_set-some, find_first_set_below}

-- Bits 2 and 64 are set.
abbrev two_words : List ℕ
two_words = 4 ∷ 1 ∷ []

runs :
    (get two_words 64 ≡ some true)
    × (toggle two_words 64 ≡ some (4 ∷ 0 ∷ []))
    × (reset two_words 2 ≡ some (0 ∷ 1 ∷ []))
    × (get two_words 128 ≡ none)
    × (find_first_set two_words 3 ≡ some 2)
    × (find_first_unset two_words 70 ≡ some 65)
unfolding get toggle reset split_bit find_first_set find_first_unset find_word merge_bit
    trailing_zeros trailing_ones
runs = (refl, refl, refl, refl, refl, refl)

two_words-IsWords : IsWords two_words
two_words-IsWords zero w h = ground arith
two_words-IsWords (suc zero) w h = ground arith
two_words-IsWords (suc (suc i)) w h = absurd (cc)

get-toggle_example : get (4 ∷ 0 ∷ []) 64 ≡ some false
unfolding get toggle split_bit
get-toggle_example = get-toggle two_words 64 64 (runs.1)

find_first_set-some_example : IsLowest two_words 3 true 2
find_first_set-some_example = find_first_set-some two_words 3 2 two_words-IsWords (runs.4)

find_first_set_below_example : 2 < 3
find_first_set_below_example =
    find_first_set_below two_words 3 2 2 two_words-IsWords (omega arith) (omega arith) set (runs.4)
  where
    set : get two_words 2 ≡ some true
    set = unfold get split_bit in refl
