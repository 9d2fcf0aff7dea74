-- ===== src/Heap/Tests.antt =====
-- The theorems of the pairing heap at heaps of numbers.
use mxos_v.Base.{ℕ, ◌≡◌, refl, some, leb, ltb, arith}
use mxos_v.Heap.{Order, nil, node, PairingHeap, push}
use mxos_v.Heap.Merge.{IsHeap}
use mxos_v.Heap.Laws.{Popped, pop-Popped, Pushed, push-Pushed, push_breaks, Taken, pop_any-Taken}

abbrev numbers : Order ℕ
numbers = record {
  le = leb;
  lt = ltb;
  lt_not = λ a b. ground arith;
  trans = λ a b c h k. ground arith;
  total = λ a b h. ground arith;
}

-- 9 with the children 4 and 6 and the siblings 3 and 7.
abbrev five : PairingHeap ℕ
five = record {
  root = node 9 (node 4 nil (node 6 nil nil)) (node 3 nil (node 7 nil nil));
  num_merges = 2;
  len = 5;
}

five-IsHeap : IsHeap numbers five.root
five-IsHeap = ((refl, (refl, tt)), (tt, tt, (tt, tt, tt)), (tt, tt, (tt, tt, tt)))

pop-Popped_example : Popped numbers five
pop-Popped_example =
    pop-Popped numbers five 9 (node 4 nil (node 6 nil nil)) (node 3 nil (node 7 nil nil)) refl
      five-IsHeap (omega arith)

push-Pushed_example : Pushed numbers five 8
push-Pushed_example =
    push-Pushed numbers five 8 9 (node 4 nil (node 6 nil nil)) (node 3 nil (node 7 nil nil)) refl
      five-IsHeap (λ e. absurd (cc)) (λ e e'. absurd (cc))

-- 10 was pushed, 5 was pushed, and `pop_any` took 5.
abbrev one_left : PairingHeap ℕ
one_left = record { root = node 10 nil nil; num_merges = 1; len = 2 }

-- 10, 5 and 1 were pushed in some order, and `pop` took 10.
abbrev two_left : PairingHeap ℕ
two_left = record { root = node 1 nil (node 5 nil nil); num_merges = 0; len = 2 }

push_breaks_example :
    (h' : PairingHeap ℕ) × (push numbers two_left 3 ≡ some h') × ¬ IsHeap numbers h'.root
push_breaks_example = push_breaks numbers two_left 3 1 5 nil nil nil refl refl refl

pop_any-Taken_example : Taken numbers five
pop_any-Taken_example =
    pop_any-Taken numbers five 9 (node 4 nil (node 6 nil nil)) (node 3 nil (node 7 nil nil)) refl
