-- ===== src/Pmm/Slices.antt =====
-- Work on a tail of the buddies, put back.
use mxos_v.Base.{
  ℕ, zero, suc, ◌≤◌, ◌≡◌, refl, ap, Option, none, some, List, [], ◌∷◌, arith, length, drop,
  >>=-eq-some,
}
use mxos_v.Pmm.{Buddy, with_slice}

-- The buddies before `n`, then `ys`.
abbrev pub splice : ℕ → List Buddy → List Buddy → List Buddy
splice zero bs ys = ys
splice (suc n) [] ys = []
splice (suc n) (b ∷ bs) ys = b ∷ splice n bs ys

pub splice-drop : (n : ℕ) (bs : List Buddy) → splice n bs (drop n bs) ≡ bs
splice-drop zero bs = refl
splice-drop (suc n) [] = refl
splice-drop (suc n) (b ∷ bs) = ap (λ t. b ∷ t) (splice-drop n bs)

pub splice-splice : (n : ℕ) (bs ys zs : List Buddy) → splice n (splice n bs ys) zs ≡ splice n bs zs
splice-splice zero bs ys zs = refl
splice-splice (suc n) [] ys zs = refl
splice-splice (suc n) (b ∷ bs) ys zs = ap (λ t. b ∷ t) (splice-splice n bs ys zs)

module _ {ℓ} {R : Type ℓ} (f : List Buddy → Option (List Buddy × R)) where
  -- What a successful run did to the tail.
  pub with_slice-inv :
      (n : ℕ) (bs : List Buddy) {bs' : List Buddy} {r : R}
      → with_slice n f bs ≡ some (bs', r)
      → (ys : List Buddy) × (n ≤ length bs)
        × (f (drop n bs) ≡ some (ys, r))
        × (bs' ≡ splice n bs ys)
        × (drop n bs' ≡ ys)
  unfolding with_slice
  with_slice-inv zero bs {bs'} h = (bs', omega arith, h, refl, refl)
  with_slice-inv (suc n) [] h = absurd (cc)
  with_slice-inv (suc n) (b ∷ bs) {bs'} {r} h =
      let (q, e, e') = >>=-eq-some (with_slice n f bs) (λ r. some (b ∷ r.0, r.1)) h in
      let (ys, l, run, put, rest) = with_slice-inv n bs {bs' = q.0} {r = q.1} e in
      let er : q.1 ≡ r = cc e' in
      let eb : b ∷ q.0 ≡ bs' = cc e' in
      (ys, omega arith, rw (← er) run, rw (← eb, put) refl, rw (← eb) rest)

  pub with_slice-run :
      (n : ℕ) (bs ys : List Buddy) (r : R)
      → n ≤ length bs
      → f (drop n bs) ≡ some (ys, r)
      → with_slice n f bs ≡ some (splice n bs ys, r)
  unfolding with_slice
  with_slice-run zero bs ys r l h = h
  with_slice-run (suc n) [] ys r l h = elim l [ ]
  with_slice-run (suc n) (b ∷ bs) ys r l h = rw (with_slice-run n bs ys r (omega arith) h)

  pub with_slice-none : (n : ℕ) (bs : List Buddy) → f (drop n bs) ≡ none → with_slice n f bs ≡ none
  unfolding with_slice
  with_slice-none zero bs h = h
  with_slice-none (suc n) [] h = refl
  with_slice-none (suc n) (b ∷ bs) h = rw (with_slice-none n bs h)

pub length-splice : (n : ℕ) (bs ys : List Buddy) → n ≤ length bs → n ≤ length (splice n bs ys)
length-splice zero bs ys h = omega arith
length-splice (suc n) [] ys h = elim h [ ]
length-splice (suc n) (b ∷ bs) ys h = omega (arith, length-splice n bs ys (omega arith))

pub drop-splice : (n : ℕ) (bs ys : List Buddy) → n ≤ length bs → drop n (splice n bs ys) ≡ ys
drop-splice zero bs ys h = refl
drop-splice (suc n) [] ys h = elim h [ ]
drop-splice (suc n) (b ∷ bs) ys h = drop-splice n bs ys (omega arith)

drop_step :
    (n : ℕ) (xs : List Buddy) {y : Buddy} {ys : List Buddy}
    → drop n xs ≡ y ∷ ys
    → (drop (suc n) xs ≡ ys) × (suc n ≤ length xs)
drop_step zero [] h = absurd (cc)
drop_step zero (x ∷ xs) h = (cc, omega arith)
drop_step (suc n) [] h = absurd (cc)
drop_step (suc n) (x ∷ xs) h = let (e, l) = drop_step n xs h in (e, omega arith)

pub drop_next :
    (n m : ℕ) (xs : List Buddy) {y : Buddy} {ys : List Buddy}
    → m ≡ suc n
    → drop n xs ≡ y ∷ ys
    → (drop m xs ≡ ys) × (m ≤ length xs)
drop_next n m xs e h = rw e (drop_step n xs h)
