-- ===== src/Psf/Outcome.antt =====
-- kernel/src/psf.rs: `Error`, and the result of code that returns an error or panics.
use mxos_v.Base.{ℕ, ◌≡◌, ◌≢◌, ◌⊎◌, inl, inr, refl, Bool, true, false, Option, none, some}

-- The details of a UTF-8 error are left out.
pub data Error : Type 0 where
  unexpected_end : Error
  unknown_psf2_version : ℕ → Error
  invalid_magic : Error
  invalid_glyph_size : Error
  utf8_error : Error
  ucs2_error : Error
  unexpected_unicode_table : Error
  invalid_unicode_table_size : ℕ → ℕ → Error
  unterminated_unicode_table : Error

pub data Outcome (A : Type 0) : Type 0 where
  ok : A → Outcome A
  err : Error → Outcome A
  panic : Outcome A

-- `ok_or`
abbrev pub ok_or : {A : Type 0} → Option A → Error → Outcome A
ok_or (some value) e = ok value
ok_or none e = err e

-- An operation that panics unless the test holds.
abbrev pub require : Bool → Outcome (Unit {0})
require false = panic
require true = ok tt

-- An early return with an error, unless the test holds.
abbrev pub check : Bool → Error → Outcome (Unit {0})
check false e = err e
check true e = ok tt

-- The code after a panic or an error does not run.
infixl 5 ◌>>=◌
abbrev pub ◌>>=◌ : {A B : Type 0} → Outcome A → (A → Outcome B) → Outcome B
panic >>= rest = panic
err e >>= rest = err e
ok value >>= rest = rest value

infixl 5 ◌>>◌
abbrev pub ◌>>◌ : {B : Type 0} → Outcome (Unit {0}) → Outcome B → Outcome B
test >> rest = test >>= λ _. rest

pub >>=-eq-ok :
    {A B : Type 0} (m : Outcome A) (f : A → Outcome B) {b : B}
    → (m >>= f) ≡ ok b
    → (a : A) × (m ≡ ok a) × (f a ≡ ok b)
>>=-eq-ok panic f h = cc
>>=-eq-ok (err e) f h = cc
>>=-eq-ok (ok a) f h = (a, refl, h)

pub ok_or-eq-ok : {A : Type 0} (o : Option A) (e : Error) {a : A} → ok_or o e ≡ ok a → o ≡ some a
ok_or-eq-ok none e h = cc
ok_or-eq-ok (some a) e h = cc

pub check-eq-ok : (b : Bool) (e : Error) {u : Unit {0}} → check b e ≡ ok u → b ≡ true
check-eq-ok true e h = refl
check-eq-ok false e h = cc

pub require-eq-ok : (b : Bool) {u : Unit {0}} → require b ≡ ok u → b ≡ true
require-eq-ok true h = refl
require-eq-ok false h = cc

pub >>=-eq-panic :
    {A B : Type 0} (m : Outcome A) (f : A → Outcome B)
    → (m >>= f) ≡ panic
    → (m ≡ panic) ⊎ ((a : A) × (m ≡ ok a) × (f a ≡ panic))
>>=-eq-panic (ok a) f h = inr (a, refl, h)
>>=-eq-panic (err e) f h = cc
>>=-eq-panic panic f h = inl refl

pub ok_or-panic : {A : Type 0} (o : Option A) (e : Error) → ok_or o e ≢ panic
ok_or-panic none e h = cc
ok_or-panic (some a) e h = cc

pub check-panic : (b : Bool) (e : Error) → check b e ≢ panic
check-panic true e h = cc
check-panic false e h = cc
