-- ===== src/Base/Abort.antt =====
-- Code that may stop at an ASSERT or at an access outside an array: `none` is that stop.
use mathlib.Core.Path.{◌≡◌, refl}
use mathlib.Core.Bool.{Bool, true, false}
use mathlib.Core.Option.{Option, none, some}

infixl 5 ◌>>=◌ ◌>>◌
abbrev pub ◌>>=◌ {ℓ κ} : {A : Type ℓ} {B : Type κ} → Option A → (A → Option B) → Option B
none >>= f = none
some a >>= f = f a

abbrev pub ◌>>◌ {ℓ} : {B : Type ℓ} → Option (Unit {0}) → Option B → Option B
m >> k = m >>= λ _. k

-- `ASSERT(b)`.
abbrev pub assert : Bool → Option (Unit {0})
assert true = some tt
assert false = none

pub >>=-eq-some {ℓ κ} :
    {A : Type ℓ} {B : Type κ} (m : Option A) (f : A → Option B) {b : B}
    → (m >>= f) ≡ some b
    → (a : A) × (m ≡ some a) × (f a ≡ some b)
>>=-eq-some none f h = cc
>>=-eq-some (some a) f h = (a, refl, h)

pub asserts-pass {κ} :
    {B : Type κ} (a b : Bool) (k : Option B) → a ≡ true → b ≡ true → (assert a >> assert b >> k) ≡ k
asserts-pass true true k h g = refl
asserts-pass true false k h g = cc
asserts-pass false b k h g = cc

pub assert-pass {κ} : {B : Type κ} (a : Bool) (k : Option B) → a ≡ true → (assert a >> k) ≡ k
assert-pass true k h = refl
assert-pass false k h = cc
