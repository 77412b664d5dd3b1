-- ===== src/Prelude/Faults.antt =====
-- How a piece of kernel code ends. `panicked` is a call of panic() or a failed assert(), which
-- stops the machine (sys.c, include/assert.h). `undefined` is what C leaves undefined: an access
-- outside an array, `__builtin_clz(0)`, a negative index.
use mathlib.Core.Path.{◌≡◌, refl}
use mathlib.Core.Bool.{Bool, true, false}
use mathlib.Core.Option.{Option, none, some}

pub data Outcome {ℓ} (A : Type ℓ) : Type ℓ where
  ok : A → Outcome A
  panicked : Outcome A
  undefined : Outcome A

infixl 5 ◌>>=◌ ◌>>◌
abbrev pub ◌>>=◌ {ℓ κ} : {A : Type ℓ} {B : Type κ} → Outcome A → (A → Outcome B) → Outcome B
ok a >>= f = f a
panicked >>= f = panicked
undefined >>= f = undefined

pub >>=-assoc {ℓ κ μ} :
    {A : Type ℓ} {B : Type κ} {C : Type μ} (m : Outcome A) (f : A → Outcome B) (g : B → Outcome C)
    → ((m >>= f) >>= g) ≡ (m >>= λ a. f a >>= g)
>>=-assoc (ok a) f g = refl
>>=-assoc panicked f g = refl
>>=-assoc undefined f g = refl

-- A bind that returns: its first part does, and what follows from there.
pub >>=-returns {ℓ κ} :
    {A : Type ℓ} {B : Type κ} (m : Outcome A) (f : A → Outcome B) {b : B}
    → (m >>= f) ≡ ok b
    → (a : A) × (m ≡ ok a) × (f a ≡ ok b)
>>=-returns (ok a) f e = (a, refl, e)
>>=-returns panicked f e = cc
>>=-returns undefined f e = cc

abbrev pub ◌>>◌ {ℓ} : {B : Type ℓ} → Outcome (Unit {0}) → Outcome B → Outcome B
m >> k = m >>= λ _. k

-- assert(): the kernel stops unless the test holds.
abbrev pub assert : Bool → Outcome (Unit {0})
assert true = ok tt
assert false = panicked

-- An access that the test says is inside its array.
abbrev pub defined : Bool → Outcome (Unit {0})
defined true = ok tt
defined false = undefined

-- A read of an array, undefined out of range.
abbrev pub read {ℓ} : {A : Type ℓ} → Option A → Outcome A
read none = undefined
read (some a) = ok a
