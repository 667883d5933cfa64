-- ===== src/Base/Maybe.antt =====
-- The chain of fallible steps: `none` is a failed assertion or an exit of the process.

use mathlib.Core.Bool.{Bool, true, false}
use mathlib.Core.Path.{◌≡◌, refl}
use mathlib.Core.Logic.{◌⊎◌, inl, inr}
use mathlib.Core.Option.{Option, none, some}

-- `assert(b)`.
abbrev pub assert {ℓ} : {A : Type ℓ} → Bool → Option A → Option A
assert true k = k
assert false k = none

infixl 5 ◌>>=◌
unfoldable pub ◌>>=◌ {ℓ ℓ'} : {A : Type ℓ} {B : Type ℓ'} → Option A → (A → Option B) → Option B
none >>= f = none
some a >>= f = f a

pub Option-cases {ℓ} : {A : Type ℓ} (o : Option A) → (o ≡ none) ⊎ ((a : A) × (o ≡ some a))
Option-cases none = inl refl
Option-cases (some a) = inr (a, refl)

-- A chain that returns has returned at its first step.
pub bind-some {ℓ ℓ'} :
    {A : Type ℓ} {B : Type ℓ'} (m : Option A) (f : A → Option B) (b : B)
    → (m >>= f) ≡ some b
    → (a : A) × (m ≡ some a) × (f a ≡ some b)
unfolding ◌>>=◌
bind-some none f b h = cc
bind-some (some a) f b h = (a, refl, h)

pub assert-some {ℓ} :
    {A : Type ℓ} (t : Bool) (k : Option A) (a : A) → assert t k ≡ some a → (t ≡ true) × (k ≡ some a)
assert-some true k a h = (refl, h)
assert-some false k a h = cc
