-- ===== src/Common/Outcome.antt =====
-- How a call ends: with a value, with a Go panic, or blocked for ever on a full channel.
use mathlib.Core.Path.{◌≡◌, refl}
use mathlib.Core.Logic.{◌⊎◌, inl, inr}

pub data Outcome {ℓ} (A : Type ℓ) : Type ℓ where
  done : A → Outcome A
  panics : Outcome A
  blocked : Outcome A

infixl 5 ◌>>=◌
abbrev pub ◌>>=◌ {ℓ κ} : {A : Type ℓ} {B : Type κ} → Outcome A → (A → Outcome B) → Outcome B
done a >>= f = f a
panics >>= f = panics
blocked >>= f = blocked

pub Outcome-cases {ℓ} :
    {A : Type ℓ} (out : Outcome A) → ((a : A) × (out ≡ done a)) ⊎ ((out ≡ panics) ⊎ (out ≡ blocked))
Outcome-cases (done a) = inl (a, refl)
Outcome-cases panics = inr (inl refl)
Outcome-cases blocked = inr (inr refl)

-- The call does not panic; what it returns satisfies the predicate.
abbrev pub Safe {ℓ} : {A : Type ℓ} → (A → Type 0) → Outcome A → Type 0
Safe P (done a) = P a
Safe P panics = ⊥
Safe P blocked = Unit {0}

pub Safe-bind {ℓ κ} :
    {A : Type ℓ} {B : Type κ} (P : A → Type 0) (Q : B → Type 0) (out : Outcome A)
    (f : A → Outcome B)
    → Safe P out
    → ((a : A) → P a → Safe Q (f a))
    → Safe Q (out >>= f)
Safe-bind P Q (done a) f p g = g a p
Safe-bind P Q panics f p g = absurd p
Safe-bind P Q blocked f p g = tt

-- The call comes to its end: it neither panics nor blocks.
abbrev pub Returns {ℓ} : {A : Type ℓ} → Outcome A → Type 0
Returns (done a) = Unit {0}
Returns panics = ⊥
Returns blocked = ⊥

pub Returns-bind {ℓ κ} :
    {A : Type ℓ} {B : Type κ} (out : Outcome A) (f : A → Outcome B)
    → Returns out
    → ((a : A) → Returns (f a))
    → Returns (out >>= f)
Returns-bind (done a) f r g = g a
Returns-bind panics f r g = absurd r
Returns-bind blocked f r g = absurd r

pub Returns-Safe {ℓ} : {A : Type ℓ} (out : Outcome A) → Returns out → Safe (λ a. Unit {0}) out
Returns-Safe (done a) r = tt
Returns-Safe panics r = absurd r
Returns-Safe blocked r = tt

-- What the call returns, if it returns, satisfies the predicate.
abbrev pub Ensures {ℓ} : {A : Type ℓ} → (A → Type 0) → Outcome A → Type 0
Ensures P (done a) = P a
Ensures P panics = Unit {0}
Ensures P blocked = Unit {0}

pub Ensures-bind {ℓ κ} :
    {A : Type ℓ} {B : Type κ} (Q : B → Type 0) (out : Outcome A) (f : A → Outcome B)
    → ((a : A) → out ≡ done a → Ensures Q (f a))
    → Ensures Q (out >>= f)
Ensures-bind Q (done a) f g = g a refl
Ensures-bind Q panics f g = tt
Ensures-bind Q blocked f g = tt

pub Ensures-then {ℓ κ} :
    {A : Type ℓ} {B : Type κ} (P : A → Type 0) (Q : B → Type 0) (out : Outcome A)
    (f : A → Outcome B)
    → Ensures P out
    → ((a : A) → P a → Ensures Q (f a))
    → Ensures Q (out >>= f)
Ensures-then P Q (done a) f p g = g a p
Ensures-then P Q panics f p g = tt
Ensures-then P Q blocked f p g = tt

-- What a call that does not panic ensures.
pub Safe-Ensures {ℓ} :
    {A : Type ℓ} (P Q R : A → Type 0) (out : Outcome A)
    → ((a : A) → P a → Q a → R a)
    → Safe P out
    → Ensures Q out
    → Safe R out
Safe-Ensures P Q R (done a) f p q = f a p q
Safe-Ensures P Q R panics f p q = p
Safe-Ensures P Q R blocked f p q = tt

-- A bind whose last step always returns.
pub Ensures-last {ℓ κ} :
    {A : Type ℓ} {B : Type κ} (Q : B → Type 0) (out : Outcome A) (f : A → B)
    → ((a : A) → out ≡ done a → Q (f a))
    → Ensures Q (out >>= λ a. done (f a))
Ensures-last Q (done a) f g = g a refl
Ensures-last Q panics f g = tt
Ensures-last Q blocked f g = tt

pub Ensures-all {ℓ} :
    {A : Type ℓ} (P : A → Type 0) (out : Outcome A) → ((a : A) → P a) → Ensures P out
Ensures-all P (done a) f = f a
Ensures-all P panics f = tt
Ensures-all P blocked f = tt

pub Ensures-map {ℓ} :
    {A : Type ℓ} (P Q : A → Type 0) (out : Outcome A)
    → ((a : A) → P a → Q a)
    → Ensures P out
    → Ensures Q out
Ensures-map P Q (done a) f p = f a p
Ensures-map P Q panics f p = tt
Ensures-map P Q blocked f p = tt
