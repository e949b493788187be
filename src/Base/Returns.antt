-- ===== src/Base/Returns.antt =====
-- Code that may call through a null pointer, which is `none`.
use mathlib.Core.Option.{Option, none, some}

infixl 5 ◌>>=◌
abbrev pub ◌>>=◌ {ℓ κ} : {A : Type ℓ} {B : Type κ} → Option A → (A → Option B) → Option B
none >>= f = none
some a >>= f = f a

-- The code returns a value, and the value has the property.
unfoldable pub Returns {ℓ} : {A : Type ℓ} → Option A → (A → Type 0) → Type 0
Returns none P = ⊥
Returns (some a) P = P a

pub Returns-bind {ℓ κ} :
    {A : Type ℓ} {B : Type κ} (P : A → Type 0) (Q : B → Type 0) (o : Option A) (f : A → Option B)
    → Returns o P
    → ((a : A) → P a → Returns (f a) Q)
    → Returns (o >>= f) Q
unfolding Returns
Returns-bind P Q none f h next = h
Returns-bind P Q (some a) f h next = next a h

pub Returns-weaken {ℓ} :
    {A : Type ℓ} (P Q : A → Type 0) (o : Option A)
    → Returns o P
    → ((a : A) → P a → Q a)
    → Returns o Q
unfolding Returns
Returns-weaken P Q none h next = h
Returns-weaken P Q (some a) h next = next a h

pub Returns-both {ℓ} :
    {A : Type ℓ} (P Q : A → Type 0) (o : Option A)
    → Returns o P
    → Returns o Q
    → Returns o (λ a. P a × Q a)
unfolding Returns
Returns-both P Q none h g = h
Returns-both P Q (some a) h g = (h, g)
