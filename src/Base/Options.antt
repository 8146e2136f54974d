-- ===== src/Base/Options.antt =====
-- Chains of steps that may fail, and what holds of their results.
use mathlib.Core.Option.{Option, none, some}

infixl 5 ◌>>=◌
abbrev pub ◌>>=◌ {ℓ κ} : {A : Type ℓ} {B : Type κ} → Option A → (A → Option B) → Option B
none >>= f = none
some a >>= f = f a

-- What an option holds, if it holds anything.
abbrev pub Holds {ℓ κ} : {A : Type ℓ} → (A → Type κ) → Option A → Type κ
Holds P none = Unit
Holds P (some a) = P a

pub >>=-Holds {ℓ κ μ ν} :
    {A : Type ℓ} {B : Type κ} (P : A → Type μ) (Q : B → Type ν) (o : Option A) (f : A → Option B)
    → Holds P o
    → ((a : A) → P a → Holds Q (f a))
    → Holds Q (o >>= f)
>>=-Holds P Q none f h k = tt
>>=-Holds P Q (some a) f h k = k a h

pub Holds-Unit {ℓ} : {A : Type ℓ} (o : Option A) → Holds (λ (a : A). Unit {0}) o
Holds-Unit none = tt
Holds-Unit (some a) = tt
