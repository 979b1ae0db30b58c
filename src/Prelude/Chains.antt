-- ===== src/Prelude/Chains.antt =====
-- What a chain of `Option` steps gives, step by step: a postcondition with a rule for each step.
use mathlib.Core.Path.{◌≡◌, refl, subst}
use mathlib.Core.Bool.{Bool, true, false}
use mathlib.Core.Option.{Option, none, some, some-injective}
use simple_serving.Prelude.Tests.{◌>>=◌, if◌then◌else◌}

-- Whatever value there is has the property.
pub record Gives {ℓ κ} {A : Type ℓ} (P : A → Type κ) (o : Option A) : Type (ℓ ⊔ κ) where
  pub given : (a : A) → o ≡ some a → P a

pub none-Gives {ℓ κ} : {A : Type ℓ} (P : A → Type κ) → Gives P none
none-Gives P = record { given = λ a h. cc }

pub some-Gives {ℓ κ} : {A : Type ℓ} {P : A → Type κ} (a : A) → P a → Gives P (some a)
some-Gives {P = P} a p = record { given = λ b h. subst P (some-injective a b h) p }

pub bind-Gives {ℓ κ ι μ} :
    {A : Type ℓ} {B : Type κ} {Q : A → Type ι} {P : B → Type μ} (m : Option A) {f : A → Option B}
    → Gives Q m
    → ((a : A) → Q a → Gives P (f a))
    → Gives P (m >>= f)
bind-Gives none g k = record { given = λ b h. cc }
bind-Gives (some a) g k = k a (g.given a refl)

-- A step of which nothing has to be known.
pub anything {ℓ} : {A : Type ℓ} (o : Option A) → Gives (λ _. Unit {0}) o
anything o = record { given = λ a h. tt }

-- A step of which its own equation has to be known.
pub itself {ℓ} : {A : Type ℓ} (o : Option A) → Gives (λ a. o ≡ some a) o
itself o = record { given = λ a h. h }

pub if_Gives {ℓ κ} :
    {A : Type ℓ} {P : A → Type κ} (b : Bool) {x y : Option A}
    → (b ≡ true → Gives P x)
    → (b ≡ false → Gives P y)
    → Gives P (if b then x else y)
if_Gives true g h = g refl
if_Gives false g h = h refl

pub Gives-weaker {ℓ κ ι} :
    {A : Type ℓ} {P : A → Type κ} {Q : A → Type ι} {o : Option A}
    → Gives P o
    → ((a : A) → P a → Q a)
    → Gives Q o
Gives-weaker g f = record { given = λ a h. f a (g.given a h) }

-- Two properties of the same value.
pub both_Gives {ℓ κ ι} :
    {A : Type ℓ} {P : A → Type κ} {Q : A → Type ι} {o : Option A}
    → Gives P o
    → Gives Q o
    → Gives (λ a. P a × Q a) o
both_Gives g h = record { given = λ a e. (g.given a e, h.given a e) }
