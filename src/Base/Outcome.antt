-- ===== src/Base/Outcome.antt =====
-- What a Python call comes to: a value, or an exception that leaves the function.
use mathlib.Core.Path.{◌≡◌, refl}
use mathlib.Core.Bool.{Bool, true, false}
use mathlib.Core.Option.{Option, none, some}

pub data Outcome {ℓ κ} (E : Type κ) (A : Type ℓ) : Type (ℓ ⊔ κ) where
  done : A → Outcome E A
  raised : E → Outcome E A

infixl 5 ◌>>=◌ ◌>>◌
abbrev pub ◌>>=◌ {ℓ κ μ} :
    {E : Type κ} {A : Type ℓ} {B : Type μ} → Outcome E A → (A → Outcome E B) → Outcome E B
done a >>= f = f a
raised e >>= f = raised e

abbrev pub ◌>>◌ {ℓ κ μ} :
    {E : Type κ} {A : Type ℓ} {B : Type μ} → Outcome E A → Outcome E B → Outcome E B
m >> n = m >>= λ _. n

-- `if not test: raise e`
abbrev pub require {κ} : {E : Type κ} → Bool → E → Outcome E (Unit {0})
require true e = done tt
require false e = raised e

-- `if value is None: raise e`
abbrev pub present {ℓ κ} : {E : Type κ} {A : Type ℓ} → Option A → E → Outcome E A
present none e = raised e
present (some a) e = done a

-- A bind that returned ran its first part to a value.
pub bind-eq-done {ℓ κ μ} :
    {E : Type κ} {A : Type ℓ} {B : Type μ} (m : Outcome E A) (f : A → Outcome E B) {b : B}
    → (m >>= f) ≡ done b
    → (a : A) × (m ≡ done a) × (f a ≡ done b)
bind-eq-done (done a) f h = (a, refl, h)
bind-eq-done (raised e) f h = cc

pub require-eq-done {κ} :
    {E : Type κ} (b : Bool) (e : E) {u : Unit {0}} → require b e ≡ done u → b ≡ true
require-eq-done true e h = refl
require-eq-done false e h = cc

pub present-eq-done {ℓ κ} :
    {E : Type κ} {A : Type ℓ} (o : Option A) (e : E) {a : A} → present o e ≡ done a → o ≡ some a
present-eq-done none e h = cc
present-eq-done (some a) e h = cc

-- What follows a statement that returned.
pub then-eq-done {ℓ κ μ} :
    {E : Type κ} {A : Type ℓ} {B : Type μ} (m : Outcome E A) {n : Outcome E B} {b : B}
    → (m >> n) ≡ done b
    → n ≡ done b
then-eq-done (done a) h = h
then-eq-done (raised e) h = cc

-- The state of a pair that is returned.
pub state-eq {ℓ κ μ} :
    {E : Type κ} {A : Type ℓ} {B : Type μ} {x y : A} {a b : B}
    → ◌≡◌ {A = Outcome E (A × B)} (done (x, a)) (done (y, b))
    → a ≡ b
state-eq h = cc

pub done-eq {ℓ κ} :
    {E : Type κ} {A : Type ℓ} {a b : A} → ◌≡◌ {A = Outcome E A} (done a) (done b) → a ≡ b
done-eq h = cc
