-- ===== src/Base/Runs.antt =====
-- What a run of C code comes to.
use mathlib.Core.Path.{◌≡◌, refl}
use mathlib.Core.Option.{Option, none, some}

-- `fault` is a read through a null pointer, `exit` a call of exit, and `loops` a recursion deeper
-- than the fuel that the model gives it.
pub data Run {ℓ} (A : Type ℓ) : Type ℓ where
  done : A → Run A
  fault : Run A
  exit : Run A
  loops : Run A

infixl 5 ◌>>=◌ ◌>>◌
abbrev pub ◌>>=◌ {ℓ κ} : {A : Type ℓ} {B : Type κ} → Run A → (A → Run B) → Run B
done a >>= f = f a
fault >>= f = fault
exit >>= f = exit
loops >>= f = loops

abbrev pub ◌>>◌ {ℓ} : {B : Type ℓ} → Run (Unit {0}) → Run B → Run B
m >> k = m >>= λ _. k

-- The use of a pointer that may be null.
abbrev pub use_ptr {ℓ} : {A : Type ℓ} → Option A → Run A
use_ptr none = fault
use_ptr (some a) = done a

-- The run ends, and with a value of which `P` holds.
abbrev pub Returns {ℓ} : {A : Type ℓ} → (A → Type 0) → Run A → Type 0
Returns P (done a) = P a
Returns P fault = ⊥
Returns P exit = ⊥
Returns P loops = ⊥

-- The run ends, and if with a value then with one of which `P` holds.
abbrev pub Ends {ℓ} : {A : Type ℓ} → (A → Type 0) → Run A → Type 0
Ends P (done a) = P a
Ends P fault = Unit
Ends P exit = Unit
Ends P loops = ⊥

-- If the run ends with a value, `P` holds of it.
abbrev pub Gives {ℓ} : {A : Type ℓ} → (A → Type 0) → Run A → Type 0
Gives P (done a) = P a
Gives P fault = Unit
Gives P exit = Unit
Gives P loops = Unit

pub Returns-bind {ℓ κ} :
    {A : Type ℓ} {B : Type κ} (P : A → Type 0) (Q : B → Type 0) (m : Run A) (f : A → Run B)
    → Returns P m
    → ((a : A) → P a → Returns Q (f a))
    → Returns Q (m >>= f)
Returns-bind P Q (done a) f h k = k a h
Returns-bind P Q fault f h k = absurd h
Returns-bind P Q exit f h k = absurd h
Returns-bind P Q loops f h k = absurd h

pub Ends-bind {ℓ κ} :
    {A : Type ℓ} {B : Type κ} (P : A → Type 0) (Q : B → Type 0) (m : Run A) (f : A → Run B)
    → Ends P m
    → ((a : A) → P a → Ends Q (f a))
    → Ends Q (m >>= f)
Ends-bind P Q (done a) f h k = k a h
Ends-bind P Q fault f h k = tt
Ends-bind P Q exit f h k = tt
Ends-bind P Q loops f h k = absurd h

pub Returns-eq {ℓ} :
    {A : Type ℓ} (P : A → Type 0) (m : Run A) → Returns P m → (a : A) × (m ≡ done a) × P a
Returns-eq P (done a) h = (a, refl, h)
Returns-eq P fault h = absurd h
Returns-eq P exit h = absurd h
Returns-eq P loops h = absurd h

pub Returns-weaken {ℓ} :
    {A : Type ℓ} (P : A → Type 0) (Q : A → Type 0) (m : Run A)
    → Returns P m
    → ((a : A) → P a → Q a)
    → Returns Q m
Returns-weaken P Q (done a) h k = k a h
Returns-weaken P Q fault h k = absurd h
Returns-weaken P Q exit h k = absurd h
Returns-weaken P Q loops h k = absurd h

pub Returns→Ends {ℓ} : {A : Type ℓ} (P : A → Type 0) (m : Run A) → Returns P m → Ends P m
Returns→Ends P (done a) h = h
Returns→Ends P fault h = absurd h
Returns→Ends P exit h = absurd h
Returns→Ends P loops h = absurd h

-- A run that ends keeps what it gives.
pub Gives→Returns {ℓ} :
    {A : Type ℓ} (P : A → Type 0) (m : Run A) → Gives P m → Returns (λ a. Unit {0}) m → Returns P m
Gives→Returns P (done a) g h = g
Gives→Returns P fault g h = absurd h
Gives→Returns P exit g h = absurd h
Gives→Returns P loops g h = absurd h

pub Gives-bind {ℓ κ} :
    {A : Type ℓ} {B : Type κ} (P : A → Type 0) (Q : B → Type 0) (m : Run A) (f : A → Run B)
    → Gives P m
    → ((a : A) → P a → Gives Q (f a))
    → Gives Q (m >>= f)
Gives-bind P Q (done a) f h k = k a h
Gives-bind P Q fault f h k = tt
Gives-bind P Q exit f h k = tt
Gives-bind P Q loops f h k = tt

pub Returns→Gives {ℓ} : {A : Type ℓ} (P : A → Type 0) (m : Run A) → Returns P m → Gives P m
Returns→Gives P (done a) h = h
Returns→Gives P fault h = absurd h
Returns→Gives P exit h = absurd h
Returns→Gives P loops h = absurd h

pub Gives-weaken {ℓ} :
    {A : Type ℓ} (P Q : A → Type 0) (m : Run A) → Gives P m → ((a : A) → P a → Q a) → Gives Q m
Gives-weaken P Q (done a) h k = k a h
Gives-weaken P Q fault h k = tt
Gives-weaken P Q exit h k = tt
Gives-weaken P Q loops h k = tt

pub Ends-weaken {ℓ} :
    {A : Type ℓ} (P Q : A → Type 0) (m : Run A) → Ends P m → ((a : A) → P a → Q a) → Ends Q m
Ends-weaken P Q (done a) h k = k a h
Ends-weaken P Q fault h k = tt
Ends-weaken P Q exit h k = tt
Ends-weaken P Q loops h k = absurd h
