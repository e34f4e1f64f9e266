-- ===== src/Base/Runs.antt =====
-- How a run of a server function ends.
use mathlib.Core.Path.{◌≡◌, refl}

-- `blocked`: the thread waits for a mutex that nobody releases or for the end of the primary's
-- recovery, or loops for ever. `stopped`: an exception that
-- nobody catches, or a null lock, ends the process; so does what the model leaves out, a negative
-- number in a message.
pub data Outcome {ℓ} (A : Type ℓ) : Type ℓ where
  ok : A → Outcome A
  blocked stopped : Outcome A

infixl 5 ◌>>=◌ ◌>>◌
abbrev pub ◌>>=◌ {ℓ κ} : {A : Type ℓ} {B : Type κ} → Outcome A → (A → Outcome B) → Outcome B
ok a >>= f = f a
blocked >>= f = blocked
stopped >>= f = stopped

abbrev pub ◌>>◌ {ℓ} : {B : Type ℓ} → Outcome (Unit {0}) → Outcome B → Outcome B
m >> k = m >>= λ _. k

-- What holds of every result of the second part holds of the whole.
pub >>=-result {ℓ κ π} :
    {A : Type ℓ} {B : Type κ} (P : B → Type π) (m : Outcome A) (f : A → Outcome B)
    → ((a : A) (b : B) → f a ≡ ok b → P b)
    → (b : B) → (m >>= f) ≡ ok b
    → P b
>>=-result P (ok a) f p b h = p a b h
>>=-result P blocked f p b h = cc
>>=-result P stopped f p b h = cc

pub ok-injective {ℓ} : {A : Type ℓ} {a b : A} → ok a ≡ ok b → a ≡ b
ok-injective h = cc

pub blocked-ne-ok {ℓ κ} : {A : Type ℓ} {B : Type κ} {a : A} → blocked ≡ ok a → B
blocked-ne-ok h = cc

pub bind_eq {ℓ κ} :
    {A : Type ℓ} {B : Type κ} (m : Outcome A) (f g : A → Outcome B)
    → ((a : A) → m ≡ ok a → f a ≡ g a)
    → (m >>= f) ≡ (m >>= g)
bind_eq (ok a) f g h = h a refl
bind_eq blocked f g h = refl
bind_eq stopped f g h = refl

pub bind_assoc {ℓ κ π} :
    {A : Type ℓ} {B : Type κ} {C : Type π} (m : Outcome A) (f : A → Outcome B) (g : B → Outcome C)
    → ((m >>= f) >>= g) ≡ (m >>= λ a. f a >>= g)
bind_assoc (ok a) f g = refl
bind_assoc blocked f g = refl
bind_assoc stopped f g = refl

-- A run of two parts that ends, at the place between them.
pub bind_inverse {ℓ κ} :
    {A : Type ℓ} {B : Type κ} (m : Outcome A) (f : A → Outcome B) (b : B)
    → (m >>= f) ≡ ok b
    → (a : A) × (m ≡ ok a) × (f a ≡ ok b)
bind_inverse (ok a) f b h = (a, refl, h)
bind_inverse blocked f b h = cc
bind_inverse stopped f b h = cc
