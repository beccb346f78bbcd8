-- ===== src/Base/Options.antt =====
-- Chains of results that may be missing.
use mathlib.Core.Path.{◌≡◌, refl}
use mathlib.Core.Bool.{true}
use mathlib.Core.Option.{Option, none, some}
use rokit_locator_qr_addon.Base.Tests.{is_some}

infixl 5 ◌>>=◌
abbrev pub ◌>>=◌ {ℓ κ} : {A : Type ℓ} {B : Type κ} → Option A → (A → Option B) → Option B
none >>= f = none
some a >>= f = f a

pub >>=-some {ℓ} : {A : Type ℓ} (m : Option A) → (m >>= λ a. some a) ≡ m
>>=-some none = refl
>>=-some (some a) = refl

-- A chain that has a result, taken apart.
pub >>=-eq-some {ℓ κ} :
    {A : Type ℓ} {B : Type κ} (m : Option A) (f : A → Option B) {b : B}
    → (m >>= f) ≡ some b
    → (a : A) × (m ≡ some a) × (f a ≡ some b)
>>=-eq-some none f e = cc
>>=-eq-some (some a) f e = (a, refl, e)

pub >>=-is_some {ℓ κ} :
    {A : Type ℓ} {B : Type κ} (m : Option A) (f : A → Option B)
    → is_some m ≡ true
    → ((a : A) → is_some (f a) ≡ true)
    → is_some (m >>= f) ≡ true
>>=-is_some none f h k = cc
>>=-is_some (some a) f h k = k a

pub is_some-some {ℓ} : {A : Type ℓ} (m : Option A) → is_some m ≡ true → (a : A) × (m ≡ some a)
is_some-some none h = absurd (cc)
is_some-some (some a) h = (a, refl)
