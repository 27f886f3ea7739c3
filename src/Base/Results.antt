-- ===== src/Base/Results.antt =====
-- Results: the value of a computation that may fail, or its error; `?` is the chain.
use mathlib.Core.Path.{◌≡◌, refl}
use mathlib.Core.Option.{Option, none, some}

pub data ResultOf {ℓ} (E : Type 0) (T : Type ℓ) : Type ℓ where
  ok : T → ResultOf E T
  err : E → ResultOf E T

infixl 5 ◌>>=◌ ◌>>◌
-- The `?` operator: the continuation runs on a value, an error is returned at once.
abbrev pub ◌>>=◌ {ℓ κ} :
    {E : Type 0} {T : Type ℓ} {U : Type κ} → ResultOf E T → (T → ResultOf E U) → ResultOf E U
err error >>= next = err error
ok value >>= next = next value

abbrev pub ◌>>◌ {κ} :
    {E : Type 0} {U : Type κ} → ResultOf E (Unit {0}) → ResultOf E U → ResultOf E U
checked >> next = checked >>= λ done. next

-- `Option::ok_or`.
abbrev pub ok_or {ℓ} : {E : Type 0} {T : Type ℓ} → E → Option T → ResultOf E T
ok_or e none = err e
ok_or e (some a) = ok a

-- A chain that succeeds has a first step that succeeds.
pub >>=-eq-ok {ℓ κ} :
    {E : Type 0} {T : Type ℓ} {U : Type κ} (step : ResultOf E T) (next : T → ResultOf E U)
    {result : U}
    → (step >>= next) ≡ ok result
    → (value : T) × (step ≡ ok value) × (next value ≡ ok result)
>>=-eq-ok (err error) next chain = cc
>>=-eq-ok (ok value) next chain = (value, refl, chain)

pub ok_injective {ℓ} :
    {E : Type 0} {T : Type ℓ} (a b : T) → ◌≡◌ {A = ResultOf E T} (ok a) (ok b) → a ≡ b
ok_injective a b h = cc

pub >>=-assoc {ℓ κ μ} :
    {E : Type 0} {A : Type ℓ} {B : Type κ} {C : Type μ} (m : ResultOf E A) (f : A → ResultOf E B)
    (g : B → ResultOf E C)
    → ((m >>= f) >>= g) ≡ (m >>= λ a. f a >>= g)
>>=-assoc (ok a) f g = refl
>>=-assoc (err e) f g = refl

pub >>=-congr {ℓ κ} :
    {E : Type 0} {A : Type ℓ} {B : Type κ} (m : ResultOf E A) (f g : A → ResultOf E B)
    → ((a : A) → f a ≡ g a)
    → (m >>= f) ≡ (m >>= g)
>>=-congr (ok a) f g h = h a
>>=-congr (err e) f g h = refl
