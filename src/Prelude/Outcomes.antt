-- ===== src/Prelude/Outcomes.antt =====
-- What a Rust call ends in: a value, an error value (`?` returns it early), or a panic, from
-- `unwrap` on an absent value or from an index out of range.
use mathlib.Core.Path.{◌≡◌, refl, ap}
use mathlib.Core.Bool.{Bool, true, false}
use mathlib.Core.Logic.{◌⊎◌, inl, inr}
use mathlib.Core.Option.{Option, none, some}

pub data Outcome {ℓ κ} (E : Type ℓ) (A : Type κ) : Type (ℓ ⊔ κ) where
  ok : A → Outcome E A
  err : E → Outcome E A
  panic : Outcome E A

infixl 5 ◌>>=◌ ◌>>◌
abbrev pub ◌>>=◌ {ℓ κ μ} :
    {E : Type ℓ} {A : Type κ} {B : Type μ} → Outcome E A → (A → Outcome E B) → Outcome E B
panic >>= next = panic
ok a >>= next = next a
err e >>= next = err e

abbrev pub ◌>>◌ {ℓ κ μ} :
    {E : Type ℓ} {A : Type κ} {B : Type μ} → Outcome E A → Outcome E B → Outcome E B
m >> k = m >>= λ _. k

-- `Option::ok_or`
abbrev pub ok_or {ℓ κ} : {E : Type ℓ} {A : Type κ} → Option A → E → Outcome E A
ok_or none e = err e
ok_or (some a) e = ok a

-- `Option::unwrap`
abbrev pub unwrap {ℓ κ} : {E : Type ℓ} {A : Type κ} → Option A → Outcome E A
unwrap none = panic
unwrap (some a) = ok a

-- An early `return Err(e)` unless the test holds.
abbrev pub ensure {ℓ} : {E : Type ℓ} → Bool → E → Outcome E (Unit {0})
ensure true e = ok tt
ensure false e = err e

abbrev pub map_err {ℓ κ μ} :
    {E : Type ℓ} {F : Type κ} {A : Type μ} → (E → F) → Outcome E A → Outcome F A
map_err f (ok a) = ok a
map_err f (err e) = err (f e)
map_err f panic = panic

-- Inversion of a successful bind, for proofs where the parts stay shut.
pub >>=-eq-ok {ℓ κ μ} :
    {E : Type ℓ} {A : Type κ} {B : Type μ} (first : Outcome E A) (next : A → Outcome E B)
    {result : B}
    → (first >>= next) ≡ ok result
    → (a : A) × (first ≡ ok a) × (next a ≡ ok result)
>>=-eq-ok panic next e = cc
>>=-eq-ok (err x) next e = cc
>>=-eq-ok (ok a) next e = (a, refl, e)

pub ok_injective {ℓ κ} :
    {A : Type ℓ} {E : Type κ} {a b : A} → ◌≡◌ {A = Outcome E A} (ok a) (ok b) → a ≡ b
ok_injective h = cc

-- To split on a computed outcome and keep the equation.
pub Outcome-cases {ℓ κ} :
    {E : Type ℓ} {A : Type κ} (m : Outcome E A)
    → ((a : A) × (m ≡ ok a)) ⊎ (((e : E) × (m ≡ err e)) ⊎ (m ≡ panic))
Outcome-cases (ok a) = inl (a, refl)
Outcome-cases (err e) = inr (inl (e, refl))
Outcome-cases panic = inr (inr refl)

pub ok_or_inv {ℓ κ} :
    {A : Type ℓ} {E : Type κ} (o : Option A) (e : E) {a : A} → ok_or o e ≡ ok a → o ≡ some a
ok_or_inv none e h = cc
ok_or_inv (some x) e h = ap some (ok_injective h)
