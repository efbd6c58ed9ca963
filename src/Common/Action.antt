-- ===== src/Common/Action.antt =====
-- Calls that change a shared state and may fail, a service's with a `Status`. What was written before an error stays written, so
-- the state comes back beside every outcome.
use bastionlab.Prelude.{
  ◌≡◌, refl, ◌⊎◌, inl, inr, Outcome, ok, err, panic, nat_eq, string_eq, list_eq,
}
use bastionlab.Common.Status.{Status}

abbrev pub Call {ℓ κ} : Type 0 → Type ℓ → Type κ → Type (ℓ ⊔ κ)
Call E S A = S → Outcome E A × S

abbrev pub Action {ℓ κ} : Type ℓ → Type κ → Type (ℓ ⊔ κ)
Action S A = Call Status S A

module _ {ℓ κ} {E : Type 0} {S : Type ℓ} {A : Type κ} where
  abbrev pub pure : A → Call E S A
  pure a s = (ok a, s)

  abbrev pub raise : E → Call E S A
  raise e s = (err e, s)

  abbrev pub lift : Outcome E A → Call E S A
  lift r s = (r, s)

  abbrev pub gets : (S → A) → Call E S A
  gets f s = (ok (f s), s)

abbrev pub modify {ℓ} : {E : Type 0} {S : Type ℓ} → (S → S) → Call E S (Unit {0})
modify f s = (ok tt, f s)

abbrev pub continue {ℓ κ μ} :
    {E : Type 0} {S : Type ℓ} {A : Type κ} {B : Type μ}
    → Outcome E A
    → (A → Call E S B)
    → Call E S B
continue (ok a) f s = f a s
continue (err e) f s = (err e, s)
continue panic f s = (panic, s)

infixl 5 ◌>>=◌ ◌>>◌
abbrev pub ◌>>=◌ {ℓ κ μ} :
    {E : Type 0} {S : Type ℓ} {A : Type κ} {B : Type μ} → Call E S A → (A → Call E S B) → Call E S B
◌>>=◌ m f s = let (r, s') = m s in continue r f s'

abbrev pub ◌>>◌ {ℓ κ μ} :
    {E : Type 0} {S : Type ℓ} {A : Type κ} {B : Type μ} → Call E S A → Call E S B → Call E S B
m >> k = m >>= λ _. k

-- Inversion of a call that succeeded.
pub >>=-eq-ok {ℓ κ μ} :
    {E : Type 0} {S : Type ℓ} {A : Type κ} {B : Type μ} (m : Call E S A) (f : A → Call E S B)
    (s : S) {b : B} {s'' : S}
    → (m >>= f) s ≡ (ok b, s'')
    → (a : A) × (s' : S) × (m s ≡ (ok a, s')) × (f a s' ≡ (ok b, s''))
>>=-eq-ok {E} {S} {A} {B} m f s {b} {s''} h = let (r, s') = m s in by_outcome r s' refl h
  where
    by_outcome :
        (r : Outcome E A) (s' : S)
        → m s ≡ (r, s')
        → continue r f s' ≡ (ok b, s'')
        → (a : A) × (t : S) × (m s ≡ (ok a, t)) × (f a t ≡ (ok b, s''))
    by_outcome (ok a) s' e h = (a, s', e, h)
    by_outcome (err x) s' e h = cc
    by_outcome panic s' e h = cc

-- What a call leaves, whether it succeeded or not.
pub >>=-keeps {ℓ κ μ ν} :
    {E : Type 0} {S : Type ℓ} {A : Type κ} {B : Type μ} (P : S → Type ν) (m : Call E S A)
    (f : A → Call E S B) (s : S)
    → P (m s).1
    → ((a : A) → (m s).0 ≡ ok a → P (f a (m s).1).1)
    → P ((m >>= f) s).1
>>=-keeps {E} {S} {A} {B} P m f s kept next = let (r, s') = m s in by_result r s' kept next
  where
    by_result :
        (r : Outcome E A) (s' : S)
        → P s'
        → ((a : A) → r ≡ ok a → P (f a s').1)
        → P (continue r f s').1
    by_result (ok a) s' kept next = next a refl
    by_result (err e) s' kept next = kept
    by_result panic s' kept next = kept

-- Where a panic comes from.
pub >>=-panics {ℓ κ μ} :
    {E : Type 0} {S : Type ℓ} {A : Type κ} {B : Type μ} (m : Call E S A) (f : A → Call E S B)
    (s : S)
    → ((m >>= f) s).0 ≡ panic
    → ((m s).0 ≡ panic) ⊎ ((a : A) × ((m s).0 ≡ ok a) × ((f a (m s).1).0 ≡ panic))
>>=-panics {E} {S} {A} {B} m f s h = let (r, s') = m s in by_result r s' h
  where
    by_result :
        (r : Outcome E A) (s' : S)
        → (continue r f s').0 ≡ panic
        → (r ≡ panic) ⊎ ((a : A) × (r ≡ ok a) × ((f a s').0 ≡ panic))
    by_result (ok a) s' h = inr (a, refl, h)
    by_result (err e) s' h = cc
    by_result panic s' h = inl refl
