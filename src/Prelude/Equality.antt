-- ===== src/Prelude/Equality.antt =====
-- `==` of Rust's `PartialEq`, as an instance for each type whose values the code compares.
use Prim.Native.Nat.{ℕ}
use Prim.Native.String.{String}
use mathlib.Core.Path.{◌≡◌, refl, ap}
use mathlib.Core.Logic.{◌↔◌}
use mathlib.Core.Bool.{Bool, true, false, ◌&&◌, ◌||◌}
use mathlib.Core.List.{List, [], ◌∷◌, ◌++◌}
use native.Mathlib.Omega.{arith}
use text.Mathlib.Text.{◌==◌ as text_eq}
use text.Mathlib.TextEquality.{eq_iff as text_eq_iff}
use bastionlab.Prelude.Tests.{eqb, eqb_iff}

pub record PartialEq {ℓ} (A : Type ℓ) : Type ℓ where
  pub equals : A → A → Bool
  pub equals_iff : (a b : A) → (equals a b ≡ true) ↔ (a ≡ b)

infix 50 ◌==◌
abbrev pub ◌==◌ {ℓ} : {A : Type ℓ} ⦃e : PartialEq A⦄ → A → A → Bool
◌==◌ ⦃e⦄ = e.equals

instance abbrev pub string_eq : PartialEq String
string_eq = record { equals = text_eq; equals_iff = text_eq_iff }

instance abbrev pub nat_eq : PartialEq ℕ
nat_eq = record { equals = eqb; equals_iff = eqb_iff }

abbrev pub list_beq {ℓ} : {A : Type ℓ} ⦃e : PartialEq A⦄ → List A → List A → Bool
list_beq [] [] = true
list_beq [] (y ∷ ys) = false
list_beq (x ∷ xs) [] = false
list_beq (x ∷ xs) (y ∷ ys) = (x == y) && list_beq xs ys

pub list_beq_iff {ℓ} :
    {A : Type ℓ} ⦃e : PartialEq A⦄ (xs ys : List A) → (list_beq xs ys ≡ true) ↔ (xs ≡ ys)
list_beq_iff [] [] = ground arith
list_beq_iff [] (y ∷ ys) = ground arith
list_beq_iff (x ∷ xs) [] = ground arith
list_beq_iff ⦃e⦄ (x ∷ xs) (y ∷ ys) = ground (arith, e.equals_iff x y, list_beq_iff xs ys)

-- Byte strings, and `Vec`s of what can be compared.
instance abbrev pub list_eq {ℓ} : {A : Type ℓ} ⦃e : PartialEq A⦄ → PartialEq (List A)
list_eq = record { equals = list_beq; equals_iff = list_beq_iff }

pub ==_iff {ℓ} : {A : Type ℓ} ⦃e : PartialEq A⦄ (a b : A) → ((a == b) ≡ true) ↔ (a ≡ b)
==_iff ⦃e⦄ a b = e.equals_iff a b

-- `slice::contains`
abbrev pub contains {ℓ} : {A : Type ℓ} ⦃e : PartialEq A⦄ → List A → A → Bool
contains [] a = false
contains (x ∷ xs) a = elim (x == a) [ true ↦ true | false ↦ contains xs a ]

pub contains-append {ℓ} :
    {A : Type ℓ} ⦃e : PartialEq A⦄ (xs ys : List A) (a : A)
    → contains (xs ++ ys) a ≡ (contains xs a || contains ys a)
contains-append [] ys a = refl
contains-append (x ∷ xs) ys a = ground (arith, contains-append xs ys a)

-- A pair whose first half is known.
pub paired {ℓ κ} : {A : Type ℓ} {B : Type κ} {p : A × B} {a : A} → p.0 ≡ a → p ≡ (a, p.1)
paired {p = p} e = ap (λ x. (x, p.1)) e
