-- ===== src/Prelude/Maps.antt =====
-- `HashMap`: an association list in which the first entry of a key counts. The order of the entries
-- stands for the unspecified order of iteration.
use mathlib.Core.Path.{◌≡◌, refl, sym, ◌∙◌}
use mathlib.Core.Logic.{◌⊎◌, inl, inr}
use mathlib.Core.Bool.{Bool, true, false}
use mathlib.Core.Option.{Option, none, some}
use mathlib.Core.List.{List, [], ◌∷◌, ◌++◌}
use native.Mathlib.Omega.{arith}
use bastionlab.Prelude.Tests.{if◌then◌else◌}
use bastionlab.Prelude.Equality.{PartialEq, ◌==◌}

abbrev pub HashMap {ℓ κ} : Type ℓ → Type κ → Type (ℓ ⊔ κ)
HashMap K V = List (K × V)

module _ {ℓ κ} {K : Type ℓ} {V : Type κ} ⦃e : PartialEq K⦄ where
  unfoldable pub lookup : K → HashMap K V → Option V
  lookup key [] = none
  lookup key ((other, value) ∷ rest) = if other == key then some value else lookup key rest

  unfoldable pub insert : K → V → HashMap K V → HashMap K V
  insert key value [] = (key, value) ∷ []
  insert key value ((other, old) ∷ rest) =
      let later = insert key value rest in
      if other == key then (key, value) ∷ rest else (other, old) ∷ later

  unfoldable pub erase : K → HashMap K V → HashMap K V
  erase k [] = []
  erase k ((j, w) ∷ m) = let rest = erase k m in if j == k then rest else (j, w) ∷ rest

  pub lookup-nil : (k : K) → lookup k [] ≡ none
  unfolding lookup
  lookup-nil k = refl

  pub lookup-insert :
      (k j : K) (v : V) (m : HashMap K V)
      → lookup j (insert k v m) ≡ (if k == j then some v else lookup j m)
  unfolding lookup insert
  lookup-insert k j v [] = refl
  lookup-insert k j v ((i, old) ∷ rest) =
      ground (lookup-insert k j v rest, e.equals_iff i k, e.equals_iff i j, e.equals_iff k j, arith)

  pub lookup-erase :
      (k j : K) (m : HashMap K V) → lookup j (erase k m) ≡ (if k == j then none else lookup j m)
  unfolding lookup erase
  lookup-erase k j [] = ground arith
  lookup-erase k j ((i, w) ∷ m) =
      ground (arith, e.equals_iff i k, e.equals_iff i j, e.equals_iff k j, lookup-erase k j m)

  -- An entry of the new map is the new one or an old one.
  pub lookup-insert_inv :
      (k j : K) (v : V) (m : HashMap K V) {w : V}
      → lookup j (insert k v m) ≡ some w
      → (v ≡ w) ⊎ (lookup j m ≡ some w)
  lookup-insert_inv k j v m {w} h = by_key (k == j) (sym (lookup-insert k j v m) ∙ h)
    where
      by_key :
          (b : Bool) → (if b then some v else lookup j m) ≡ some w → (v ≡ w) ⊎ (lookup j m ≡ some w)
      by_key true h = inl cc
      by_key false h = inr h

-- `Option::or`
abbrev pub or_else {ℓ} : {A : Type ℓ} → Option A → Option A → Option A
or_else none o = o
or_else (some a) o = some a

pub lookup-append {ℓ κ} :
    {K : Type ℓ} {V : Type κ} ⦃e : PartialEq K⦄ (k : K) (m n : HashMap K V)
    → lookup k (m ++ n) ≡ or_else (lookup k m) (lookup k n)
unfolding lookup
lookup-append k [] n = refl
lookup-append k ((j, v) ∷ m) n = ground (arith, lookup-append k m n)

pub beq_refl {ℓ} : {K : Type ℓ} ⦃e : PartialEq K⦄ (k : K) → (k == k) ≡ true
beq_refl ⦃e⦄ k = (e.equals_iff k k).1 refl

pub ruleset map_laws = (lookup-nil, lookup-insert, lookup-erase, beq_refl)
