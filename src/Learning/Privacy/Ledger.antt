-- ===== src/Learning/Privacy/Ledger.antt =====
-- An audit of the calls that read guarded values: each context against the list of what was granted.
use bastionlab.Prelude.{
  ℕ, ◌≡◌, Bool, true, false, List, [], ◌∷◌, eqb, if◌then◌else◌, Outcome, ok, err, panic, nat_eq,
  string_eq, list_eq,
}
use bastionlab.Learning.Numbers.{Floats, Tensors}
use bastionlab.Learning.Privacy.{PrivacyBudget, not_private, private_, PrivacyContext}
use bastionlab.Learning.Privacy.Guards.{PrivacyGuard, World, write, spend_private, get_private}

-- A client's request for a guarded value.
pub data Query (F T : Type 0) : Type 0 where
  of_tensor : PrivacyGuard F T → Query F T
  of_marker : PrivacyGuard F (Unit {0}) → Query F T

abbrev pub context_asked : {F T : Type 0} → Query F T → ℕ
context_asked (of_tensor g) = g.context
context_asked (of_marker g) = g.context

abbrev pub is_ok {ℓ κ} : {E : Type ℓ} {A : Type κ} → Outcome E A → Bool
is_ok (ok a) = true
is_ok (err e) = false
is_ok panic = false

module _ {F D : Type 0} (number : Floats F D) where
  -- When a ledger with a limit, on which something was spent, accepts a budget: a private one must
  -- keep the sum below a private limit, and nothing private is accepted there after a read without
  -- privacy.
  abbrev pub Fits : PrivacyBudget F → PrivacyBudget F → PrivacyBudget F → Type 0
  Fits limit spent not_private = Unit {0}
  Fits not_private spent (private_ eps) = Unit {0}
  Fits (private_ l) not_private (private_ eps) = ⊥
  Fits (private_ l) (private_ e) (private_ eps) = number.lt (number.add eps e) l ≡ true

  abbrev pub Allows : PrivacyContext F → PrivacyBudget F → Type 0
  Allows c b = Fits c.limit c.expended b

  -- What is spent in all: a sum, or without privacy as soon as one budget is.
  abbrev pub sum_of : PrivacyBudget F → PrivacyBudget F → PrivacyBudget F
  sum_of not_private b = not_private
  sum_of (private_ e) not_private = not_private
  sum_of (private_ e) (private_ eps) = private_ (number.add e eps)

  abbrev pub charged : PrivacyContext F → PrivacyBudget F → PrivacyContext F
  charged c b = record c { expended = sum_of c.expended b }

  -- The ledger as an abstract machine: a list of postings takes one context to another.
  pub data Posts : PrivacyContext F → List (PrivacyBudget F) → PrivacyContext F → Type 0 where
    balanced : {c : PrivacyContext F} → Posts c [] c
    post :
        {c c' : PrivacyContext F} {b : PrivacyBudget F} {bs : List (PrivacyBudget F)}
        → Allows c b
        → Posts (charged c b) bs c'
        → Posts c (b ∷ bs) c'

abbrev pub granted_to : {F : Type 0} → ℕ → List (ℕ × PrivacyBudget F) → List (PrivacyBudget F)
granted_to a [] = []
granted_to a ((address, budget) ∷ log) =
    if eqb address a then budget ∷ granted_to a log else granted_to a log

module _ {F D T R V C U : Type 0} (number : Floats F D) (tensor : Tensors T D R V C U) where
  unfoldable pub ask : Query F T → PrivacyBudget F → World F R → Bool × World F R
  ask (of_tensor g) budget w = let (r, w') = get_private number tensor g budget w in (is_ok r, w')
  ask (of_marker g) budget w = let (r, w') = spend_private number g budget w in (is_ok r, w')

  -- Requests one after another, with the log of those that were granted.
  unfoldable pub audit :
      List (Query F T × PrivacyBudget F) → World F R → List (ℕ × PrivacyBudget F) × World F R
  audit [] w = ([], w)
  audit ((query, budget) ∷ requests) w =
      let (is_granted, w') = ask query budget w in
      let (log, w'') = audit requests w' in
      (if is_granted then (context_asked query, budget) ∷ log else log, w'')

  -- What one request does to the contexts.
  pub data Effect (q : Query F T) (b : PrivacyBudget F) (w w' : World F R) : Bool → Type 0 where
    grants :
        Allows number (w.contexts (context_asked q)) b
        → w'.contexts
          ≡ write w.contexts (context_asked q) (charged number (w.contexts (context_asked q)) b)
        → Effect q b w w' true
    refuses : w'.contexts ≡ w.contexts → Effect q b w w' false
