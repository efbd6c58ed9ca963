-- ===== src/Learning/Privacy.antt =====
-- server/bastionlab_learning/src/data/privacy_guard.rs: budgets, the contexts that count what was
-- spent, sensibilities and the dependence of a tensor's lines.
mod Dependence
pub mod Guards
pub mod Operations
pub mod Binary
mod Derivation
mod Joining
mod Tracing
pub mod Limit
mod Ledger
mod Posting
mod Tests
use bastionlab.Prelude.{
  ℕ, zero, suc, ◌+◌, ◌-◌, ◌*◌, ◌/◌, ◌%◌, ◌^◌, ◌≤◌, ◌<◌, min, max, String, ◌≡◌, refl, sym, ap, subst,
  ◌∙◌, ◌≢◌, ◌↔◌, ◌⊎◌, inl, inr, Bool, true, false, ◌&&◌, ◌||◌, not, Option, none, some, List, [],
  ◌∷◌, ◌++◌, map, append-nil, append_assoc, arith, ltb, leb, eqb, if◌then◌else◌, ltb→lt, lt→ltb,
  leb→le, le→leb, eqb_iff, tests, Bool-cases, Option-cases, length, get_elem?, take, drop, last?,
  length-append, take-append-drop, length-take, length-drop, take-length-append, drop-length-append,
  drop-eq-nil, length-map, All, All-append, ok_or_inv, ok_injective, Outcome, ok, err, panic, ◌>>=◌,
  ◌>>◌, ok_or, unwrap, ensure, map_err, >>=-eq-ok, Outcome-cases, PartialEq, ◌==◌, ==_iff, contains,
  nat_eq, string_eq, list_eq, paired, contains-append, lookup-insert_inv, chunks_on, chunks, joined,
  Sized, joined-chunks, HashMap, lookup, insert, erase, lookup-nil, lookup-insert, lookup-erase,
  lookup-append, or_else, beq_refl, map_laws, concat, decimal,
}
use bastionlab.Learning.Numbers.{Floats}

pub data Sensibility (F : Type 0) : Type 0 where
  unknown : Sensibility F
  l2 : F → Sensibility F
  l_infinity : F → Sensibility F

pub data BatchDependence : Type 0 where
  dependent : BatchDependence
  independent : List ℕ → BatchDependence

pub data PrivacyBudget (F : Type 0) : Type 0 where
  not_private : PrivacyBudget F
  private_ : F → PrivacyBudget F

pub record PrivacyContext (F : Type 0) : Type 0 where
  pub expended : PrivacyBudget F
  pub limit : PrivacyBudget F
  pub delta : F
  pub nb_samples : ℕ

-- The loop over `b`.
unfoldable pub independent_so_far : List ℕ → List ℕ → Bool → Bool
independent_so_far a [] res = res
independent_so_far a (x ∷ b) res = independent_so_far a b (res && not (contains a x))

unfoldable pub independence_check : List ℕ → List ℕ → Bool
independence_check a b = independent_so_far a b true

-- `<BatchDependence as Add>::add`
unfoldable pub add : BatchDependence → BatchDependence → BatchDependence
add dependent rhs = dependent
add (independent a) dependent = dependent
add (independent a) (independent b) =
    if independence_check a b then independent (a ++ b) else dependent

module _ {F D : Type 0} (number : Floats F D) where
  open number use {literal, lt, div, mul, sqrt, ln, of_usize}

  unfoldable pub compute_sigma : F → F → F → F
  compute_sigma eps delta l2_sensibility =
      div (mul l2_sensibility (sqrt (mul (literal 2 0) (ln (div (literal 125 2) delta)))))
        (number.add eps (literal 1 8))

  -- `PrivacyContext::new`
  unfoldable pub new : PrivacyBudget F → ℕ → PrivacyContext F
  new limit nb_samples = record {
    expended = private_ (literal 0 0);
    limit = limit;
    delta = div (literal 1 0) (mul (literal 10 0) (of_usize nb_samples));
    nb_samples = nb_samples;
  }

  unfoldable pub is_within : PrivacyBudget F → PrivacyBudget F → PrivacyBudget F → Bool
  is_within not_private expended budget = true
  is_within (private_ eps_limit) not_private budget = false
  is_within (private_ eps_limit) (private_ eps_expended) not_private = false
  is_within (private_ eps_limit) (private_ eps_expended) (private_ eps) =
      lt (number.add eps eps_expended) eps_limit

  -- `PrivacyContext::within_bounds`
  unfoldable pub within_bounds : PrivacyContext F → PrivacyBudget F → Bool
  unfolding is_within
  within_bounds self budget = is_within self.limit self.expended budget

  unfoldable pub spend : PrivacyBudget F → PrivacyBudget F → PrivacyBudget F
  spend not_private budget = not_private
  spend (private_ eps_expended) not_private = not_private
  spend (private_ eps_expended) (private_ eps) = private_ (number.add eps_expended eps)

  -- `PrivacyContext::update_budget`
  unfoldable pub update_budget : PrivacyContext F → PrivacyBudget F → PrivacyContext F
  unfolding spend
  update_budget self budget = record self { expended = spend self.expended budget }
