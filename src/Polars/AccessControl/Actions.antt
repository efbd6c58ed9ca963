-- ===== src/Polars/AccessControl/Actions.antt =====
-- Unsafe actions as levels of severity, and the merge of several verdicts.
use bastionlab.Prelude.{
  ℕ, ◌≤◌, max, ◌≡◌, refl, ◌∙◌, ◌⊎◌, inl, inr, List, [], ◌∷◌, arith, All, nat_eq, string_eq, list_eq,
}
use mathlib.Core.List.{foldl}
use bastionlab.Polars.AccessControl.{
  UnsafeAction, log, review, reject, VerificationResult, safe, unsafe, merge_action, merge_result,
  Policy, merge_policy, allow_by_default,
}

abbrev pub rank : UnsafeAction → ℕ
rank log = 1
rank review = 2
rank reject = 3

abbrev pub severity : VerificationResult → ℕ
severity safe = 0
severity (unsafe action reason) = rank action

rank-injective : (a b : UnsafeAction) → rank a ≡ rank b → a ≡ b
rank-injective a b h = ground arith

-- Merged actions are as severe as the more severe of the two.
pub rank-merge_action : (a b : UnsafeAction) → rank (merge_action a b) ≡ max (rank a) (rank b)
unfolding merge_action
rank-merge_action log b = ground arith
rank-merge_action review b = ground arith
rank-merge_action reject b = ground arith

-- So the order in which policies are merged does not matter for the action.
pub merge_action_comm : (a b : UnsafeAction) → merge_action a b ≡ merge_action b a
merge_action_comm a b =
    rank-injective _ _ (omega (arith, rank-merge_action a b, rank-merge_action b a))

pub merge_action_assoc :
    (a b c : UnsafeAction) → merge_action (merge_action a b) c ≡ merge_action a (merge_action b c)
merge_action_assoc a b c = rank-injective _ _ (
    omega (
      arith,
      rank-merge_action (merge_action a b) c,
      rank-merge_action a b,
      rank-merge_action a (merge_action b c),
      rank-merge_action b c,
    ))

pub severity-merge_result :
    (x y : VerificationResult) → severity (merge_result x y) ≡ max (severity x) (severity y)
unfolding merge_result
severity-merge_result safe y = omega arith
severity-merge_result (unsafe a r) safe = omega arith
severity-merge_result (unsafe a r) (unsafe b q) = omega (arith, rank-merge_action a b)

-- A merge keeps one of the two verdicts whole, its reason included.
pub merge_result_selects :
    (x y : VerificationResult) → (merge_result x y ≡ x) ⊎ (merge_result x y ≡ y)
unfolding merge_result
merge_result_selects safe y = inr refl
merge_result_selects (unsafe a r) safe = inl refl
merge_result_selects (unsafe log r) (unsafe b q) = ground arith
merge_result_selects (unsafe review r) (unsafe b q) = ground arith
merge_result_selects (unsafe reject r) (unsafe b q) = ground arith

abbrev pub Within : VerificationResult → List VerificationResult → Type 0
Within r [] = r ≡ safe
Within r (c ∷ cs) = (r ≡ c) ⊎ Within r cs

pub merged : VerificationResult → List VerificationResult → VerificationResult
merged = foldl merge_result

merged-severity :
    (checks : List VerificationResult) (start : VerificationResult)
    → All (λ c. severity c ≤ severity (merged start checks)) (start ∷ checks)
unfolding merged
merged-severity [] start = (omega arith, tt)
merged-severity (c ∷ cs) start =
    let (first, rest) = merged-severity cs (merge_result start c) in
    let e = severity-merge_result start c in (omega arith, (omega arith, rest))

merged-Within :
    (checks : List VerificationResult) (start : VerificationResult)
    → (merged start checks ≡ start) ⊎ Within (merged start checks) checks
unfolding merged
merged-Within [] start = inl refl
merged-Within (c ∷ cs) start = elim (merged-Within cs (merge_result start c)) [
  | inl kept ↦ elim (merge_result_selects start c) [
    | inl e ↦ inl (kept ∙ e)
    | inr e ↦ inr (inl (kept ∙ e))
  ]
  | inr later ↦ inr (inr later)
]

-- The verdict on a query over several frames: at least as severe as that on each frame, and one of
-- them, or safe where there is none that is not.
pub merged_worst :
    (checks : List VerificationResult)
    → All (λ c. severity c ≤ severity (merged safe checks)) checks
      × Within (merged safe checks) checks
merged_worst checks =
    ((merged-severity checks safe).1, within_safe checks (merged-Within checks safe))
  where
    within_safe :
        (cs : List VerificationResult) {r : VerificationResult}
        → (r ≡ safe) ⊎ Within r cs
        → Within r cs
    within_safe [] (inl e) = e
    within_safe (c ∷ cs) (inl e) = inr (within_safe cs (inl e))
    within_safe cs (inr w) = w

-- Merging in the default policy, from which a query's policy starts, restricts nothing further.
pub merge_policy-allow_by_default :
    (p : Policy)
    → ((merge_policy allow_by_default p).unsafe_handling ≡ p.unsafe_handling)
      × ((merge_policy allow_by_default p).savable ≡ p.savable)
unfolding merge_policy allow_by_default
merge_policy-allow_by_default p = (refl, refl)
