-- ===== src/Learning/Privacy/Tests.antt =====
-- The accounting of privacy run on small inputs.
use bastionlab.Prelude.{
  ℕ, ◌≡◌, refl, ◌↔◌, inl, false, List, [], ◌∷◌, ◌++◌, arith, ok, nat_eq, string_eq, list_eq,
}
use bastionlab.Learning.Samples.{naturals, lists}
use bastionlab.Learning.Privacy.{
  unknown, l2, l_infinity, dependent, independent, PrivacyBudget, not_private, private_,
  PrivacyContext, BatchDependence, new, is_within, within_bounds, spend, update_budget,
  compute_sigma, independent_so_far, independence_check,
}
use bastionlab.Learning.Privacy
use bastionlab.Learning.Privacy.Dependence.{batches, AreDisjoint, add_laws}
use bastionlab.Learning.Privacy.Guards.{
  PrivacyGuard, World, write, get_private_with_std, get_private, generate_noise_like, noise_rounds,
  l2_sensibility_of,
}
use bastionlab.Learning.Privacy.Ledger.{Query, of_tensor, ask, audit, Posts, granted_to}
use bastionlab.Learning.Privacy.Posting.{audit-Posts}
use bastionlab.Learning.Privacy.Limit.{KeepsLimit, audit-KeepsLimit, after_raw, raw-refuses_later}
use bastionlab.Learning.Privacy.Derivation.{nothing, besides, source, by_sum, IsTraced}
use bastionlab.Learning.Privacy.Binary.{f_add, defer_binary, combined, compose}
use bastionlab.Learning.Privacy.Tracing.{Derived-IsTraced}

abbrev limited : ℕ → PrivacyContext ℕ
limited a = record { expended = private_ 0; limit = private_ 10; delta = 1; nb_samples = 4 }

abbrev start : World ℕ ℕ
start = record { contexts = limited; rng = 0 }

abbrev loss_of : List ℕ → ℕ → PrivacyGuard ℕ (List ℕ)
loss_of value batch = record {
  value = value;
  sensibility = l_infinity 1;
  batch_dependence = independent (batch ∷ []);
  context = 0;
}

abbrev three_reads : List (Query ℕ (List ℕ) × PrivacyBudget ℕ)
three_reads =
    (of_tensor (loss_of (5 ∷ []) 0), private_ 4)
    ∷ (of_tensor (loss_of (6 ∷ []) 1), private_ 5)
    ∷ (of_tensor (loss_of (7 ∷ []) 2), private_ 1)
    ∷ []

-- The third read would reach the limit.
log_of_three : (audit naturals lists three_reads start).0 ≡ (0, private_ 4) ∷ (0, private_ 5) ∷ []
unfolding audit ask get_private get_private_with_std generate_noise_like noise_rounds
    l2_sensibility_of within_bounds is_within update_budget spend write compute_sigma
log_of_three = refl

audit-Posts_example :
    Posts naturals
      (limited 0)
      (granted_to 0 (audit naturals lists three_reads start).0)
      ((audit naturals lists three_reads start).1.contexts 0)
audit-Posts_example = audit-Posts naturals lists three_reads start 0

audit-KeepsLimit_example :
    KeepsLimit naturals (limited 0) ((audit naturals lists three_reads start).1.contexts 0)
audit-KeepsLimit_example =
    audit-KeepsLimit naturals lists three_reads start 0 (λ x y. omega arith) (tt, (tt, (tt, tt)))
      (inl refl)

raw-refuses_later_example :
    ((get_private_with_std naturals lists (loss_of (5 ∷ []) 0) not_private start).0
      ≡ ok (5 ∷ [], 0))
    × ((ask naturals lists
          (of_tensor (loss_of (6 ∷ []) 1))
          (private_ 1)
          (after_raw naturals lists (loss_of (5 ∷ []) 0) start)).0
        ≡ false)
    × ((ask naturals lists
          (of_tensor (loss_of (6 ∷ []) 1))
          (private_ 1)
          (after_raw naturals lists (loss_of (5 ∷ []) 0) start)).1.contexts
        ≡ (after_raw naturals lists (loss_of (5 ∷ []) 0) start).contexts)
raw-refuses_later_example =
    raw-refuses_later naturals lists (loss_of (5 ∷ []) 0) start 10 1
      (of_tensor (loss_of (6 ∷ []) 1)) refl refl

abbrev one : BatchDependence
one = independent (1 ∷ [])

abbrev two : BatchDependence
two = independent (2 ∷ [])

abbrev three : BatchDependence
three = independent (3 ∷ [])

add_laws_example :
    ((Privacy.add one two ≡ independent (1 ∷ 2 ∷ [])) ↔ (
      (a : List ℕ) × (b : List ℕ) × (one ≡ independent a)
      × (two ≡ independent b)
      × AreDisjoint a b
      × (1 ∷ 2 ∷ [] ≡ a ++ b)))
    × (batches (Privacy.add one two) ≡ batches (Privacy.add two one))
    × (Privacy.add (Privacy.add one two) three ≡ Privacy.add one (Privacy.add two three))
add_laws_example = add_laws one two three (1 ∷ 2 ∷ [])

abbrev clipped_sum : PrivacyGuard ℕ (List ℕ)
clipped_sum = record {
  value = 2 ∷ [];
  sensibility = l_infinity 1;
  batch_dependence = independent (0 ∷ 1 ∷ []);
  context = 0;
}

summed_twice : f_add naturals lists (loss_of (1 ∷ []) 0) (loss_of (1 ∷ []) 1) ≡ ok clipped_sum
unfolding f_add defer_binary combined compose Privacy.add independence_check independent_so_far
summed_twice = refl

Derived-IsTraced_example : IsTraced clipped_sum (loss_of (1 ∷ []) 0 ∷ loss_of (1 ∷ []) 1 ∷ []) false
Derived-IsTraced_example = Derived-IsTraced naturals lists (
    by_sum (besides (source (loss_of (1 ∷ []) 0)) (besides (source (loss_of (1 ∷ []) 1)) nothing))
      summed_twice)
