-- ===== src/Polars/AggCheck/Fuel.antt =====
-- The fuel of the check: more than the depth of the expression changes nothing.
use bastionlab.Prelude.{
  ℕ, zero, suc, ◌≤◌, ◌<◌, ◌≡◌, refl, ap, Bool, [], arith, if◌then◌else◌, nat_eq, string_eq, list_eq,
}
use bastionlab.Common.Status.{Fallible}
use bastionlab.Common.Action.{Action, ◌>>◌ as ◌then◌}
use bastionlab.Polars.AggCheck.{
  Expr, column, columns, dtype_column, wildcard, nth, literal, count, alias_, cast, sort, explode,
  exclude, keep_name, binary_expr, take_, filter, sort_by, window, function, agg, ternary, slice,
  unsupported, list, agg_groups, reducing, Exprs, end, expr, visit, visit_all, agg_step,
  expr_agg_check,
}
use bastionlab.Polars.AggCheck.Single.{depth, depths}

abbrev Same : {S A : Type 0} → Action S A → Action S A → Type 0
Same {S} m m' = (s : S) → m s ≡ m' s

Same-then :
    {S A B : Type 0} {m m' : Action S A} {k k' : Action S B}
    → Same m m'
    → Same k k'
    → Same (m then k) (m' then k')
Same-then p q s = λ i. ((λ t. p t i) then (λ t. q t i)) s

module _ (fuel : ℕ) (c c' : Expr → Fallible Bool)
    (agree : (e : Expr) → depth e < fuel → c e ≡ c' e) where
  mutual
    unfolding visit agg_step depth

    visit-Same : (e : Expr) → depth e ≤ fuel → Same (visit (agg_step c) e) (visit (agg_step c') e)
    visit-Same (column name) fits = λ s. refl
    visit-Same columns fits = λ s. refl
    visit-Same dtype_column fits = λ s. refl
    visit-Same wildcard fits = λ s. refl
    visit-Same nth fits = λ s. refl
    visit-Same literal fits = λ s. refl
    visit-Same count fits = λ s. refl
    visit-Same (unsupported text) fits = λ s. refl
    visit-Same (alias_ e name) fits = Same-then (visit-Same e fits) (λ s. refl)
    visit-Same (cast e) fits = Same-then (visit-Same e fits) (λ s. refl)
    visit-Same (sort e) fits = Same-then (visit-Same e fits) (λ s. refl)
    visit-Same (explode e) fits = Same-then (visit-Same e fits) (λ s. refl)
    visit-Same (exclude e) fits = Same-then (visit-Same e fits) (λ s. refl)
    visit-Same (keep_name e) fits = Same-then (visit-Same e fits) (λ s. refl)
    visit-Same (binary_expr l r) fits =
        Same-then (visit-Same l (omega arith)) (Same-then (visit-Same r (omega arith)) (λ s. refl))
    visit-Same (take_ e x) fits =
        Same-then (visit-Same e (omega arith)) (Same-then (visit-Same x (omega arith)) (λ s. refl))
    visit-Same (filter e x) fits =
        Same-then (visit-Same e (omega arith)) (Same-then (visit-Same x (omega arith)) (λ s. refl))
    visit-Same (sort_by e by) fits =
        Same-then (visit-Same e (omega arith))
          (Same-then (visit_all-Same by (omega arith)) (λ s. refl))
    visit-Same (window e by) fits =
        Same-then (visit-Same e (omega arith))
          (Same-then (visit_all-Same by (omega arith)) (λ s. refl))
    visit-Same (function es) fits = Same-then (visit_all-Same es fits) (λ s. refl)
    visit-Same (agg (list e)) fits = λ s. rw (agree e (omega arith)) refl
    visit-Same (agg (agg_groups e)) fits = λ s. rw (agree e (omega arith)) refl
    visit-Same (agg reducing) fits = λ s. refl
    visit-Same (ternary p t e) fits = Same-then (visit-Same p (omega arith)) (
        Same-then (visit-Same t (omega arith)) (Same-then (visit-Same e (omega arith)) (λ s. refl)))
    visit-Same (slice e o l) fits = Same-then (visit-Same e (omega arith)) (
        Same-then (visit-Same o (omega arith)) (Same-then (visit-Same l (omega arith)) (λ s. refl)))

    visit_all-Same :
        (es : Exprs)
        → depths es ≤ fuel
        → Same (visit_all (agg_step c) es) (visit_all (agg_step c') es)
    visit_all-Same end fits = λ s. refl
    visit_all-Same (expr e es) fits =
        Same-then (visit-Same e (omega arith)) (visit_all-Same es (omega arith))

-- Any two amounts of fuel above the depth of an expression give the same result, whatever the
-- expression is.
pub expr_agg_check-fuel :
    (e : Expr) (n m : ℕ) → depth e < n → depth e < m → expr_agg_check n e ≡ expr_agg_check m e
unfolding expr_agg_check
expr_agg_check-fuel e zero m h k = absurd (omega arith)
expr_agg_check-fuel e (suc n) zero h k = absurd (omega arith)
expr_agg_check-fuel e (suc n) (suc m) h k =
    ap (λ r. r.0)
      (Same-then
        (visit-Same (depth e) (expr_agg_check n) (expr_agg_check m)
          (λ x deeper. expr_agg_check-fuel x n m (omega arith) (omega arith)) e (omega arith))
        (λ s. refl) [])
