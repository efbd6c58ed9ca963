-- ===== src/Polars/AggCheck/Single.antt =====
-- The stack of flags against a direct reading of the expression.
use bastionlab.Prelude.{
  ℕ, zero, suc, ◌+◌, ◌≤◌, ◌<◌, max, ◌≡◌, refl, ◌∙◌, Bool, true, false, ◌&&◌, List, [], ◌∷◌, arith,
  All, Outcome, ok, nat_eq, string_eq, list_eq,
}
use bastionlab.Common.Status.{Status, Fallible}
use bastionlab.Common.Action.{Action, ◌>>◌}
use bastionlab.Polars.AggCheck.{
  Expr, column, columns, dtype_column, wildcard, nth, literal, count, alias_, cast, sort, explode,
  exclude, keep_name, binary_expr, take_, filter, sort_by, window, function, agg, ternary, slice,
  unsupported, list, agg_groups, reducing, Exprs, end, expr, visit, agg_step, expr_agg_check,
  exprs_agg_check,
}

-- Whether each row of the result stands for a group of rows: of an operator or a conditional when
-- it holds of both branches, of a choice or an order of rows when it holds of what is chosen from.
unfoldable pub aggregates : Expr → Bool
aggregates literal = true
aggregates count = true
aggregates (alias_ e name) = aggregates e
aggregates (cast e) = aggregates e
aggregates (sort e) = aggregates e
aggregates (explode e) = aggregates e
aggregates (exclude e) = aggregates e
aggregates (keep_name e) = aggregates e
aggregates (binary_expr l r) = aggregates l && aggregates r
aggregates (take_ e i) = aggregates e
aggregates (filter e by) = aggregates e
aggregates (sort_by e by) = aggregates e
aggregates (window e by) = aggregates e
aggregates (function (expr e end)) = aggregates e
aggregates (agg (list e)) = aggregates e
aggregates (agg (agg_groups e)) = aggregates e
aggregates (agg reducing) = true
aggregates (ternary p t e) = aggregates t && aggregates e
aggregates (slice e o l) = aggregates e
aggregates _ = false

-- Expressions without unsupported variants in which a function has one input, and a sort or a window
-- one key.
unfoldable pub Single : Expr → Type 0
Single (alias_ e name) = Single e
Single (cast e) = Single e
Single (sort e) = Single e
Single (explode e) = Single e
Single (exclude e) = Single e
Single (keep_name e) = Single e
Single (binary_expr l r) = Single l × Single r
Single (take_ e i) = Single e × Single i
Single (filter e by) = Single e × Single by
Single (sort_by e (expr by end)) = Single e × Single by
Single (sort_by e _) = ⊥
Single (window e (expr by end)) = Single e × Single by
Single (window e _) = ⊥
Single (function (expr e end)) = Single e
Single (function _) = ⊥
Single (agg (list e)) = Single e
Single (agg (agg_groups e)) = Single e
Single (ternary p t e) = Single p × (Single t × Single e)
Single (slice e o l) = Single e × (Single o × Single l)
Single (unsupported text) = ⊥
Single _ = Unit {0}

-- How deep the nested calls of `expr_agg_check` go.
unfoldable mutual
  pub depth : Expr → ℕ
  depth (alias_ e name) = depth e
  depth (cast e) = depth e
  depth (sort e) = depth e
  depth (explode e) = depth e
  depth (exclude e) = depth e
  depth (keep_name e) = depth e
  depth (binary_expr l r) = max (depth l) (depth r)
  depth (take_ e i) = max (depth e) (depth i)
  depth (filter e by) = max (depth e) (depth by)
  depth (sort_by e by) = max (depth e) (depths by)
  depth (window e by) = max (depth e) (depths by)
  depth (function es) = depths es
  depth (agg (list e)) = 1 + depth e
  depth (agg (agg_groups e)) = 1 + depth e
  depth (ternary p t e) = max (depth p) (max (depth t) (depth e))
  depth (slice e o l) = max (depth e) (max (depth o) (depth l))
  depth _ = 0

  pub depths : Exprs → ℕ
  depths end = 0
  depths (expr e es) = max (depth e) (depths es)

-- A check that is right below a depth.
abbrev Right : ℕ → (Expr → Fallible Bool) → Type 0
Right fuel check = (e : Expr) → Single e → depth e < fuel → check e ≡ ok (aggregates e)

and_flipped :
    (a b : Bool) (s : List Bool)
    → ◌≡◌ {A = Outcome Status (Unit {0}) × List Bool} (ok tt, (a && b) ∷ s) (ok tt, (b && a) ∷ s)
and_flipped a b s = ground arith

module _ (fuel : ℕ) (check : Expr → Fallible Bool) (right : Right fuel check) where
  two_pushed :
      (e i : Expr) (s : List Bool) (k : Action (List Bool) (Unit {0}))
      → visit (agg_step check) e s ≡ (ok tt, aggregates e ∷ s)
      → visit (agg_step check) i (aggregates e ∷ s) ≡ (ok tt, aggregates i ∷ aggregates e ∷ s)
      → (visit (agg_step check) e >> (visit (agg_step check) i >> k)) s
        ≡ k (aggregates i ∷ aggregates e ∷ s)
  two_pushed e i s k f g = rw f (rw g refl)

  -- Such an expression pushes one flag, and leaves the stack below it alone.
  visit_pushes :
      (e : Expr) (s : List Bool)
      → Single e
      → depth e ≤ fuel
      → visit (agg_step check) e s ≡ (ok tt, aggregates e ∷ s)
  unfolding visit agg_step aggregates Single depth
  visit_pushes (column name) s single fits = refl
  visit_pushes columns s single fits = refl
  visit_pushes dtype_column s single fits = refl
  visit_pushes wildcard s single fits = refl
  visit_pushes nth s single fits = refl
  visit_pushes literal s single fits = refl
  visit_pushes count s single fits = refl
  visit_pushes (alias_ e name) s single fits = rw (visit_pushes e s single fits)
  visit_pushes (cast e) s single fits = rw (visit_pushes e s single fits)
  visit_pushes (sort e) s single fits = rw (visit_pushes e s single fits)
  visit_pushes (explode e) s single fits = rw (visit_pushes e s single fits)
  visit_pushes (exclude e) s single fits = rw (visit_pushes e s single fits)
  visit_pushes (keep_name e) s single fits = rw (visit_pushes e s single fits)
  visit_pushes (binary_expr l r) s (a, b) fits =
      two_pushed l r s (agg_step check (binary_expr l r)) (visit_pushes l s a (omega arith))
        (visit_pushes r (aggregates l ∷ s) b (omega arith))
      ∙ and_flipped (aggregates r) (aggregates l) s
  visit_pushes (take_ e i) s (a, b) fits =
      two_pushed e i s (agg_step check (take_ e i)) (visit_pushes e s a (omega arith))
        (visit_pushes i (aggregates e ∷ s) b (omega arith))
  visit_pushes (filter e i) s (a, b) fits =
      two_pushed e i s (agg_step check (filter e i)) (visit_pushes e s a (omega arith))
        (visit_pushes i (aggregates e ∷ s) b (omega arith))
  visit_pushes (sort_by e (expr i end)) s (a, b) fits =
      rw (visit_pushes e s a (omega arith))
        (rw (visit_pushes i (aggregates e ∷ s) b (omega arith)) refl)
  visit_pushes (sort_by e end) s single fits = absurd single
  visit_pushes (sort_by e (expr i (expr j es))) s single fits = absurd single
  visit_pushes (window e (expr i end)) s (a, b) fits =
      rw (visit_pushes e s a (omega arith))
        (rw (visit_pushes i (aggregates e ∷ s) b (omega arith)) refl)
  visit_pushes (window e end) s single fits = absurd single
  visit_pushes (window e (expr i (expr j es))) s single fits = absurd single
  visit_pushes (function end) s single fits = absurd single
  visit_pushes (function (expr e end)) s single fits = rw (visit_pushes e s single (omega arith))
  visit_pushes (function (expr e (expr i es))) s single fits = absurd single
  visit_pushes (agg (list e)) s single fits = rw (right e single (omega arith))
  visit_pushes (agg (agg_groups e)) s single fits = rw (right e single (omega arith))
  visit_pushes (agg reducing) s single fits = refl
  visit_pushes (ternary p t e) s (a, (b, c)) fits = rw (visit_pushes p s a (omega arith)) (
      two_pushed t e (aggregates p ∷ s) (agg_step check (ternary p t e))
        (visit_pushes t (aggregates p ∷ s) b (omega arith))
        (visit_pushes e (aggregates t ∷ aggregates p ∷ s) c (omega arith)))
  visit_pushes (slice e o l) s (a, (b, c)) fits = rw (visit_pushes e s a (omega arith)) (
      two_pushed o l (aggregates e ∷ s) (agg_step check (slice e o l))
        (visit_pushes o (aggregates e ∷ s) b (omega arith))
        (visit_pushes l (aggregates o ∷ aggregates e ∷ s) c (omega arith)))
  visit_pushes (unsupported text) s single fits = absurd single

-- With fuel above the depth of nested aggregations, the check returns what the expression means,
-- and does not panic.
pub expr_agg_check-aggregates :
    (e : Expr) (fuel : ℕ) → Single e → depth e < fuel → expr_agg_check fuel e ≡ ok (aggregates e)
unfolding expr_agg_check
expr_agg_check-aggregates e zero single fits = absurd (omega arith)
expr_agg_check-aggregates e (suc fuel) single fits =
    rw
      (
        visit_pushes fuel (expr_agg_check fuel) (λ x. expr_agg_check-aggregates x fuel) e [] single
            (omega arith),
        expr_agg_check,
      )
      refl

-- A function of two inputs counts as aggregated exactly if its last input does, a literal for one,
-- whether its first input does or not. Both inputs are assumed to be such that the check leaves one
-- flag for them (no variant that it has no case for, no further function of several inputs, one key of
-- a sort), and the fuel to exceed the depth of the expression.
pub expr_agg_check-function :
    (e last : Expr) (fuel : ℕ)
    → Single e
    → Single last
    → depth (function (expr e (expr last end))) < fuel
    → expr_agg_check fuel (function (expr e (expr last end))) ≡ ok (aggregates last)
unfolding expr_agg_check visit agg_step depth
expr_agg_check-function e last zero a b fits = absurd (omega arith)
expr_agg_check-function e last (suc fuel) a b fits =
    rw (pushes e [] a (omega arith), expr_agg_check)
      (rw (pushes last (aggregates e ∷ []) b (omega arith)) refl)
  where
    pushes :
        (x : Expr) (s : List Bool)
        → Single x
        → depth x ≤ fuel
        → visit (agg_step (expr_agg_check fuel)) x s ≡ (ok tt, aggregates x ∷ s)
    pushes = visit_pushes fuel (expr_agg_check fuel) (λ x. expr_agg_check-aggregates x fuel)

abbrev pub all : (Expr → Bool) → List Expr → Bool
all p [] = true
all p (e ∷ es) = p e && all p es

-- A projection counts as aggregated exactly when each of its expressions aggregates.
pub exprs_agg_check-aggregates :
    (es : List Expr) (fuel : ℕ)
    → All (λ e. Single e × (depth e < fuel)) es
    → exprs_agg_check fuel es ≡ ok (all aggregates es)
unfolding exprs_agg_check
exprs_agg_check-aggregates [] fuel fine = refl
exprs_agg_check-aggregates (e ∷ es) fuel ((single, fits), fine) =
    ground
      (arith, expr_agg_check-aggregates e fuel single fits, exprs_agg_check-aggregates es fuel fine)
