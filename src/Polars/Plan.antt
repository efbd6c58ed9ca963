-- ===== src/Polars/Plan.antt =====
-- server/bastionlab_polars/src/composite_plan.rs, `initialize_plan`, over the traversal of
-- server/bastionlab_polars/src/visitable.rs: the inputs of a logical plan, and their statistics.
pub mod Provenance
pub mod Tests
use bastionlab.Prelude.{
  ℕ, String, Bool, not, List, [], ◌∷◌, if◌then◌else◌, Outcome, ok, err, panic, map_err, contains,
  nat_eq, string_eq, list_eq, concat,
}
use bastionlab.Common.Status.{Status, status, Fallible, invalid_argument, internal}
use bastionlab.Common.Action.{Action, pure, raise, lift, gets, modify, ◌>>=◌, ◌>>◌}
use bastionlab.Polars.AccessControl.{usize_max}
use bastionlab.Polars.AggCheck.{Expr, exprs_agg_check}
use bastionlab.Polars.Stats.{DataFrameStats, update_agg_size, update_join_scaling, merge}

-- The plan nodes that only pass through their input, with the text of what else they hold.
pub data Pass : Type 0 where
  selection cache h_stack distinct sort explode slice melt map_function : String → Pass

pub data JoinType : Type 0 where
  left inner outer cross as_of anti semi : JoinType

-- `polars::LogicalPlan` over frames of type `D`, with the variants that the traversal names. The
-- others carry the text of their debug form.
pub data LogicalPlan {ℓ} (D : Type ℓ) : Type ℓ where
  data_frame_scan : D → LogicalPlan D
  pass_through : Pass → LogicalPlan D → LogicalPlan D
  projection local_projection : List Expr → LogicalPlan D → LogicalPlan D
  aggregate : LogicalPlan D → List Expr → List Expr → LogicalPlan D
  join : LogicalPlan D → LogicalPlan D → List Expr → List Expr → JoinType → LogicalPlan D
  unsupported : String → LogicalPlan D

-- What the server takes from `polars`: the plan of a frame (`df.lazy().logical_plan`), and the answers
-- of its own queries for the size of the smallest group, and for the most matches of one row in a
-- join, of the left frame and of the right one. A query may fail, or panic on a missing value.
pub record Engine {ℓ} (D : Type ℓ) : Type ℓ where
  pub lazy : D → LogicalPlan D
  pub min_group_size : LogicalPlan D → List Expr → Outcome String ℕ
  pub max_left_matches :
      LogicalPlan D → LogicalPlan D → List Expr → List Expr → JoinType → Outcome String ℕ
  pub max_right_matches :
      LogicalPlan D → LogicalPlan D → List Expr → List Expr → JoinType → Outcome String ℕ

-- `VisitableMut::visit_mut`: the inputs from left to right, then the node with its new inputs.
module _ {ℓ κ} {D : Type ℓ} {S : Type κ} (f : LogicalPlan D → Action S (LogicalPlan D)) where
  unfoldable pub visit_mut : LogicalPlan D → Action S (LogicalPlan D)
  visit_mut (data_frame_scan df) = f (data_frame_scan df)
  visit_mut (pass_through op input) = do input' ← visit_mut input; f (pass_through op input')
  visit_mut (projection es input) = do input' ← visit_mut input; f (projection es input')
  visit_mut (local_projection es input) = do
    input' ← visit_mut input
    f (local_projection es input')
  visit_mut (aggregate input keys aggs) = do
    input' ← visit_mut input
    f (aggregate input' keys aggs)
  visit_mut (join l r left_on right_on how) = do
    l' ← visit_mut l
    r' ← visit_mut r
    f (join l' r' left_on right_on how)
  visit_mut (unsupported text) = raise (
      status invalid_argument (concat ("Logical plan contains unsupported variants: " ∷ text ∷ [])))

pub record StackFrame {ℓ} (D : Type ℓ) : Type ℓ where
  pub df : D
  pub stats : DataFrameStats

-- The stack of frames, and the stack of statistics of the plan's parts.
pub record Stacks {ℓ} (D : Type ℓ) : Type ℓ where
  pub main : List (StackFrame D)
  pub stats : List DataFrameStats

module _ {ℓ} {D : Type ℓ} where
  abbrev pub pop_frame : Status → Action (Stacks D) (StackFrame D)
  pop_frame e s = elim s.main [
    | [] ↦ (err e, s)
    | frame ∷ rest ↦ (ok frame, record s { main = rest })
  ]

  -- `stats_stack.pop().unwrap()`
  abbrev pub pop_stats : Action (Stacks D) DataFrameStats
  pop_stats s = elim s.stats [ [] ↦ (panic, s) | top ∷ rest ↦ (ok top, record s { stats = rest }) ]

  abbrev pub take_stats : LogicalPlan D → Action (Stacks D) (LogicalPlan D × DataFrameStats)
  take_stats plan = do stats ← pop_stats; pure (plan, stats)

  abbrev pub push_stats : DataFrameStats → Action (Stacks D) (Unit {0})
  push_stats stats = modify (λ s. record s { stats = stats ∷ s.stats })

  -- `stats_stack.last_mut().unwrap().update_agg_size(n)`
  abbrev pub scale_top : ℕ → Action (Stacks D) (Unit {0})
  scale_top n = do top ← pop_stats; push_stats (update_agg_size n top)

  -- A projection or an aggregation whose expressions all aggregate.
  abbrev pub scale_if : Fallible Bool → ℕ → Action (Stacks D) (Unit {0})
  scale_if check n = do aggregated ← lift check; if aggregated then scale_top n else pure tt

-- `usize_item`
abbrev pub usize_item : Outcome String ℕ → Fallible ℕ
usize_item r =
    map_err (λ e. status internal (concat ("Could not get usize item from DataFrame: " ∷ e ∷ []))) r

abbrev pub scale_both :
    Fallible ℕ
    → Fallible ℕ
    → DataFrameStats × DataFrameStats
    → Fallible (DataFrameStats × DataFrameStats)
scale_both (ok n) (ok m) (lefts, rights) =
    ok (update_join_scaling n lefts, update_join_scaling m rights)
scale_both (ok n) (err e) tables = err e
scale_both (ok n) panic tables = panic
scale_both (err e) second tables = err e
scale_both panic second tables = panic

-- The two tables of a join, scaled by what the join repeats.
module _ {ℓ} {D : Type ℓ} (engine : Engine D) where
  unfoldable pub scale_join :
      LogicalPlan D
      → LogicalPlan D
      → List Expr
      → List Expr
      → JoinType
      → DataFrameStats × DataFrameStats
      → Fallible (DataFrameStats × DataFrameStats)
  scale_join l r left_on right_on anti (lefts, rights) = ok (lefts, update_join_scaling 0 rights)
  scale_join l r left_on right_on semi (lefts, rights) = ok (lefts, update_join_scaling 0 rights)
  scale_join l r left_on right_on how tables =
      scale_both (usize_item (engine.max_left_matches l r left_on right_on how))
        (usize_item (engine.max_right_matches l r left_on right_on how)) tables

  -- The closure of `initialize_plan`. The checks of expressions run on `fuel`.
  unfoldable pub plan_step : ℕ → LogicalPlan D → Action (Stacks D) (LogicalPlan D)
  plan_step fuel (data_frame_scan df) = do
    frame ←
        pop_frame
          (status invalid_argument "Could not run logical plan: not enough input data frames")
    push_stats frame.stats
    pure (engine.lazy frame.df)
  plan_step fuel (join l r left_on right_on how) = do
    rights ← pop_stats
    lefts ← pop_stats
    (lefts', rights') ← lift (scale_join l r left_on right_on how (lefts, rights))
    push_stats (merge lefts' rights')
    pure (join l r left_on right_on how)
  plan_step fuel (projection es input) = do
    scale_if (exprs_agg_check fuel es) usize_max
    pure (projection es input)
  plan_step fuel (local_projection es input) = do
    scale_if (exprs_agg_check fuel es) usize_max
    pure (local_projection es input)
  plan_step fuel (aggregate input keys aggs) = do
    agg_size ← lift (usize_item (engine.min_group_size input keys))
    scale_if (exprs_agg_check fuel aggs) agg_size
    pure (aggregate input keys aggs)
  plan_step fuel plan = pure plan

  -- `initialize_plan`: the plan over the frames that it popped, their statistics, and the frames left.
  unfoldable pub initialize_plan :
      ℕ → LogicalPlan D → Action (List (StackFrame D)) (LogicalPlan D × DataFrameStats)
  initialize_plan fuel plan main =
      let (r, s) =
        (do plan' ← visit_mut (plan_step fuel) plan; take_stats plan')
          (record { main = main; stats = [] }) in
      (r, s.main)
