-- ===== src/Polars/Plan/Tests.antt =====
-- An engine over numbers as frames, and a plan that aggregates a join.
use bastionlab.Prelude.{
  ℕ, ◌≡◌, refl, false, ◌||◌, List, [], ◌∷◌, ok, nat_eq, string_eq, list_eq, lookup, insert,
}
use bastionlab.Polars.AggCheck.{
  Expr, column, agg, reducing, expr_agg_check, exprs_agg_check, agg_step, visit,
}
use bastionlab.Polars.Stats.{
  DataFrameStats, new, merge, update_agg_size, update_join_scaling, map_values, meet_all, add_new,
}
use bastionlab.Polars.Plan.{
  LogicalPlan, data_frame_scan, aggregate, join, inner, Engine, StackFrame, initialize_plan,
  plan_step, visit_mut, scale_join,
}
use bastionlab.Polars.Plan.Provenance.{has, in_frames, in_frames-initialize_plan}

abbrev pub engine : Engine ℕ
engine = record {
  lazy = data_frame_scan;
  min_group_size = λ plan keys. ok 5;
  max_left_matches = λ l r left_on right_on how. ok 1;
  max_right_matches = λ l r left_on right_on how. ok 3;
}

abbrev pub keys : List Expr
keys = column "id" ∷ []

abbrev pub plan_over : ℕ → ℕ → LogicalPlan ℕ
plan_over l r =
    aggregate (join (data_frame_scan l) (data_frame_scan r) keys keys inner) keys
      (agg reducing ∷ [])

abbrev pub stack : List (StackFrame ℕ)
stack = record { df = 1; stats = new "a" } ∷ record { df = 2; stats = new "b" } ∷ []

abbrev pub joined_stats : DataFrameStats
joined_stats =
    ("a", record { agg_size = 5; join_scaling = 1 })
    ∷ ("b", record { agg_size = 5; join_scaling = 3 })
    ∷ []

initialized :
    initialize_plan engine 1 (plan_over 0 0) stack ≡ (ok (plan_over 1 2, joined_stats), [])
unfolding initialize_plan visit_mut plan_step scale_join merge meet_all add_new map_values
    update_agg_size update_join_scaling new lookup insert exprs_agg_check expr_agg_check agg_step
    visit
initialized = refl

in_frames-initialize_plan_example : in_frames "b" stack ≡ (has "b" joined_stats || false)
in_frames-initialize_plan_example =
    in_frames-initialize_plan engine "b" 1 (plan_over 0 0) (plan_over 1 2) stack [] joined_stats
      initialized
