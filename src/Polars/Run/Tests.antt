-- ===== src/Polars/Run/Tests.antt =====
-- A query over one uploaded frame, whose policy asks for four rows in each group.
use bastionlab.Prelude.{
  ℕ, ◌+◌, ◌≡◌, refl, true, false, some, List, [], ◌∷◌, ok, err, nat_eq, string_eq, list_eq, lookup,
  insert,
}
use bastionlab.Polars.AccessControl.{
  aggregation, true_rule, log, reject, verify, verify_rule, safe, merge_result, unsafe,
  allow_by_default,
}
use bastionlab.Polars.AggCheck.{agg, reducing, expr_agg_check, exprs_agg_check, agg_step, visit}
use bastionlab.Polars.Stats.{new, update_agg_size, map_values}
use bastionlab.Polars.Plan.{data_frame_scan, aggregate, initialize_plan, plan_step, visit_mut}
use bastionlab.Polars.Plan.Tests.{engine, keys}
use bastionlab.Polars.Run.{
  DataFrameArtifact, DataFrames, CompositePlanSegment, entry_point_plan_segment,
  polars_plan_segment, Frames, run, run_segments, run_segment, run_entry_point, run_polars,
  get_df_unchecked, judge, renamed_of,
}

abbrev pub frames : Frames ℕ ℕ ℕ ℕ
frames = record {
  engine = engine;
  collect = λ plan. ok 7;
  aliases = λ plan. ("id", "name") ∷ [];
  decode = λ text. err "no base64";
  load_data = λ bytes. err "no module";
  forward_ts = λ m t. ok t;
  get_column_names = λ df. "id" ∷ [];
  get_column = λ df i. some df;
  set_column = λ df i s. s;
  series_to_tensor = λ s. ok s;
  tensor_to_series = λ s t. ok t;
  vstack = λ a b. ok (a + b);
  with_row_count = λ df name. ok df;
  to_string = λ segs. ok "[]";
}

abbrev pub uploaded : DataFrameArtifact ℕ
uploaded = record {
  dataframe = 3;
  policy = record { safe_zone = aggregation 4; unsafe_handling = reject; savable = false };
  fetchable = unsafe reject "DataFrames uploaded by the Data Owner are protected.";
  blacklist = "id" ∷ [];
  query_details = "uploaded dataframe";
}

abbrev pub dfs : DataFrames ℕ
dfs = ("a", uploaded) ∷ []

abbrev pub query : List (CompositePlanSegment ℕ)
query =
    entry_point_plan_segment "a"
    ∷ polars_plan_segment (aggregate (data_frame_scan 0) keys (agg reducing ∷ []))
    ∷ []

abbrev pub result : DataFrameArtifact ℕ
result = record {
  dataframe = 7;
  policy = record { safe_zone = true_rule; unsafe_handling = log; savable = true };
  fetchable = safe;
  blacklist = "name" ∷ "id" ∷ [];
  query_details = "[]";
}

pub ran : run frames 1 dfs "ab" query ≡ ok result
unfolding run run_segments run_segment run_entry_point run_polars get_df_unchecked judge renamed_of
    verify verify_rule merge_result allow_by_default initialize_plan visit_mut plan_step map_values
    update_agg_size new lookup insert exprs_agg_check expr_agg_check agg_step visit
ran = refl
