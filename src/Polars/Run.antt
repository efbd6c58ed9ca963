-- ===== src/Polars/Run.antt =====
-- server/bastionlab_polars/src/composite_plan.rs, `CompositePlan::run`: the segments of a query, over a
-- stack of frames, and the verdict on its result.
pub mod Judging
pub mod Coverage
pub mod Tests
use bastionlab.Prelude.{
  ◌>>=◌, ℕ, suc, String, not, Option, none, some, List, [], ◌∷◌, ◌++◌, if◌then◌else◌, Outcome, ok,
  err, ok_or, unwrap, map_err, ◌==◌, contains, nat_eq, string_eq, list_eq, HashMap, lookup, insert,
  concat,
}
use bastionlab.Common.Status.{Status, status, Fallible, invalid_argument, internal, not_found}
use bastionlab.Polars.AccessControl.{
  Context, Policy, VerificationResult, safe, unsafe, verify, merge_policy, merge_result,
  allow_by_default,
}
use bastionlab.Polars.Stats.{DataFrameStats, new, merge}
use bastionlab.Polars.Plan.{LogicalPlan, Engine, StackFrame, initialize_plan}

-- server/bastionlab_polars/src/lib.rs
pub record DataFrameArtifact (D : Type 0) : Type 0 where
  pub dataframe : D
  pub policy : Policy
  pub fetchable : VerificationResult
  pub blacklist : List String
  pub query_details : String

-- The data frames of `BastionLabPolars`.
abbrev pub DataFrames : Type 0 → Type 0
DataFrames D = HashMap String (DataFrameArtifact D)

abbrev pub no_dataframe : String → Status
no_dataframe identifier =
    status not_found (concat ("Could not find dataframe: identifier=" ∷ identifier ∷ []))

unfoldable pub get_df_unchecked : {D : Type 0} → DataFrames D → String → Fallible D
get_df_unchecked dfs identifier = elim (lookup identifier dfs) [
  | none ↦ err (no_dataframe identifier)
  | some artifact ↦ ok artifact.dataframe
]

pub data CompositePlanSegment (D : Type 0) : Type 0 where
  polars_plan_segment : LogicalPlan D → CompositePlanSegment D
  udf_plan_segment : List String → String → CompositePlanSegment D
  entry_point_plan_segment : String → CompositePlanSegment D
  stack_plan_segment : CompositePlanSegment D
  row_count_segment : String → CompositePlanSegment D

-- What the server takes from `polars`, `tch`, `base64`, `regex` and `serde_json`, on frames `D`, series
-- `S`, tensors `T` and modules `M`, with the conversions of a series to a tensor and back.
pub record Frames (D S T M : Type 0) : Type 0 where
  pub engine : Engine D
  pub collect : LogicalPlan D → Outcome String D
  pub aliases : LogicalPlan D → List (String × String)
  pub decode : String → Outcome String (List ℕ)
  pub load_data : List ℕ → Outcome String M
  pub forward_ts : M → T → Outcome String T
  pub get_column_names : D → List String
  pub get_column : D → ℕ → Option S
  pub set_column : D → ℕ → S → D
  pub series_to_tensor : S → Fallible T
  pub tensor_to_series : S → T → Fallible S
  pub vstack : D → D → Outcome String D
  pub with_row_count : D → String → Outcome String D
  pub to_string : List (CompositePlanSegment D) → Outcome String String

-- `Iterator::position`
unfoldable pub position : String → List String → Option ℕ
position name [] = none
position name (x ∷ xs) =
    let rest : Option ℕ = elim (position name xs) [ none ↦ none | some i ↦ some (suc i) ] in
    if x == name then some 0 else rest

-- The stack, and the renamed columns of the plans so far.
pub record Progress (D : Type 0) : Type 0 where
  pub stack : List (StackFrame D)
  pub renamed : HashMap String String

abbrev pub insert_all : List (String × String) → HashMap String String → HashMap String String
insert_all [] m = m
insert_all ((original, alias) ∷ rest) m = insert_all rest (insert original alias m)

abbrev pub pop_or {ℓ} : {A : Type ℓ} → String → List A → Fallible (A × List A)
pop_or text [] = err (status invalid_argument text)
pop_or text (x ∷ xs) = ok (x, xs)

abbrev pub invalid : String → String → Status
invalid text e = status invalid_argument (concat (text ∷ e ∷ []))

module _ {D S T M : Type 0} (frames : Frames D S T M) (fuel : ℕ) (dfs : DataFrames D) where
  -- `run_logical_plan`
  abbrev pub run_logical_plan : LogicalPlan D → Fallible D
  run_logical_plan plan =
      map_err (λ e. status internal (concat ("Could not run logical plan: " ∷ e ∷ [])))
        (frames.collect plan)

  -- One column under a function of the user.
  abbrev apply_udf : M → D → String → Fallible D
  apply_udf udf df name = do
    idx ← ok_or (position name (frames.get_column_names df)) (
        status invalid_argument
          (concat ("Could not apply udf: no column `" ∷ name ∷ "` in data frame" ∷ [])))
    series ← unwrap (frames.get_column df idx)
    tensor ← frames.series_to_tensor series
    result ← map_err (invalid "Error while running udf: ") (frames.forward_ts udf tensor)
    series' ← frames.tensor_to_series series result
    ok (frames.set_column df idx series')

  unfoldable pub apply_udfs : M → List String → D → Fallible D
  apply_udfs udf [] df = ok df
  apply_udfs udf (name ∷ names) df = do df' ← apply_udf udf df name; apply_udfs udf names df'

  unfoldable pub run_polars : LogicalPlan D → Progress D → Fallible (Progress D)
  run_polars plan p = do
    let (r, stack') = initialize_plan frames.engine fuel plan p.stack
    (plan', stats) ← r
    df ← run_logical_plan plan'
    ok (record {
      stack = record { df = df; stats = stats } ∷ stack';
      renamed = insert_all (frames.aliases plan') p.renamed;
    })

  unfoldable pub run_udf : List String → String → Progress D → Fallible (Progress D)
  run_udf columns udf p = do
    bytes ← map_err (invalid "Could not decode base64-encoded udf: ") (frames.decode udf)
    module_ ← map_err (invalid "Could not deserialize udf from bytes: ") (frames.load_data bytes)
    (frame, rest) ← pop_or "Could not apply udf: no input data frame" p.stack
    df ← apply_udfs module_ columns frame.df
    ok (record p { stack = record frame { df = df } ∷ rest })

  unfoldable pub run_entry_point : String → Progress D → Fallible (Progress D)
  run_entry_point identifier p = do
    df ← get_df_unchecked dfs identifier
    ok (record p { stack = record { df = df; stats = new identifier } ∷ p.stack })

  unfoldable pub run_stack : Progress D → Fallible (Progress D)
  run_stack p = do
    (frame1, rest) ← pop_or "Could not apply stack: no input data frame" p.stack
    (frame2, rest') ← pop_or "Could not apply stack: no df2 input data frame" rest
    df ← map_err (invalid "Error while running vstack: ") (frames.vstack frame1.df frame2.df)
    ok (record p { stack = record { df = df; stats = merge frame1.stats frame2.stats } ∷ rest' })

  unfoldable pub run_row_count : String → Progress D → Fallible (Progress D)
  run_row_count name p = do
    (frame, rest) ← pop_or "Could not apply with_row_count: no input data frame" p.stack
    df ←
        map_err (invalid "Error while running with_row_count: ")
          (frames.with_row_count frame.df name)
    ok (record p { stack = record frame { df = df } ∷ rest })

  unfoldable pub run_segment : CompositePlanSegment D → Progress D → Fallible (Progress D)
  run_segment (polars_plan_segment plan) = run_polars plan
  run_segment (udf_plan_segment columns udf) = run_udf columns udf
  run_segment (entry_point_plan_segment identifier) = run_entry_point identifier
  run_segment stack_plan_segment = run_stack
  run_segment (row_count_segment row) = run_row_count row

  unfoldable pub run_segments : List (CompositePlanSegment D) → Progress D → Fallible (Progress D)
  run_segments [] p = ok p
  run_segments (seg ∷ segs) p = do p' ← run_segment seg p; run_segments segs p'

-- What the last loop of `run` gathers over the uploaded frames.
pub record Verdict : Type 0 where
  pub policy : Policy
  pub blacklist : List String
  pub fetchable : VerificationResult

-- The new names of the columns that an artifact hides.
unfoldable pub renamed_of : List String → HashMap String String → List String
renamed_of blacklist [] = []
renamed_of blacklist ((key, val) ∷ rest) =
    let more = renamed_of blacklist rest in if contains blacklist key then val ∷ more else more

abbrev pub stricter : VerificationResult → Policy → Policy → Policy
stricter safe policy other = policy
stricter (unsafe action reason) policy other = merge_policy policy other

module _ {D : Type 0} (dfs : DataFrames D) (user : String) (renamed : HashMap String String) where
  unfoldable pub judge : DataFrameStats → Verdict → Fallible Verdict
  judge [] v = ok v
  judge ((identifier, stats) ∷ rest) v = do
    artifact ← ok_or (lookup identifier dfs) (no_dataframe identifier)
    check ←
        verify artifact.policy
          (record { stats = stats; user_id = user; df_identifier = identifier })
    judge rest (record {
      policy = stricter check v.policy artifact.policy;
      blacklist = v.blacklist ++ renamed_of artifact.blacklist renamed ++ artifact.blacklist;
      fetchable = merge_result v.fetchable check;
    })

abbrev pub lenient : Verdict
lenient = record { policy = allow_by_default; blacklist = []; fetchable = safe }

-- The one frame that the segments must leave.
abbrev pub single {ℓ} : {A : Type ℓ} → List A → Fallible A
single (x ∷ []) = ok x
single _ = err (status invalid_argument "Wrong number of input data frames")

module _ {D S T M : Type 0} (frames : Frames D S T M) (fuel : ℕ) where
  -- `CompositePlan::run`
  unfoldable pub run :
      DataFrames D → String → List (CompositePlanSegment D) → Fallible (DataFrameArtifact D)
  run dfs user_id segments = do
    plan_str ← map_err (invalid "Could not parse composite plan: ") (frames.to_string segments)
    p ← run_segments frames fuel dfs segments (record { stack = []; renamed = [] })
    frame ← single p.stack
    v ← judge dfs user_id p.renamed frame.stats lenient
    ok (record {
      dataframe = frame.df;
      policy = v.policy;
      fetchable = v.fetchable;
      blacklist = v.blacklist;
      query_details = plan_str;
    })
