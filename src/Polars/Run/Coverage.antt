-- ===== src/Polars/Run/Coverage.antt =====
-- Every uploaded frame that a query reads is judged.
use bastionlab.Prelude.{
  ℕ, String, ◌≡◌, HashMap, Bool, true, false, ◌||◌, List, [], ◌∷◌, ok, ◌==◌, nat_eq, string_eq,
  list_eq,
}
use bastionlab.Common.Status.{Fallible}
use bastionlab.Polars.Plan.{StackFrame}
use bastionlab.Polars.Plan.Provenance.{in_frames}
use bastionlab.Polars.Run.{
  DataFrameArtifact, DataFrames, CompositePlanSegment, entry_point_plan_segment, Frames, Progress,
  run_segments,
}

abbrev pub names : {D : Type 0} → String → List (CompositePlanSegment D) → Bool
names k [] = false
names k (entry_point_plan_segment identifier ∷ segs) = (identifier == k) || names k segs
names k (seg ∷ segs) = names k segs

module _ {D S T M : Type 0} (frames : Frames D S T M) (fuel : ℕ) (dfs : DataFrames D)
    (k : String) where
  -- A step that keeps every frame that the stack knows.
  record Keeps (step : Progress D → Fallible (Progress D)) : Type 0 where
    kept :
        (p : Progress D) {p' : Progress D}
        → step p ≡ ok p'
        → in_frames k p.stack ≡ true
        → in_frames k p'.stack ≡ true

module _ {D S T M : Type 0} (frames : Frames D S T M) (fuel : ℕ) where
  -- What a query came to: the segments left one frame, whose data are the result's, with the
  -- statistics of what they did with each uploaded frame, and the columns that they renamed.
  pub record Traced (dfs : DataFrames D) (segs : List (CompositePlanSegment D))
      (result : DataFrameArtifact D) : Type 0 where
    pub frame : StackFrame D
    pub renamed : HashMap String String
    pub left :
        run_segments frames fuel dfs segs (record { stack = []; renamed = [] })
        ≡ ok (record { stack = frame ∷ []; renamed = renamed })
    pub returned : result.dataframe ≡ frame.df
