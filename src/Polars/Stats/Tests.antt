-- ===== src/Polars/Stats/Tests.antt =====
-- Two tables that share a frame.
use bastionlab.Prelude.{◌≡◌, some, [], ◌∷◌, nat_eq, string_eq, list_eq, lookup}
use bastionlab.Polars.Stats.{DataFrameStats, merge}
use bastionlab.Polars.Stats.Merge.{lookup-merge}

abbrev ours : DataFrameStats
ours = ("a", record { agg_size = 5; join_scaling = 1 }) ∷ []

abbrev theirs : DataFrameStats
theirs =
    ("a", record { agg_size = 3; join_scaling = 4 })
    ∷ ("b", record { agg_size = 1; join_scaling = 1 })
    ∷ []

lookup-merge_example :
    lookup "a" (merge ours theirs) ≡ some (record { agg_size = 3; join_scaling = 4 })
unfolding lookup
lookup-merge_example = lookup-merge "a" ours theirs
