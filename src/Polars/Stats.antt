-- ===== src/Polars/Stats.antt =====
-- server/bastionlab_polars/src/composite_plan.rs, `DataFrameStats`: what a frame in the making owes to
-- each uploaded frame.
pub mod Merge
mod Tests
use bastionlab.Prelude.{
  ℕ, ◌*◌, min, max, String, Option, none, some, [], ◌∷◌, nat_eq, string_eq, list_eq, HashMap,
  lookup, insert,
}
use bastionlab.Polars.AccessControl.{StatsEntry, wrap}

-- `DataFrameStats`
abbrev pub DataFrameStats : Type 0
DataFrameStats = HashMap String StatsEntry

-- `DataFrameStats::new`
unfoldable pub new : String → DataFrameStats
new identifier = insert identifier (record { agg_size = 1; join_scaling = 1 }) []

-- `values_mut`
unfoldable pub map_values : (StatsEntry → StatsEntry) → DataFrameStats → DataFrameStats
map_values f [] = []
map_values f ((id, stats) ∷ rest) = (id, f stats) ∷ map_values f rest

unfoldable pub update_agg_size : ℕ → DataFrameStats → DataFrameStats
update_agg_size agg_size =
    map_values (λ stats. record stats { agg_size = wrap (stats.agg_size * agg_size) })

unfoldable pub update_join_scaling : ℕ → DataFrameStats → DataFrameStats
update_join_scaling join_scaling =
    map_values (λ stats. record stats { join_scaling = wrap (stats.join_scaling * join_scaling) })

-- An entry of both sides.
abbrev pub combine : StatsEntry → StatsEntry → StatsEntry
combine left right = record {
  agg_size = min left.agg_size right.agg_size;
  join_scaling = max left.join_scaling right.join_scaling;
}

abbrev pub meet : StatsEntry → Option StatsEntry → StatsEntry
meet left none = left
meet left (some right) = combine left right

-- The first loop of `merge`: the entries of the left side.
unfoldable pub meet_all : DataFrameStats → DataFrameStats → DataFrameStats
meet_all [] other = []
meet_all ((id, left) ∷ rest) other = (id, meet left (lookup id other)) ∷ meet_all rest other

-- Its second loop: the entries that only the right side has.
unfoldable pub add_new : DataFrameStats → DataFrameStats → DataFrameStats
add_new stats [] = stats
add_new stats ((id, right) ∷ rest) = elim (lookup id stats) [
  | none ↦ add_new (insert id right stats) rest
  | some left ↦ add_new stats rest
]

-- `DataFrameStats::merge`
unfoldable pub merge : DataFrameStats → DataFrameStats → DataFrameStats
merge stats other = add_new (meet_all stats other) other
