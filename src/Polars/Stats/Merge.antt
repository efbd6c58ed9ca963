-- ===== src/Polars/Stats/Merge.antt =====
-- The merge of two tables, entry by entry.
use bastionlab.Prelude.{
  ℕ, ◌*◌, min, max, String, ◌≡◌, refl, sym, ap, ◌∙◌, Option, none, some, [], ◌∷◌, arith, ==_iff,
  nat_eq, string_eq, list_eq, lookup, insert, lookup-insert, or_else,
}
use bastionlab.Polars.AccessControl.{StatsEntry, wrap}
use bastionlab.Polars.Stats.{
  DataFrameStats, map_values, update_agg_size, update_join_scaling, meet, meet_all, add_new, merge,
}

-- What the merge of two tables must have for a frame: an entry that only one side has, and of two
-- entries the smaller aggregation and the larger scaling.
abbrev pub joined : Option StatsEntry → Option StatsEntry → Option StatsEntry
joined none o = o
joined (some left) none = some left
joined (some left) (some right) = some (record {
  agg_size = min left.agg_size right.agg_size;
  join_scaling = max left.join_scaling right.join_scaling;
})

lookup-meet_all :
    (k : String) (stats other : DataFrameStats)
    → lookup k (meet_all stats other)
      ≡ (elim (lookup k stats) [ none ↦ none | some l ↦ some (meet l (lookup k other)) ])
unfolding lookup meet_all
lookup-meet_all k [] other = refl
lookup-meet_all k ((j, l) ∷ rest) other = ground (arith, ==_iff j k, lookup-meet_all k rest other)

lookup-add_new :
    (k : String) (stats other : DataFrameStats)
    → lookup k (add_new stats other) ≡ or_else (lookup k stats) (lookup k other)
unfolding lookup add_new
lookup-add_new k stats [] = ground arith
lookup-add_new k stats ((j, r) ∷ rest) = ground (
  arith,
  ==_iff j k,
  lookup-insert j k r stats,
  lookup-add_new k stats rest,
  lookup-add_new k (insert j r stats) rest,
)

-- `merge`, entry by entry: what only one side knows is kept, and of what both know the smaller
-- aggregation and the larger scaling.
pub lookup-merge :
    (k : String) (stats other : DataFrameStats)
    → lookup k (merge stats other) ≡ joined (lookup k stats) (lookup k other)
unfolding merge
lookup-merge k stats other =
    lookup-add_new k (meet_all stats other) other
    ∙ ap (λ o. or_else o (lookup k other)) (lookup-meet_all k stats other)
    ∙ entry (lookup k stats) (lookup k other)
  where
    entry :
        (l o : Option StatsEntry)
        → or_else (elim l [ none ↦ none | some e ↦ some (meet e o) ]) o ≡ joined l o
    entry none o = refl
    entry (some e) none = refl
    entry (some e) (some r) = refl

joined_comm : (a b : Option StatsEntry) → joined a b ≡ joined b a
joined_comm none none = refl
joined_comm none (some r) = refl
joined_comm (some l) none = refl
joined_comm (some l) (some r) = ap some (λ i. record {
  agg_size = min_comm l.agg_size r.agg_size i;
  join_scaling = max_comm l.join_scaling r.join_scaling i;
})
  where
    min_comm : (a b : ℕ) → min a b ≡ min b a
    min_comm a b = omega arith

    max_comm : (a b : ℕ) → max a b ≡ max b a
    max_comm a b = omega arith

-- So the order in which two tables are merged does not matter.
pub merge_comm : (k : String) (a b : DataFrameStats) → lookup k (merge a b) ≡ lookup k (merge b a)
merge_comm k a b =
    lookup-merge k a b ∙ joined_comm (lookup k a) (lookup k b) ∙ sym (lookup-merge k b a)

lookup-map_values :
    (f : StatsEntry → StatsEntry) (k : String) (stats : DataFrameStats)
    → lookup k (map_values f stats)
      ≡ (elim (lookup k stats) [ none ↦ none | some entry ↦ some (f entry) ])
unfolding lookup map_values
lookup-map_values f k [] = refl
lookup-map_values f k ((j, entry) ∷ rest) = ground (arith, ==_iff j k, lookup-map_values f k rest)

-- Updates keep the set of frames, and scale each entry.
pub lookup-update_agg_size :
    (k : String) (n : ℕ) (stats : DataFrameStats)
    → lookup k (update_agg_size n stats) ≡ (elim (lookup k stats) [
      | none ↦ none
      | some entry ↦ some (record entry { agg_size = wrap (entry.agg_size * n) })
    ])
unfolding update_agg_size
lookup-update_agg_size k n stats = lookup-map_values _ k stats

pub lookup-update_join_scaling :
    (k : String) (n : ℕ) (stats : DataFrameStats)
    → lookup k (update_join_scaling n stats) ≡ (elim (lookup k stats) [
      | none ↦ none
      | some entry ↦ some (record entry { join_scaling = wrap (entry.join_scaling * n) })
    ])
unfolding update_join_scaling
lookup-update_join_scaling k n stats = lookup-map_values _ k stats
