-- ===== src/Polars/Fetch/Tests.antt =====
-- Frames as lists of named columns, and an artifact that waits for the owner's review.
use bastionlab.Prelude.{
  ℕ, zero, suc, String, ◌≡◌, refl, sym, ap, Option, none, some, List, [], ◌∷◌, arith, eqb,
  if◌then◌else◌, ok, nat_eq, string_eq, list_eq, lookup,
}
use bastionlab.Polars.AccessControl.{review, unsafe, allow_by_default}
use bastionlab.Polars.Run.{DataFrameArtifact, DataFrames, position}
use bastionlab.Polars.Fetch.{
  Columns, ColumnLaws, hide_column, sanitize_df, reviewed, DelayedDataFrame, delayed, get_df,
  release, after_review, pending,
}
use bastionlab.Polars.Fetch.Hiding.{Hides, sanitize_df-Hides, position-suc, position-zero}
use bastionlab.Polars.Fetch.Decision.{Released, get_df-Released}

abbrev pub Series : Type 0
Series = String × List (Option ℕ)

abbrev pub Frame : Type 0
Frame = List Series

abbrev pub names : Frame → List String
names [] = []
names ((name, values) ∷ rest) = name ∷ names rest

abbrev pub column : Frame → ℕ → Option Series
column [] i = none
column (s ∷ rest) zero = some s
column (s ∷ rest) (suc i) = column rest i

abbrev pub replace : Frame → ℕ → Series → Frame
replace [] i s = []
replace (t ∷ rest) zero s = s ∷ rest
replace (t ∷ rest) (suc i) s = t ∷ replace rest i s

abbrev pub nulls : List (Option ℕ) → List (Option ℕ)
nulls [] = []
nulls (v ∷ vs) = none ∷ nulls vs

abbrev pub columns : Columns Frame Series
columns = record {
  get_column_names = names;
  get_column = column;
  set_column = replace;
  full_null = λ name s. (name, nulls s.1);
}

column_at :
    (df : Frame) (name : String) (i : ℕ)
    → position name (names df) ≡ some i
    → (s : Series) × (column df i ≡ some s)
unfolding position
column_at [] name i h = cc
column_at (s ∷ rest) name zero h = (s, refl)
column_at ((x, vs) ∷ rest) name (suc i) h =
    column_at rest name i (position-suc name x (names rest) i h)

column_set :
    (df : Frame) (i j : ℕ) (s t : Series)
    → column df i ≡ some t
    → column (replace df i s) j ≡ (if eqb i j then some s else column df j)
column_set [] i j s t h = cc
column_set (x ∷ rest) zero zero s t h = ground arith
column_set (x ∷ rest) zero (suc j) s t h = ground arith
column_set (x ∷ rest) (suc i) zero s t h = ground arith
column_set (x ∷ rest) (suc i) (suc j) s t h = ground (arith, column_set rest i j s t h)

names_set :
    (df : Frame) (name : String) (i : ℕ) (t : Series)
    → position name (names df) ≡ some i
    → names (replace df i (name, nulls t.1)) ≡ names df
names_set [] name i t h = refl
names_set ((x, vs) ∷ rest) name zero t h =
    ap (λ n. n ∷ names rest) (sym (position-zero name x (names rest) h))
names_set ((x, vs) ∷ rest) name (suc i) t h =
    ap (λ ns. x ∷ ns) (names_set rest name i t (position-suc name x (names rest) i h))

laws : ColumnLaws columns
laws = record { column_at = column_at; column_set = column_set; names_set = names_set }

abbrev pub frame : Frame
frame = ("name", none ∷ []) ∷ ("age", some 41 ∷ []) ∷ []

sanitize_df-Hides_example :
    (df' : Frame) × (sanitize_df columns frame ("age" ∷ "town" ∷ []) ≡ ok df')
    × Hides columns laws frame df' ("age" ∷ "town" ∷ [])
sanitize_df-Hides_example = sanitize_df-Hides columns laws frame ("age" ∷ "town" ∷ [])

abbrev pub artifact : DataFrameArtifact Frame
artifact = record {
  dataframe = frame;
  policy = allow_by_default;
  fetchable = unsafe review "Only 0 rows";
  blacklist = "age" ∷ [];
  query_details = "[]";
}

abbrev pub dfs : DataFrames Frame
dfs = ("id", artifact) ∷ []

abbrev pub waiting : DelayedDataFrame Frame
waiting = record {
  future = λ answers later. after_review columns "id" "Only 0 rows" (reviewed answers) later;
  fetch_status = pending "Only 0 rows";
}

pub asked : get_df columns dfs "id" ≡ ok waiting
unfolding get_df delayed lookup
asked = refl

abbrev pub answers : List String
answers = "what?\n" ∷ "s\n" ∷ " y\n" ∷ []

pub accepted :
    waiting.future answers dfs ≡ some (ok (("name", none ∷ []) ∷ ("age", none ∷ []) ∷ []))
unfolding after_review reviewed release lookup sanitize_df hide_column position
accepted = refl

get_df-Released_example :
    Released columns dfs dfs "id" answers (("name", none ∷ []) ∷ ("age", none ∷ []) ∷ [])
get_df-Released_example = get_df-Released columns dfs dfs "id" answers waiting _ asked accepted
