-- ===== src/Polars/Fetch.antt =====
-- server/bastionlab_polars/src/lib.rs, `get_df`, and src/utils.rs: who may fetch a data frame, the
-- owner's review, and the columns that are hidden.
pub mod Hiding
pub mod Decision
pub mod Tests
use bastionlab.Prelude.{
  ◌>>=◌, ℕ, String, ◌≡◌, Bool, true, false, ◌&&◌, ◌||◌, Option, none, some, List, [], ◌∷◌, leb, eqb,
  if◌then◌else◌, ok, err, ok_or, unwrap, ◌==◌, nat_eq, string_eq, list_eq, lookup, concat,
}
use Prim.Native.Char.{code}
use Prim.Native.String
use bastionlab.Common.Status.{Status, status, Fallible, permission_denied}
use bastionlab.Polars.AccessControl.{
  Policy, UnsafeAction, log, review, reject, VerificationResult, safe, unsafe,
}
use bastionlab.Polars.Run.{DataFrameArtifact, DataFrames, no_dataframe, position}

-- What the server takes from `polars`: the columns of a frame, and a column of nulls with the name
-- given, and with the length and the type of another (`Series::full_null`).
pub record Columns (D S : Type 0) : Type 0 where
  pub get_column_names : D → List String
  pub get_column : D → ℕ → Option S
  pub set_column : D → ℕ → S → D
  pub full_null : String → S → S

-- What the hiding of columns relies on: the name at a position has a column, `set_column` replaces
-- the one column, and a column of nulls leaves the names as they are where it bears the old name.
pub record ColumnLaws {D S : Type 0} (columns : Columns D S) : Type 0 where
  pub column_at :
      (df : D) (name : String) (i : ℕ)
      → position name (columns.get_column_names df) ≡ some i
      → (s : S) × (columns.get_column df i ≡ some s)
  pub column_set :
      (df : D) (i j : ℕ) (s t : S)
      → columns.get_column df i ≡ some t
      → columns.get_column (columns.set_column df i s) j
        ≡ (if eqb i j then some s else columns.get_column df j)
  pub names_set :
      (df : D) (name : String) (i : ℕ) (t : S)
      → position name (columns.get_column_names df) ≡ some i
      → columns.get_column_names (columns.set_column df i (columns.full_null name t))
        ≡ columns.get_column_names df

-- `White_Space` of Unicode.
abbrev is_whitespace : ℕ → Bool
is_whitespace c =
    (leb 9 c && leb c 13)
    || eqb c 32
    || eqb c 133
    || eqb c 160
    || eqb c 5760
    || (leb 8192 c && leb c 8202)
    || eqb c 8232
    || eqb c 8233
    || eqb c 8239
    || eqb c 8287
    || eqb c 12288

abbrev trim_start : String → String
trim_start String.[] = ""
trim_start (String.◌∷◌ c s) =
    let rest = trim_start s in if is_whitespace (code c) then rest else String.◌∷◌ c s

-- One character before a text whose end is trimmed already.
abbrev keep : Prim.Native.Char.Char → String → String
keep c String.[] = if is_whitespace (code c) then "" else String.◌∷◌ c ""
keep c (String.◌∷◌ d s) = String.◌∷◌ c (String.◌∷◌ d s)

abbrev trim_end : String → String
trim_end String.[] = ""
trim_end (String.◌∷◌ c s) = keep c (trim_end s)

-- `str::trim`
abbrev pub trim : String → String
trim s = trim_start (trim_end s)

-- The owner's review, over the lines read: whether the fetch is accepted, once a line decides.
unfoldable pub reviewed : List String → Option Bool
reviewed [] = none
reviewed (ans ∷ more) =
    let later = reviewed more in
    if trim ans == "y" then some true else if trim ans == "n" then some false else later

pub data FetchStatus : Type 0 where
  ok_ : FetchStatus
  pending warning : String → FetchStatus

-- `DelayedDataFrame`: its future takes the lines that the owner enters and the data frames at that
-- time, and has no result while the owner has not decided.
pub record DelayedDataFrame (D : Type 0) : Type 0 where
  pub future : List String → DataFrames D → Option (Fallible D)
  pub fetch_status : FetchStatus

abbrev pub denied : String → Status
denied reason = status permission_denied (
    concat (
      "Cannot fetch this DataFrame: operation denied by the data owner's policy\nReason: " ∷ reason
      ∷ []))

abbrev pub rejected : String → Status
rejected reason = status permission_denied (
    concat (
      "The data owner rejected the fetch operation.\nFetching a dataframe obtained with a non privacy-preserving query requires the approval of the data owner.\nThis dataframe was obtained in a non privacy-preserving fashion.\nReason: "
      ∷ reason ∷ []))

module _ {D S : Type 0} (columns : Columns D S) where
  -- One name of the blacklist.
  unfoldable pub hide_column : String → D → Fallible D
  hide_column name df = elim (position name (columns.get_column_names df)) [
    | none ↦ ok df
    | some idx ↦ do
      series ← unwrap (columns.get_column df idx)
      ok (columns.set_column df idx (columns.full_null name series))
  ]

  -- `sanitize_df`
  unfoldable pub sanitize_df : D → List String → Fallible D
  sanitize_df df [] = ok df
  sanitize_df df (name ∷ names) = do df' ← hide_column name df; sanitize_df df' names

  -- The end of an accepted review: the frame is looked up again.
  unfoldable pub release : String → DataFrames D → Fallible D
  release identifier dfs = do
    artifact ← ok_or (lookup identifier dfs) (no_dataframe identifier)
    sanitize_df artifact.dataframe artifact.blacklist

  unfoldable pub after_review : String → String → Option Bool → DataFrames D → Option (Fallible D)
  after_review identifier reason none dfs = none
  after_review identifier reason (some true) dfs = some (release identifier dfs)
  after_review identifier reason (some false) dfs = some (err (rejected reason))

  -- The frame that is given out at once.
  abbrev pub at_once : FetchStatus → Fallible D → Fallible (DelayedDataFrame D)
  at_once fetch_status sanitized = do
    df ← sanitized
    ok (record { future = λ answers dfs. some (ok df); fetch_status = fetch_status })

  unfoldable pub delayed :
      String → DataFrameArtifact D → VerificationResult → Fallible (DelayedDataFrame D)
  delayed identifier artifact safe = at_once ok_ (sanitize_df artifact.dataframe artifact.blacklist)
  delayed identifier artifact (unsafe log reason) =
      at_once (warning reason) (sanitize_df artifact.dataframe artifact.blacklist)
  delayed identifier artifact (unsafe reject reason) =
      ok (record { future = λ answers dfs. some (err (denied reason)); fetch_status = ok_ })
  delayed identifier artifact (unsafe review reason) = ok (record {
    future = λ answers dfs. after_review identifier reason (reviewed answers) dfs;
    fetch_status = pending reason;
  })

  -- `BastionLabPolars::get_df`
  unfoldable pub get_df : DataFrames D → String → Fallible (DelayedDataFrame D)
  get_df dfs identifier = do
    artifact ← ok_or (lookup identifier dfs) (no_dataframe identifier)
    delayed identifier artifact artifact.fetchable
