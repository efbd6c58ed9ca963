-- ===== src/Polars/Stream.antt =====
-- server/bastionlab_polars/src/serialization.rs: data frames as streams of chunks.
pub mod Chunks
mod Tests
use bastionlab.Prelude.{
  ◌>>=◌, chunks, ℕ, ◌*◌, String, Bool, true, false, Option, none, some, List, [], ◌∷◌, ◌++◌,
  if◌then◌else◌, Outcome, ok, err, panic, map_err, concat,
}
use bastionlab.Common.Status.{Status, status, Fallible, invalid_argument, internal}
use bastionlab.Polars.AccessControl.{Policy, reject, unsafe}
use bastionlab.Polars.Run.{DataFrameArtifact, DataFrames, invalid}
use bastionlab.Polars.Fetch.{DelayedDataFrame, FetchStatus, ok_, pending, warning}

abbrev pub chunk_size : ℕ
chunk_size = 32 * 1024

-- protos/bastionlab_polars.proto
pub record SendChunk : Type 0 where
  pub data_ : List ℕ
  pub policy : String
  pub sanitized_columns : List String

pub data Body : Type 0 where
  data_body : List ℕ → Body
  pending_body warning_body : String → Body

-- What the server takes from `polars`, `serde_json` and `ring`: the file format of a frame, read and
-- written, the text of a policy, and the digest of bytes in hexadecimal.
pub record Codec (D : Type 0) : Type 0 where
  pub read : List ℕ → Outcome String D
  pub write : D → Outcome String (List ℕ)
  pub parse_policy : String → Outcome String Policy
  pub digest : List ℕ → String

-- What `unserialize_dataframe` gathers: the bytes, and the fields of the first chunk.
pub record Upload : Type 0 where
  pub buf : List ℕ
  pub first : Bool
  pub policy : String
  pub sanitized_columns : List String

abbrev pub receive : Upload → SendChunk → Upload
receive u chunk = record {
  buf = u.buf ++ chunk.data_;
  first = false;
  policy = if u.first then chunk.policy else u.policy;
  sanitized_columns = if u.first then chunk.sanitized_columns else u.sanitized_columns;
}

unfoldable pub receive_all : List (Fallible SendChunk) → Upload → Fallible Upload
receive_all [] u = ok u
receive_all (chunk ∷ stream) u = do c ← chunk; receive_all stream (receive u c)

-- `DataFrameArtifact::new`
unfoldable pub new_artifact : {D : Type 0} → D → Policy → List String → DataFrameArtifact D
new_artifact df policy blacklist = record {
  dataframe = df;
  policy = policy;
  fetchable = unsafe reject "DataFrames uploaded by the Data Owner are protected.";
  blacklist = blacklist;
  query_details = "uploaded dataframe";
}

abbrev pub polars_error : String → Status
polars_error e = status internal (concat ("Polars error: " ∷ e ∷ []))

module _ {D : Type 0} (codec : Codec D) where
  unfoldable pub unserialize_dataframe :
      List (Fallible SendChunk) → Fallible (DataFrameArtifact D × String)
  unserialize_dataframe stream = do
    u ← receive_all stream (record { buf = []; first = true; policy = ""; sanitized_columns = [] })
    policy ←
        map_err (invalid "Error during the parsing of the policy: ") (codec.parse_policy u.policy)
    df ← map_err (invalid "Polars error: ") (codec.read u.buf)
    ok (new_artifact df policy u.sanitized_columns, codec.digest u.buf)

  -- `hash_dataset`
  unfoldable pub hash_dataset : D → Outcome String String
  hash_dataset df = do buf ← codec.write df; ok (codec.digest buf)

  -- What is sent at once.
  unfoldable pub announced : FetchStatus → List (Fallible Body)
  announced ok_ = []
  announced (pending reason) = ok (pending_body reason) ∷ []
  announced (warning reason) = ok (warning_body reason) ∷ []

  abbrev pub data_bodies : List (List ℕ) → List (Fallible Body)
  data_bodies [] = []
  data_bodies (c ∷ cs) = ok (data_body c) ∷ data_bodies cs

  -- What the task sends once the future has a result. A future that panics ends the task.
  unfoldable pub sent_frame : Fallible D → List (Fallible Body)
  sent_frame (err e) = err e ∷ []
  sent_frame panic = []
  sent_frame (ok df) = elim (codec.write df) [
    | ok buf ↦ data_bodies (chunks chunk_size buf)
    | err e ↦ err (polars_error e) ∷ []
    | panic ↦ []
  ]

  unfoldable pub sent : Option (Fallible D) → List (Fallible Body)
  sent none = []
  sent (some r) = sent_frame r

  -- `serialize_delayed_dataframe`, to a client that listens to the end.
  unfoldable pub serialize_delayed_dataframe :
      DelayedDataFrame D → List String → DataFrames D → List (Fallible Body)
  serialize_delayed_dataframe df answers dfs =
      announced df.fetch_status ++ sent (df.future answers dfs)
