-- ===== src/Polars/Service/Tests.antt =====
-- The owner of `Common.Session.Tests` queries, saves and deletes the frame of `Polars.Run.Tests`.
use bastionlab.Prelude.{
  ◌≢◌, ℕ, String, ◌≡◌, ◌⊎◌, true, none, some, List, [], ◌∷◌, Outcome, ok, err, nat_eq, string_eq,
  list_eq, lookup,
}
use bastionlab.Common.Session.{Request}
use bastionlab.Common.Session.Tests.{after, address}
use bastionlab.Polars.AccessControl.{check_savable}
use bastionlab.Polars.Run.{DataFrameArtifact, CompositePlanSegment}
use bastionlab.Polars.Run.Tests.{frames, dfs, query, result, uploaded}
use bastionlab.Polars.Fetch.{Columns}
use bastionlab.Polars.Stream.{Codec}
use bastionlab.Polars.Service.{
  Server, Disk, created, delete_data_frame, persist_data_frame, path_of,
}
use bastionlab.Polars.Service.Effects.{
  IsOwner, without, delete_data_frame-IsOwner, persist_data_frame-savable,
}

abbrev columns : Columns ℕ ℕ
columns = record {
  get_column_names = λ df. [];
  get_column = λ df i. none;
  set_column = λ df i s. df;
  full_null = λ name s. s;
}

abbrev codec : Codec ℕ
codec = record {
  read = λ bytes. err "";
  write = λ df. ok (df ∷ []);
  parse_policy = λ text. err "";
  digest = λ bytes. "digest";
}

abbrev schema : ℕ → Outcome String String
schema df = ok "{}"

abbrev service : Server ℕ
service = record { dataframes = dfs; sess_manager = after; files = [] }

abbrev from_str : String → Outcome String (List (CompositePlanSegment ℕ))
from_str text = ok query

abbrev request : Request String
request = record {
  metadata = record { binary = ("accesstoken-bin", some (5 ∷ 6 ∷ [])) ∷ [] };
  remote_addr = some address;
  message = "a";
}

abbrev queried : Server ℕ
queried = record service { dataframes = ("a", uploaded) ∷ ("new", result) ∷ [] }

abbrev deleted : Server ℕ
deleted = (delete_data_frame frames columns codec schema 1 true request service).1

delete_data_frame-IsOwner_example :
    ((deleted ≡ service)
      × ((delete_data_frame frames columns codec schema 1 true request service).0 ≢ ok tt))
    ⊎ (IsOwner frames columns codec schema 1 request service
        × (deleted ≡ without frames columns codec schema 1 true "a" service)
        × (lookup "a" deleted.dataframes ≡ none)
        × (true ≡ true → lookup (path_of "a") deleted.files ≡ none))
delete_data_frame-IsOwner_example =
    delete_data_frame-IsOwner frames columns codec schema 1 true request service

abbrev disk : Disk
disk = record { create_dir = created; opens = true; fails_after = none }

abbrev to_json : DataFrameArtifact ℕ → List ℕ
to_json artifact = artifact.dataframe ∷ []

persist_data_frame-savable_example :
    ((persist_data_frame frames columns codec schema 1 disk to_json request service).1.files ≡ [])
    ⊎ ((artifact : DataFrameArtifact ℕ) × (lookup "a" dfs ≡ some artifact)
        × (check_savable artifact.policy ≡ true))
persist_data_frame-savable_example =
    persist_data_frame-savable frames columns codec schema 1 disk to_json request service
