-- ===== src/Polars/Service.antt =====
-- server/bastionlab_polars/src/lib.rs: the handlers of the data frame service.
pub mod Effects
mod Tests
use bastionlab.Prelude.{
  ℕ, String, Bool, true, false, not, Option, none, some, List, [], ◌∷◌, ◌++◌, if◌then◌else◌, length,
  take, drop, Outcome, ok, err, panic, ok_or, ensure, nat_eq, string_eq, list_eq, HashMap, lookup,
  insert, erase, concat,
}
use bastionlab.Common.Status.{
  Status, status, Fallible, invalid_argument, internal, unknown, not_found,
}
use bastionlab.Common.Action.{Action, pure, raise, lift, gets, modify, ◌>>=◌, ◌>>◌}
use bastionlab.Common.Session.{
  SessionManager, Request, get_token, get_user_id, get_client_info, verify_if_owner,
}
use bastionlab.Polars.AccessControl.{check_savable}
use bastionlab.Polars.Run.{
  DataFrameArtifact, DataFrames, CompositePlanSegment, Frames, no_dataframe, run,
}
use bastionlab.Polars.Query.{get_df_header, answer}
use bastionlab.Polars.Fetch.{Columns, DelayedDataFrame, get_df}
use bastionlab.Polars.Stream.{Codec, SendChunk, unserialize_dataframe, hash_dataset}

-- The state of the service: `BastionLabPolars` without its arrays, and the files of `data_frames`
-- by their names.
pub record Server (D : Type 0) : Type 0 where
  pub dataframes : DataFrames D
  pub sess_manager : SessionManager
  pub files : HashMap String (List ℕ)

-- What `create_dir`, the opening of a file and the writing to it come to.
pub data CreateDir : Type 0 where
  created already_exists : CreateDir
  failed : String → CreateDir

pub record Disk : Type 0 where
  pub create_dir : CreateDir
  pub opens : Bool
  pub fails_after : Option ℕ

pub record ReferenceResponse : Type 0 where
  pub identifier : String
  pub header : String

-- An existing file is overwritten from its start, and keeps what it has beyond the new bytes.
abbrev pub overwrite : List ℕ → List ℕ → List ℕ
overwrite bytes old = bytes ++ drop (length bytes) old

-- What a write leaves that fails after some bytes, or not at all.
abbrev written : List ℕ → Option ℕ → List ℕ
written bytes none = bytes
written bytes (some n) = take n bytes

abbrev is_none : Option ℕ → Bool
is_none none = true
is_none (some n) = false

abbrev contents : Option (List ℕ) → List ℕ
contents none = []
contents (some old) = old

abbrev pub path_of : String → String
path_of identifier = concat ("data_frames/" ∷ identifier ∷ ".json" ∷ [])

abbrev made_dir : CreateDir → Fallible (Unit {0})
made_dir created = ok tt
made_dir already_exists = ok tt
made_dir (failed kind) = err (status unknown kind)

module _ {D : Type 0} where
  -- `Uuid::new_v4` gives the identifier.
  unfoldable pub insert_df : String → DataFrameArtifact D → Action (Server D) String
  insert_df uuid df = do
    modify (λ s. record s { dataframes = insert uuid df s.dataframes })
    pure uuid

  unfoldable pub persist_df :
      Disk → (DataFrameArtifact D → List ℕ) → String → Action (Server D) (Unit {0})
  persist_df disk to_json identifier = do
    dfs ← gets (λ s. s.dataframes)
    artifact ← lift (ok_or (lookup identifier dfs) (status not_found "Unable to find dataframe!"))
    lift (ensure (check_savable artifact.policy) (status unknown "Dataframe is not savable"))
    lift (made_dir disk.create_dir)
    lift (ensure disk.opens (status internal "Unable to find or create storage file!"))
    modify (λ s. record s {
      files =
          insert (path_of identifier)
            (overwrite (written (to_json artifact) disk.fails_after)
              (contents (lookup (path_of identifier) s.files)))
            s.files;
    })
    lift (
        ensure (is_none disk.fails_after)
          (status internal "Could not serialize dataframe artifact!"))

  -- `delete_dfs`. Whether `remove_file` succeeds is for the file system to say; its failure is
  -- ignored.
  unfoldable pub delete_dfs : Bool → String → Action (Server D) (Unit {0})
  delete_dfs removes identifier = do
    modify (λ s. record s { dataframes = erase identifier s.dataframes })
    modify
        (λ s. record s { files = if removes then erase (path_of identifier) s.files else s.files })

module _ {D S T M : Type 0} (frames : Frames D S T M) (columns : Columns D S) (codec : Codec D)
    (schema : D → Outcome String String) (fuel : ℕ) where
  unfoldable pub get_header : DataFrames D → String → Fallible String
  get_header dfs identifier = elim (lookup identifier dfs) [
    | none ↦ err (no_dataframe identifier)
    | some artifact ↦ get_df_header schema artifact.dataframe
  ]

  unfoldable pub get_headers : DataFrames D → Fallible (List ReferenceResponse)
  get_headers [] = ok []
  get_headers ((k, v) ∷ rest) =
      let more = get_headers rest in
      elim (get_df_header schema v.dataframe) [
        | ok header ↦ elim more [
          | ok list ↦ ok (record { identifier = k; header = header } ∷ list)
          | err e ↦ err e
          | panic ↦ panic
        ]
        | err e ↦ err e
        | panic ↦ panic
      ]

  -- `run_query`, with what `serde_json` makes of the text of the plan.
  unfoldable pub run_query :
      (String → Outcome String (List (CompositePlanSegment D)))
      → String
      → Request String
      → Action (Server D) ReferenceResponse
  run_query from_str uuid request = do
    sess ← gets (λ s. s.sess_manager)
    dfs ← gets (λ s. s.dataframes)
    (token, res, header) ← lift (answer frames codec schema fuel from_str sess dfs request)
    identifier ← insert_df uuid res
    info ← lift (get_client_info sess token)
    pure (record { identifier = identifier; header = header })

  unfoldable pub send_data_frame :
      String → Request (List (Fallible SendChunk)) → Action (Server D) ReferenceResponse
  send_data_frame uuid request = do
    sess ← gets (λ s. s.sess_manager)
    token ← lift (get_token sess request)
    info ← lift (get_client_info sess token)
    (df, hash) ← lift (unserialize_dataframe codec request.message)
    header ← lift (get_df_header schema df.dataframe)
    identifier ← insert_df uuid df
    pure (record { identifier = identifier; header = header })

  unfoldable pub fetch_data_frame : Request String → Action (Server D) (DelayedDataFrame D)
  fetch_data_frame request = do
    sess ← gets (λ s. s.sess_manager)
    token ← lift (get_token sess request)
    info ← lift (get_client_info sess token)
    dfs ← gets (λ s. s.dataframes)
    lift (get_df columns dfs request.message)

  unfoldable pub list_data_frames : Request (Unit {0}) → Action (Server D) (List ReferenceResponse)
  list_data_frames request = do
    sess ← gets (λ s. s.sess_manager)
    token ← lift (get_token sess request)
    dfs ← gets (λ s. s.dataframes)
    list ← lift (get_headers dfs)
    info ← lift (get_client_info sess token)
    pure list

  unfoldable pub get_data_frame_header : Request String → Action (Server D) ReferenceResponse
  get_data_frame_header request = do
    sess ← gets (λ s. s.sess_manager)
    token ← lift (get_token sess request)
    dfs ← gets (λ s. s.dataframes)
    header ← lift (get_header dfs request.message)
    info ← lift (get_client_info sess token)
    pure (record { identifier = request.message; header = header })

  unfoldable pub persist_data_frame :
      Disk → (DataFrameArtifact D → List ℕ) → Request String → Action (Server D) (Unit {0})
  persist_data_frame disk to_json request = do
    sess ← gets (λ s. s.sess_manager)
    token ← lift (get_token sess request)
    persist_df disk to_json request.message
    info ← lift (get_client_info sess token)
    pure tt

  unfoldable pub delete_data_frame : Bool → Request String → Action (Server D) (Unit {0})
  delete_data_frame removes request = do
    sess ← gets (λ s. s.sess_manager)
    token ← lift (get_token sess request)
    user_id ← lift (get_user_id sess token)
    owner_check ← lift (verify_if_owner sess user_id)
    if owner_check
        then delete_dfs removes request.message
        else raise (status internal "Only data owners can delete dataframes.")
    info ← lift (get_client_info sess token)
    pure tt
