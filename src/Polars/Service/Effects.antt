-- ===== src/Polars/Service/Effects.antt =====
-- What the handlers change.
use bastionlab.Prelude.{
  ℕ, String, ◌≡◌, ◌≢◌, refl, ◌⊎◌, inl, inr, Bool, true, if◌then◌else◌, erase, Option, none, some,
  List, arith, Bool-cases, Option-cases, Outcome, ok, Outcome-cases, nat_eq, string_eq, list_eq,
  lookup, insert, lookup-erase, beq_refl,
}
use bastionlab.Common.Auth.{KeyManagement, verify_owner}
use bastionlab.Common.Session.{Request, get_token, get_user_id, get_client_info, verify_if_owner}
use bastionlab.Polars.AccessControl.{check_savable}
use bastionlab.Polars.Run.{DataFrameArtifact, CompositePlanSegment, Frames}
use bastionlab.Polars.Fetch.{Columns}
use bastionlab.Polars.Stream.{Codec}
use bastionlab.Polars.Query.{Answered}
use bastionlab.Polars.Service.{
  Server, Disk, persist_df, delete_dfs, delete_data_frame, persist_data_frame, path_of,
}

module _ {D S T M : Type 0} (frames : Frames D S T M) (columns : Columns D S) (codec : Codec D)
    (schema : D → Outcome String String) (fuel : ℕ) where
  -- What a query that was answered leaves.
  pub record Stored (from_str : String → Outcome String (List (CompositePlanSegment D)))
      (request : Request String) (s s' : Server D) (identifier : String) : Type 0 where
    pub token : Option (List ℕ)
    pub result : DataFrameArtifact D
    pub answered :
        Answered frames codec schema fuel from_str s.sess_manager s.dataframes request token result
    pub state : s' ≡ record s { dataframes = insert identifier result s.dataframes }

  -- Who may delete: on a server with keys, the user of a session, with an owner's key.
  pub record IsOwner (request : Request String) (s : Server D) : Type 0 where
    pub keys : KeyManagement
    pub token : Option (List ℕ)
    pub user : String
    pub locked : s.sess_manager.keys ≡ some keys
    pub named : get_token s.sess_manager request ≡ ok token
    pub held : get_user_id s.sess_manager token ≡ ok user
    pub owns : verify_owner keys user ≡ true

  -- The state without a frame, and without its file where the file system removes it.
  abbrev pub without : Bool → String → Server D → Server D
  without removes identifier s = record s {
    dataframes = erase identifier s.dataframes;
    files = if removes then erase (path_of identifier) s.files else s.files;
  }

  delete_data_frame-state :
      (removes : Bool) (request : Request String) (s : Server D)
      → (((delete_data_frame frames columns codec schema fuel removes request s).1 ≡ s)
          × ((delete_data_frame frames columns codec schema fuel removes request s).0 ≢ ok tt))
        ⊎ (IsOwner request s
            × ((delete_data_frame frames columns codec schema fuel removes request s).1
                ≡ without removes request.message s))
  unfolding delete_data_frame delete_dfs verify_if_owner
  delete_data_frame-state removes request s =
      elim (Outcome-cases (get_token s.sess_manager request)) [
        | inl (token, e) ↦ elim (Outcome-cases (get_user_id s.sess_manager token)) [
          | inl (user, f) ↦ elim (Option-cases s.sess_manager.keys) [
            | inl g ↦ inl (rw (e, f, g) (refl, λ h. cc))
            | inr (keys, g) ↦ elim (Bool-cases (verify_owner keys user)) [
              | inl owner ↦ inr (
                record {
                  keys = keys;
                  token = token;
                  user = user;
                  locked = g;
                  named = e;
                  held = f;
                  owns = owner;
                },
                elim (Outcome-cases (get_client_info s.sess_manager token)) [
                  | inl (info, k) ↦ rw (e, f, k, g, owner) refl
                  | inr (inl (x, k)) ↦ rw (e, f, k, g, owner) refl
                  | inr (inr k) ↦ rw (e, f, k, g, owner) refl
                ],
              )
              | inr guest ↦ inl (rw (e, f, g, guest) (refl, λ h. cc))
            ]
          ]
          | inr (inl (x, f)) ↦ inl (rw (e, f) (refl, λ h. cc))
          | inr (inr f) ↦ inl (rw (e, f) (refl, λ h. cc))
        ]
        | inr (inl (x, e)) ↦ inl (rw e (refl, λ h. cc))
        | inr (inr e) ↦ inl (rw e (refl, λ h. cc))
      ]

  -- A request to delete a frame, whatever is replied to it, either changes nothing and is refused, or
  -- is made on a server with keys for a user whose key is an owner's. The frame is gone then, nothing
  -- else changes but the frame's file, and that is gone too if the file system removes it.
  pub delete_data_frame-IsOwner :
      (removes : Bool) (request : Request String) (s : Server D)
      → let (r, s') = delete_data_frame frames columns codec schema fuel removes request s in
        ((s' ≡ s) × (r ≢ ok tt))
        ⊎ (IsOwner request s
            × (s' ≡ without removes request.message s)
            × (lookup request.message s'.dataframes ≡ none)
            × (removes ≡ true → lookup (path_of request.message) s'.files ≡ none))
  delete_data_frame-IsOwner removes request s = elim (delete_data_frame-state removes request s) [
    | inl same ↦ inl same
    | inr (owner, e) ↦ inr (
      owner,
      e,
      rw e (
          rw (lookup-erase request.message request.message s.dataframes, beq_refl request.message)
            refl),
      λ t.
          rw (e, t)
            (rw
              (
                lookup-erase (path_of request.message) (path_of request.message) s.files,
                beq_refl (path_of request.message),
              )
              refl),
    )
  ]

  -- A frame is saved only if its policy allows that.
  pub persist_data_frame-savable :
      (disk : Disk) (to_json : DataFrameArtifact D → List ℕ) (request : Request String)
      (s : Server D)
      → ((persist_data_frame frames columns codec schema fuel disk to_json request s).1.files
          ≡ s.files)
        ⊎ ((artifact : DataFrameArtifact D) × (lookup request.message s.dataframes ≡ some artifact)
            × (check_savable artifact.policy ≡ true))
  unfolding persist_data_frame persist_df
  persist_data_frame-savable disk to_json request s =
      elim (Outcome-cases (get_token s.sess_manager request)) [
        | inl (token, e) ↦ elim (Option-cases (lookup request.message s.dataframes)) [
          | inl f ↦ inl (ground arith)
          | inr (artifact, f) ↦ elim (Bool-cases (check_savable artifact.policy)) [
            | inl g ↦ inr (artifact, f, g)
            | inr g ↦ inl (ground arith)
          ]
        ]
        | inr (inl (x, e)) ↦ inl (ground arith)
        | inr (inr e) ↦ inl (ground arith)
      ]
