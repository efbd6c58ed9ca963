-- ===== src/Polars/Stream/Chunks.antt =====
-- Chunks cover the bytes in order, and only a frame's own bytes are sent.
use bastionlab.Prelude.{
  ℕ, String, ◌≡◌, refl, sym, ap, ◌∙◌, ◌≢◌, inl, inr, false, Option, none, some, List, [], ◌∷◌, ◌++◌,
  append-nil, append_assoc, arith, All, ok, err, panic, Outcome-cases, nat_eq, string_eq, list_eq,
}
use bastionlab.Prelude.{chunks, joined, Sized, joined-chunks}
use bastionlab.Common.Status.{Fallible}
use bastionlab.Polars.AccessControl.{Policy, unsafe, reject}
use bastionlab.Polars.Run.{DataFrames}
use bastionlab.Polars.Fetch.{Columns, DelayedDataFrame, get_df, FetchStatus, ok_, pending, warning}
use bastionlab.Polars.Fetch.Decision.{Released, get_df-Released}
use bastionlab.Polars.Stream.{
  chunk_size, SendChunk, Body, data_body, pending_body, warning_body, Codec, Upload, receive_all,
  new_artifact, unserialize_dataframe, announced, data_bodies, sent_frame, sent,
  serialize_delayed_dataframe,
}

-- The data that a stream carries.
abbrev pub data_of : List (Fallible Body) → List (List ℕ)
data_of [] = []
data_of (ok (data_body c) ∷ rest) = c ∷ data_of rest
data_of (ok (pending_body reason) ∷ rest) = data_of rest
data_of (ok (warning_body reason) ∷ rest) = data_of rest
data_of (err e ∷ rest) = data_of rest
data_of (panic ∷ rest) = data_of rest

module _ {D : Type 0} (codec : Codec D) where
  data_of-data_bodies : (cs : List (List ℕ)) → data_of (data_bodies codec cs) ≡ cs
  data_of-data_bodies [] = refl
  data_of-data_bodies (c ∷ cs) = ap (λ ds. c ∷ ds) (data_of-data_bodies cs)

  data_of-announced :
      (fetch_status : FetchStatus) (rest : List (Fallible Body))
      → data_of (announced codec fetch_status ++ rest) ≡ data_of rest
  unfolding announced
  data_of-announced ok_ rest = refl
  data_of-announced (pending reason) rest = refl
  data_of-announced (warning reason) rest = refl

  -- The data that a client is sent for a frame, put together, is the frame in its file format. Each
  -- chunk has data, and no more than the size of a chunk.
  pub serialize_delayed_dataframe-joined :
      (d : DelayedDataFrame D) (answers : List String) (dfs : DataFrames D) (df : D) (buf : List ℕ)
      → d.future answers dfs ≡ some (ok df)
      → codec.write df ≡ ok buf
      → let bodies = data_of (serialize_delayed_dataframe codec d answers dfs) in
        (joined bodies ≡ buf) × All (Sized chunk_size) bodies
  unfolding serialize_delayed_dataframe sent sent_frame
  serialize_delayed_dataframe-joined d answers dfs df buf e f =
      rw
        (
          data_of-announced d.fetch_status (sent codec (d.future answers dfs)),
          e,
          sent,
          sent_frame,
          f,
          data_of-data_bodies (chunks chunk_size buf),
        )
        (joined-chunks chunk_size buf (omega arith))

  sent_inv :
      (r : Option (Fallible D))
      → data_of (sent codec r) ≢ []
      → (df : D) × (buf : List ℕ) × (r ≡ some (ok df)) × (codec.write df ≡ ok buf)
  unfolding sent sent_frame
  sent_inv none h = absurd (h refl)
  sent_inv (some (err e)) h = absurd (h refl)
  sent_inv (some panic) h = absurd (h refl)
  sent_inv (some (ok df)) h = elim (Outcome-cases (codec.write df)) [
    | inl (buf, e) ↦ (df, buf, refl, e)
    | inr (inl (x, e)) ↦ absurd (h (rw (e, sent, sent_frame, data_of) refl))
    | inr (inr e) ↦ absurd (h (rw (e, sent, sent_frame, data_of) refl))
  ]

  -- A client that fetches a frame gets data only if the frame may be given out to it; and the data is
  -- then that of the stored frame with the columns of its blacklist hidden.
  pub fetch-Released :
      {S : Type 0} (columns : Columns D S) (dfs later : DataFrames D) (identifier : String)
      (answers : List String) (d : DelayedDataFrame D)
      → get_df columns dfs identifier ≡ ok d
      → data_of (serialize_delayed_dataframe codec d answers later) ≢ []
      → (df : D) × Released columns dfs later identifier answers df
        × (codec.write df
            ≡ ok (joined (data_of (serialize_delayed_dataframe codec d answers later))))
  unfolding serialize_delayed_dataframe
  fetch-Released columns dfs later identifier answers d e h =
      let (df, buf, f, g) =
        sent_inv (d.future answers later)
          (λ none_sent. h (data_of-announced d.fetch_status _ ∙ none_sent)) in
      let (whole, sized) = serialize_delayed_dataframe-joined d answers later df buf f g in
      (df, get_df-Released columns dfs later identifier answers d df e f, g ∙ ap ok (sym whole))

  abbrev pub arrived : List SendChunk → List (Fallible SendChunk)
  arrived [] = []
  arrived (c ∷ cs) = ok c ∷ arrived cs

  abbrev pub bytes_of : List SendChunk → List (List ℕ)
  bytes_of [] = []
  bytes_of (c ∷ cs) = c.data_ ∷ bytes_of cs

  -- After the first chunk.
  abbrev so_far : List ℕ → SendChunk → Upload
  so_far buf c = record {
    buf = buf;
    first = false;
    policy = c.policy;
    sanitized_columns = c.sanitized_columns;
  }

  receive_all-arrived :
      (cs : List SendChunk) (buf : List ℕ) (c : SendChunk)
      → receive_all (arrived cs) (so_far buf c) ≡ ok (so_far (buf ++ joined (bytes_of cs)) c)
  unfolding receive_all
  receive_all-arrived [] buf c = ap (λ b. ok (so_far b c)) (sym (append-nil buf))
  receive_all-arrived (x ∷ cs) buf c =
      receive_all-arrived cs (buf ++ x.data_) c
      ∙ ap (λ b. ok (so_far b c)) (append_assoc buf x.data_ (joined (bytes_of cs)))

  -- An upload gives the frame that its bytes encode, with the policy and the blacklist of its first
  -- chunk, however the bytes were cut into chunks. What a fetch of it comes to is a rejection. The
  -- encodings of the policy and of the frame are assumed to be read.
  pub unserialize_dataframe-joined :
      (c : SendChunk) (cs : List SendChunk) (policy : Policy) (df : D)
      → codec.parse_policy c.policy ≡ ok policy
      → codec.read (joined (bytes_of (c ∷ cs))) ≡ ok df
      → unserialize_dataframe codec (arrived (c ∷ cs))
        ≡ ok (
          record {
            dataframe = df;
            policy = policy;
            fetchable = unsafe reject "DataFrames uploaded by the Data Owner are protected.";
            blacklist = c.sanitized_columns;
            query_details = "uploaded dataframe";
          },
          codec.digest (joined (bytes_of (c ∷ cs))),
        )
  unfolding unserialize_dataframe receive_all new_artifact
  unserialize_dataframe-joined c cs policy df e f =
      rw (receive_all-arrived cs c.data_ c, unserialize_dataframe, receive_all) (rw (e, f) refl)
