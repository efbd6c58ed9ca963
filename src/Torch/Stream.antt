-- ===== src/Torch/Stream.antt =====
-- server/bastionlab_torch/src/storage.rs and serialization.rs: artifacts, and how they are streamed.
pub mod RoundTrip
mod Tests
use bastionlab.Prelude.{
  ◌>>=◌, ℕ, ◌+◌, String, Bool, true, false, Option, none, List, [], ◌∷◌, ◌++◌, eqb, if◌then◌else◌,
  Outcome, ok, map_err, chunks, concat,
}
use bastionlab.Common.Status.{Status, status, Fallible, internal}
use bastionlab.Common.Session.{ClientInfo}
use bastionlab.Learning.Bytes.{SizedObjectsBytes, TchError}

-- `Artifact`, with a key `K` of `hmac`.
pub record Artifact (K : Type 0) (A : Type 0) : Type 0 where
  pub data_ : A
  pub name : String
  pub description : String
  pub secret : K
  pub meta : List ℕ
  pub client_info : Option ClientInfo

abbrev pub with_data : {K A B : Type 0} → Artifact K A → B → Artifact K B
with_data artifact new_data = record {
  data_ = new_data;
  name = artifact.name;
  description = artifact.description;
  secret = artifact.secret;
  meta = artifact.meta;
  client_info = artifact.client_info;
}

module _ {K A : Type 0} where
  -- `Artifact::serialize` and `Artifact::deserialize`, with the conversions of their data.
  unfoldable pub serialize :
      (A → Outcome TchError SizedObjectsBytes)
      → Artifact K A
      → Outcome TchError (Artifact K SizedObjectsBytes)
  serialize try_into artifact = do bytes ← try_into artifact.data_; ok (with_data artifact bytes)

  unfoldable pub deserialize :
      (SizedObjectsBytes → Outcome TchError A)
      → Artifact K SizedObjectsBytes
      → Outcome TchError (Artifact K A)
  deserialize try_from artifact = do
    object ← try_from artifact.data_
    ok (with_data artifact object)

-- `tcherror_to_status`, with the text that `tch` displays for an error.
abbrev pub tcherror_to_status {ℓ} :
    {A : Type ℓ} → (TchError → String) → Outcome TchError A → Fallible A
tcherror_to_status display input =
    map_err (λ e. status internal (concat ("Torch error: " ∷ display e ∷ []))) input

-- protos/bastionlab_torch.proto
pub record Chunk : Type 0 where
  pub data_ : List ℕ
  pub name : String
  pub description : String
  pub secret : List ℕ
  pub meta : List ℕ

-- What `unstream_data` gathers.
pub record Gathered : Type 0 where
  pub data_bytes : List ℕ
  pub name : String
  pub description : String
  pub secret : List ℕ
  pub meta : List ℕ
  pub first : Bool

abbrev pub gather : Gathered → Chunk → Gathered
gather g chunk = record {
  data_bytes = g.data_bytes ++ chunk.data_;
  name = if g.first then chunk.name else g.name;
  description = if g.first then chunk.description else g.description;
  secret = if g.first then chunk.secret else g.secret;
  meta = if g.first then chunk.meta else g.meta;
  first = false;
}

unfoldable pub gather_all : List (Fallible Chunk) → Gathered → Fallible Gathered
gather_all [] g = ok g
gather_all (chunk ∷ stream) g = do c ← chunk; gather_all stream (gather g c)

abbrev pub nothing_yet : Gathered
nothing_yet = record {
  data_bytes = [];
  name = "";
  description = "";
  secret = [];
  meta = [];
  first = true;
}

module _ {K : Type 0} (hmac_key : List ℕ → K) where
  unfoldable pub unstream_data : List (Fallible Chunk) → Fallible (Artifact K SizedObjectsBytes)
  unstream_data stream = do
    g ← gather_all stream nothing_yet
    ok (record {
      data_ = record { bytes = g.data_bytes };
      name = g.name;
      description = g.description;
      secret = hmac_key g.secret;
      meta = g.meta;
      client_info = none;
    })

module _ {K : Type 0} where
  -- The chunk number `i`.
  abbrev pub chunk_of : Artifact K SizedObjectsBytes → ℕ → List ℕ → Chunk
  chunk_of artifact i bytes = record {
    data_ = bytes;
    name = if eqb i 0 then artifact.name else "";
    description = if eqb i 0 then artifact.description else "";
    secret = [];
    meta = if eqb i 0 then artifact.meta else [];
  }

  abbrev pub chunks_from : Artifact K SizedObjectsBytes → ℕ → List (List ℕ) → List (Fallible Chunk)
  chunks_from artifact i [] = []
  chunks_from artifact i (bytes ∷ rest) =
      ok (chunk_of artifact i bytes) ∷ chunks_from artifact (i + 1) rest

  -- `stream_data`, to a client that listens to the end. A chunk size of zero panics; the server's
  -- is 4194285.
  unfoldable pub stream_data : Artifact K SizedObjectsBytes → ℕ → List (Fallible Chunk)
  stream_data artifact chunk_size = chunks_from artifact 0 (chunks chunk_size artifact.data_.bytes)
