-- ===== src/Torch/Stream/RoundTrip.antt =====
-- What survives the way through a stream.
use bastionlab.Prelude.{
  ℕ, ◌+◌, ◌≤◌, ◌≡◌, refl, sym, ap, ◌∙◌, ◌≢◌, false, none, List, [], ◌∷◌, ◌++◌, append-nil,
  append_assoc, ok, nat_eq, string_eq, list_eq, chunks, joined, joined-chunks,
}
use bastionlab.Learning.Bytes.{
  SizedObjectsBytes, binary_module, of_binary_module, append_back, new, to_le_bytes,
}
use bastionlab.Learning.Bytes.RoundTrip.{binary_module-of_binary_module, Fits}
use bastionlab.Torch.Stream.{
  Artifact, with_data, serialize, deserialize, Gathered, gather_all, unstream_data, chunks_from,
  stream_data,
}

module _ {K : Type 0} (hmac_key : List ℕ → K) where
  -- After the first chunk.
  abbrev so_far : Artifact K SizedObjectsBytes → List ℕ → Gathered
  so_far artifact bytes = record {
    data_bytes = bytes;
    name = artifact.name;
    description = artifact.description;
    secret = [];
    meta = artifact.meta;
    first = false;
  }

  gather_all-chunks_from :
      (artifact : Artifact K SizedObjectsBytes) (i : ℕ) (cs : List (List ℕ)) (bytes : List ℕ)
      → gather_all (chunks_from artifact i cs) (so_far artifact bytes)
        ≡ ok (so_far artifact (bytes ++ joined cs))
  unfolding gather_all
  gather_all-chunks_from artifact i [] bytes =
      ap (λ b. ok (so_far artifact b)) (sym (append-nil bytes))
  gather_all-chunks_from artifact i (c ∷ cs) bytes =
      gather_all-chunks_from artifact (i + 1) cs (bytes ++ c)
      ∙ ap (λ b. ok (so_far artifact b)) (append_assoc bytes c (joined cs))

  -- What a receiver of an artifact's stream holds.
  abbrev pub received : {A : Type 0} → Artifact K A → Artifact K A
  received artifact = record artifact { secret = hmac_key []; client_info = none }

  unstream_data-chunks :
      (artifact : Artifact K SizedObjectsBytes) (cs : List (List ℕ))
      → joined cs ≡ artifact.data_.bytes
      → artifact.data_.bytes ≢ []
      → unstream_data hmac_key (chunks_from artifact 0 cs) ≡ ok (received artifact)
  unfolding unstream_data gather_all
  unstream_data-chunks artifact [] whole some_data = absurd (some_data (sym whole))
  unstream_data-chunks artifact (c ∷ cs) whole some_data =
      rw (gather_all-chunks_from artifact 1 cs c, whole) refl

  -- An artifact with data that is streamed and received again has its data, name, description and
  -- metadata; its secret and its client are lost.
  pub unstream_data-stream_data :
      (artifact : Artifact K SizedObjectsBytes) (chunk_size : ℕ)
      → 1 ≤ chunk_size
      → artifact.data_.bytes ≢ []
      → unstream_data hmac_key (stream_data artifact chunk_size) ≡ ok (received artifact)
  unfolding stream_data
  unstream_data-stream_data artifact chunk_size p some_data =
      unstream_data-chunks artifact (chunks chunk_size artifact.data_.bytes)
        (joined-chunks chunk_size artifact.data_.bytes p).0 some_data

-- A buffer to which an object was added is not empty.
bytes-of_binary_module : (value : List ℕ) → (of_binary_module value).bytes ≢ []
unfolding of_binary_module append_back new to_le_bytes
bytes-of_binary_module value h = cc

module _ {K : Type 0} (hmac_key : List ℕ → K) where
  -- A model that is serialized, streamed, received and deserialized is the same model, under the same
  -- name, description and metadata; no step fails.
  pub deserialize-serialize :
      (artifact : Artifact K (List ℕ)) (chunk_size : ℕ)
      → 1 ≤ chunk_size
      → Fits artifact.data_
      → (sent : Artifact K SizedObjectsBytes) × (got : Artifact K SizedObjectsBytes) × (serialize
            (λ m. ok (of_binary_module m))
            artifact
          ≡ ok sent)
        × (unstream_data hmac_key (stream_data sent chunk_size) ≡ ok got)
        × (deserialize binary_module got ≡ ok (received hmac_key artifact))
  unfolding serialize deserialize
  deserialize-serialize artifact chunk_size p fits =
      let sent : Artifact K SizedObjectsBytes =
        with_data artifact (of_binary_module artifact.data_) in
      (
        sent,
        received hmac_key sent,
        refl,
        unstream_data-stream_data hmac_key sent chunk_size p
            (bytes-of_binary_module artifact.data_),
        rw (binary_module-of_binary_module artifact.data_ fits) refl,
      )
