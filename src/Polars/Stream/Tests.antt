-- ===== src/Polars/Stream/Tests.antt =====
-- A format that writes every frame as three bytes.
use bastionlab.Prelude.{
  chunks_on, joined, Sized, ℕ, ◌≡◌, refl, ◌≢◌, List, [], ◌∷◌, arith, All, ok, nat_eq, string_eq,
  list_eq,
}
use bastionlab.Polars.AccessControl.{allow_by_default, unsafe, reject}
use bastionlab.Polars.Fetch.Tests.{Frame, frame, columns, dfs, answers, waiting, asked, accepted}
use bastionlab.Polars.Fetch.Decision.{Released}
use bastionlab.Polars.Stream.{
  chunk_size, SendChunk, Codec, unserialize_dataframe, announced, sent_frame, sent,
  serialize_delayed_dataframe,
}
use bastionlab.Polars.Stream.Chunks.{
  data_of, arrived, serialize_delayed_dataframe-joined, fetch-Released,
  unserialize_dataframe-joined,
}

abbrev codec : Codec Frame
codec = record {
  read = λ bytes. ok frame;
  write = λ df. ok (1 ∷ 2 ∷ 3 ∷ []);
  parse_policy = λ text. ok allow_by_default;
  digest = λ bytes. "digest";
}

abbrev bodies : List (List ℕ)
bodies = data_of (serialize_delayed_dataframe codec waiting answers dfs)

serialize_delayed_dataframe-joined_example :
    (joined bodies ≡ 1 ∷ 2 ∷ 3 ∷ []) × All (Sized chunk_size) bodies
serialize_delayed_dataframe-joined_example =
    serialize_delayed_dataframe-joined codec waiting answers dfs _ (1 ∷ 2 ∷ 3 ∷ []) accepted refl

some_data : bodies ≡ (1 ∷ 2 ∷ 3 ∷ []) ∷ []
unfolding serialize_delayed_dataframe announced sent sent_frame chunks_on
some_data = rw (accepted, sent, sent_frame) refl

carries : bodies ≢ []
carries h = ground (arith, some_data)

fetch-Released_example :
    (df : Frame) × Released columns dfs dfs "id" answers df × (codec.write df ≡ ok (joined bodies))
fetch-Released_example = fetch-Released codec columns dfs dfs "id" answers waiting asked carries

abbrev first : SendChunk
first = record { data_ = 1 ∷ []; policy = "{}"; sanitized_columns = "age" ∷ [] }

abbrev second : SendChunk
second = record { data_ = 2 ∷ 3 ∷ []; policy = ""; sanitized_columns = [] }

unserialize_dataframe-joined_example :
    unserialize_dataframe codec (arrived codec (first ∷ second ∷ []))
    ≡ ok (
      record {
        dataframe = frame;
        policy = allow_by_default;
        fetchable = unsafe reject "DataFrames uploaded by the Data Owner are protected.";
        blacklist = "age" ∷ [];
        query_details = "uploaded dataframe";
      },
      "digest",
    )
unserialize_dataframe-joined_example =
    unserialize_dataframe-joined codec first (second ∷ []) allow_by_default frame refl refl
