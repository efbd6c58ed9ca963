-- ===== src/Torch/Stream/Tests.antt =====
-- A model of three bytes, streamed in chunks of four.
use bastionlab.Prelude.{ℕ, ◌≡◌, ◌≢◌, some, List, [], ◌∷◌, arith, ok, nat_eq, string_eq, list_eq}
use bastionlab.Common.Session.Tests.{client}
use bastionlab.Learning.Bytes.{SizedObjectsBytes, binary_module, of_binary_module}
use bastionlab.Torch.Stream.{Artifact, serialize, deserialize, unstream_data, stream_data}
use bastionlab.Torch.Stream.RoundTrip.{received, unstream_data-stream_data, deserialize-serialize}

-- A key is its bytes.
abbrev hmac_key : List ℕ → List ℕ
hmac_key bytes = bytes

abbrev model : Artifact (List ℕ) (List ℕ)
model = record {
  data_ = 1 ∷ 2 ∷ 3 ∷ [];
  name = "net";
  description = "a model";
  secret = 9 ∷ [];
  meta = 4 ∷ [];
  client_info = some client;
}

abbrev raw : Artifact (List ℕ) SizedObjectsBytes
raw = record {
  data_ = record { bytes = 1 ∷ 2 ∷ 3 ∷ 4 ∷ 5 ∷ [] };
  name = "net";
  description = "a model";
  secret = 9 ∷ [];
  meta = 4 ∷ [];
  client_info = some client;
}

some_data : raw.data_.bytes ≢ []
some_data h = cc

unstream_data-stream_data_example :
    unstream_data hmac_key (stream_data raw 4) ≡ ok (received hmac_key raw)
unstream_data-stream_data_example = unstream_data-stream_data hmac_key raw 4 (omega arith) some_data

deserialize-serialize_example :
    (sent : Artifact (List ℕ) SizedObjectsBytes) × (got : Artifact (List ℕ) SizedObjectsBytes)
    × (serialize (λ m. ok (of_binary_module m)) model ≡ ok sent)
    × (unstream_data hmac_key (stream_data sent 4) ≡ ok got)
    × (deserialize binary_module got ≡ ok (received hmac_key model))
deserialize-serialize_example = deserialize-serialize hmac_key model 4 (omega arith) (omega arith)
