-- ===== src/Torch/Names.antt =====
-- server/bastionlab_torch/src/utils.rs and serialization.rs: the names of kinds and devices, and the
-- references to remote data.
use bastionlab.Prelude.{
  ℕ, String, Bool, Option, List, [], ◌∷◌, map, if◌then◌else◌, Outcome, ok, ◌>>=◌, ok_or, unwrap,
  ◌==◌, nat_eq, string_eq, list_eq, lookup, concat, decimal,
}
use bastionlab.Prelude.{codes, strip_prefix, parse_usize}
use bastionlab.Learning.Data.{range_from}
use bastionlab.Common.Status.{Status, status, Fallible, invalid_argument, failed_precondition}

-- The variants of `tch::Kind` that have a name here.
pub data Kind : Type 0 where
  uint8 int8 int16 int_ int64 half float double complex_half complex_float : Kind
  complex_double bool qint8 quint8 qint32 bfloat16 : Kind

-- The arms of `get_kind`.
abbrev kinds : List (String × Kind)
kinds =
    ("Uint8", uint8)
    ∷ ("Int8", int8)
    ∷ ("Int16", int16)
    ∷ ("Int", int_)
    ∷ ("Int64", int64)
    ∷ ("Half", half)
    ∷ ("Float", float)
    ∷ ("Float32", float)
    ∷ ("Float64", double)
    ∷ ("Double", double)
    ∷ ("ComplexHalf", complex_half)
    ∷ ("ComplexFloat", complex_float)
    ∷ ("ComplexDouble", complex_double)
    ∷ ("Bool", bool)
    ∷ ("QInt8", qint8)
    ∷ ("QUInt8", quint8)
    ∷ ("QInt32", qint32)
    ∷ ("BFloat16", bfloat16)
    ∷ []

unfoldable pub get_kind : String → Fallible Kind
get_kind kind =
    ok_or (lookup kind kinds)
      (status failed_precondition (concat ("Unsupported Kind: " ∷ kind ∷ [])))

pub data Device : Type 0 where
  cpu : Device
  cuda : ℕ → Device

abbrev unknown_device : Status
unknown_device = status invalid_argument "Unknown device"

-- `parse_device`, with what `Device::cuda_if_available` gives.
unfoldable pub parse_device : Device → String → Fallible Device
unfolding parse_usize
parse_device cuda_if_available device =
    if device == "cpu" then ok cpu else if device == "gpu" then ok cuda_if_available else (do
      id ← ok_or (strip_prefix (codes "cuda:") (codes device)) unknown_device
      n ← ok_or (parse_usize id) unknown_device
      ok (cuda n))

-- protos/bastionlab.proto
pub record Reference : Type 0 where
  pub identifier : String
  pub name : String
  pub description : String
  pub meta : List ℕ

-- protos/bastionlab_torch.proto
pub record RemoteDatasetReference : Type 0 where
  pub identifier : String
  pub inputs : List Reference
  pub labels : Option Reference

pub record RemoteDataset (D : Type 0) : Type 0 where
  pub inputs : List String
  pub labels : String
  pub privacy_limit : D

-- `From<RemoteDatasetReference> for RemoteDataset`, with the number -1.
unfoldable pub remote_dataset :
    {D E : Type 0} → D → RemoteDatasetReference → Outcome E (RemoteDataset D)
remote_dataset minus_one dataset = do
  labels ← unwrap dataset.labels
  ok (record {
    inputs = map (λ (i : Reference). i.identifier) dataset.inputs;
    labels = labels.identifier;
    privacy_limit = minus_one;
  })

abbrev cuda_name : ℕ → String
cuda_name index = concat ("cuda:" ∷ decimal index ∷ [])

-- `available_devices`, with what `Cuda::is_available` and `Cuda::device_count` give.
unfoldable available_devices : Bool → ℕ → List String
unfolding range_from
available_devices is_available device_count =
    "cpu" ∷ (if is_available then "gpu" ∷ map cuda_name (range_from 0 device_count) else [])

unfoldable available_optimizers : List String
available_optimizers = "SGD" ∷ "Adam" ∷ []
