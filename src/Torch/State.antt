-- ===== src/Torch/State.antt =====
-- server/bastionlab_torch/src/lib.rs: the state of the torch service, and its stores of tensors and
-- datasets. The call number `n` of `Uuid::new_v4` gives `uuid n`.
use bastionlab.Prelude.{
  Bool, false, ◌==◌, if◌then◌else◌, ℕ, suc, String, Option, none, some, panic, List, [], ◌∷◌, ok,
  ok_or, nat_eq, string_eq, list_eq, HashMap, lookup, insert,
}
use bastionlab.Common.Status.{Status, status, aborted}
use bastionlab.Common.Action.{Call, Action, pure, lift, modify, ◌>>=◌, ◌>>◌}
use bastionlab.Common.Session.{SessionManager}
use bastionlab.Learning.Numbers.{Floats, Tensors}
use bastionlab.Learning.Iterator.{Dataset}
use bastionlab.Learning.Data.{Memory, allocate, read_cell}
use bastionlab.Learning.Data
use bastionlab.Learning.CheckPoints.{CheckPoint}
use bastionlab.Torch.Stream.{Artifact}
use bastionlab.Torch.Names.{Device, Kind, Reference, RemoteDatasetReference, remote_dataset}

-- protos/bastionlab_torch.proto
pub record Metric (F : Type 0) : Type 0 where
  pub value : F
  pub uncertainty : F
  pub batch : ℕ
  pub epoch : ℕ
  pub nb_epochs : ℕ
  pub nb_batches : ℕ

pub data Run (F : Type 0) : Type 0 where
  run_ok : Metric F → Run F
  run_error : Status → Run F
  pending : Run F

-- What `train` and `test` hand to the tasks that they spawn.
pub record Task : Type 0 where
  pub run : String
  pub dataset : Dataset
  pub binary : List ℕ
  pub chkpt : ℕ
  pub device : Device

-- `BastionLabTorch`, with the tensors and the checkpoints behind their locks, the number of
-- identifiers that were drawn, and the tasks that were spawned. `K` is the type of keys.
-- `poisoned` is the tensor whose conversion panicked: its lock and that of the tensors are poisoned.
pub record Server (K F T R O : Type 0) : Type 0 where
  pub binaries : HashMap String (Artifact K (List ℕ))
  pub checkpoints : HashMap String (Artifact K ℕ)
  pub datasets : HashMap String (Artifact K Dataset)
  pub runs : HashMap String (Run F)
  pub tensors : HashMap String ℕ
  pub sess_manager : SessionManager
  pub memory : Memory F T R
  pub chkpts : List (CheckPoint O)
  pub drawn : ℕ
  pub tasks : List Task
  pub poisoned : Option ℕ

-- The kind of a tensor, its encoded description, and a tensor converted to a kind, where `to_dtype`
-- does not panic.
pub record Describing (T : Type 0) : Type 0 where
  pub kind_name : T → String
  pub encode_meta : List String → List ℕ → List ℕ
  pub to_dtype : T → Kind → Option T

abbrev pub is_poisoned : Option ℕ → ℕ → Bool
is_poisoned none address = false
is_poisoned (some poisoned) address = poisoned == address

module _ {K F T R O : Type 0} where
  abbrev pub in_memory : {A : Type 0} → Call Status (Memory F T R) A → Action (Server K F T R O) A
  in_memory call s = let (r, m) = call s.memory in (r, record s { memory = m })

  -- `BastionLabTorch::new`
  unfoldable pub new : SessionManager → Memory F T R → Server K F T R O
  new sess_manager memory = record {
    binaries = [];
    checkpoints = [];
    datasets = [];
    runs = [];
    tensors = [];
    sess_manager = sess_manager;
    memory = memory;
    chkpts = [];
    drawn = 0;
    tasks = [];
    poisoned = none;
  }

  unfoldable pub new_uuid : (ℕ → String) → Action (Server K F T R O) String
  new_uuid uuid s = (ok (uuid s.drawn), record s { drawn = suc s.drawn })

  -- `self.tensors.read().unwrap()`, and `write`
  unfoldable pub lock_tensors : Action (Server K F T R O) (HashMap String ℕ)
  lock_tensors s = (elim s.poisoned [ none ↦ ok s.tensors | some address ↦ panic ], s)

  -- `tensor.lock().unwrap()`
  unfoldable pub lock_tensor : ℕ → Action (Server K F T R O) T
  unfolding read_cell
  lock_tensor address s =
      (if is_poisoned s.poisoned address then panic else (read_cell address s.memory).0, s)

  -- `get_tensor`
  unfoldable pub get_tensor : String → Action (Server K F T R O) ℕ
  get_tensor identifier = do
    tensors ← lock_tensors
    lift (
        ok_or (lookup identifier tensors)
          (status aborted "Could not find tensor on BastionLab Torch"))

  unfoldable pub get_tensors : List String → Action (Server K F T R O) (List ℕ)
  get_tensors [] = pure []
  get_tensors (identifier ∷ identifiers) = do
    address ← get_tensor identifier
    addresses ← get_tensors identifiers
    pure (address ∷ addresses)

-- `create_tensor_meta`, encoded.
abbrev pub tensor_meta : {D T R V C U : Type 0} → Tensors T D R V C U → Describing T → T → List ℕ
tensor_meta tensor describing t =
    describing.encode_meta (describing.kind_name t ∷ []) (tensor.size t)

module _ {K F D T R V C U O : Type 0} (number : Floats F D) (tensor : Tensors T D R V C U)
    (describing : Describing T) (uuid : ℕ → String) where
  -- `insert_tensor`
  unfoldable pub insert_tensor : ℕ → Action (Server K F T R O) (String × Reference)
  insert_tensor address = do
    identifier ← new_uuid uuid
    t ← lock_tensor address
    tensors ← lock_tensors
    modify (λ s. record s { tensors = insert identifier address tensors })
    pure (
      identifier,
      record {
        identifier = identifier;
        name = "";
        description = "";
        meta = tensor_meta tensor describing t;
      },
    )

  unfoldable pub insert_samples : List ℕ → Action (Server K F T R O) (List Reference)
  insert_samples [] = pure []
  insert_samples (sample ∷ samples) = do
    (identifier, tensor_ref) ← insert_tensor sample
    refs ← insert_samples samples
    pure (tensor_ref ∷ refs)

  -- `insert_dataset`
  unfoldable pub insert_dataset :
      Artifact K Dataset → Action (Server K F T R O) RemoteDatasetReference
  insert_dataset dataset = do
    identifier ← new_uuid uuid
    inputs ← insert_samples dataset.data_.samples_inputs
    (labels_id, labels) ← insert_tensor dataset.data_.labels
    modify (λ s. record s { datasets = insert identifier dataset s.datasets })
    pure (record { identifier = identifier; inputs = inputs; labels = some labels })

  -- `convert_from_remote_dataset_to_dataset`, with the key made of one zero byte.
  unfoldable pub convert_from_remote_dataset_to_dataset :
      K → RemoteDatasetReference → Action (Server K F T R O) RemoteDatasetReference
  convert_from_remote_dataset_to_dataset zero_key dataset = do
    labels_ref ← lift (ok_or dataset.labels (status aborted "Labels not found"))
    remote ← lift (remote_dataset (number.neg64 (number.literal64 1 0)) dataset)
    samples_inputs ← get_tensors remote.inputs
    labels ← get_tensor remote.labels
    data_ ← in_memory (Data.new number tensor samples_inputs labels remote.privacy_limit)
    insert_dataset (record {
      data_ = data_;
      name = labels_ref.name;
      description = labels_ref.description;
      secret = zero_key;
      meta = labels_ref.meta;
      client_info = none;
    })
