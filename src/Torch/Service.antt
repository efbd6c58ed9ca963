-- ===== src/Torch/Service.antt =====
-- server/bastionlab_torch/src/lib.rs: what the handlers of the torch service share, and those that
-- delete, list, train and test.
pub mod Checkpoints
use bastionlab.Prelude.{
  ℕ, zero, suc, ◌+◌, ◌-◌, ◌*◌, ◌/◌, ◌%◌, ◌^◌, ◌≤◌, ◌<◌, min, max, String, ◌≡◌, refl, sym, ap, subst,
  ◌∙◌, ◌≢◌, ◌↔◌, ◌⊎◌, inl, inr, Bool, true, false, ◌&&◌, ◌||◌, not, Option, none, some, List, [],
  ◌∷◌, ◌++◌, map, append-nil, append_assoc, arith, ltb, leb, eqb, if◌then◌else◌, ltb→lt, lt→ltb,
  leb→le, le→leb, eqb_iff, tests, Bool-cases, Option-cases, length, get_elem?, take, drop, last?,
  length-append, take-append-drop, length-take, length-drop, take-length-append, drop-length-append,
  drop-eq-nil, length-map, All, All-append, ok_or_inv, ok_injective, Outcome, ok, err, panic, ok_or,
  unwrap, ensure, map_err, Outcome-cases, PartialEq, ◌==◌, ==_iff, contains, nat_eq, string_eq,
  list_eq, paired, contains-append, lookup-insert_inv, chunks_on, chunks, joined, Sized,
  joined-chunks, HashMap, lookup, insert, erase, lookup-nil, lookup-insert, lookup-erase,
  lookup-append, or_else, beq_refl, map_laws, concat, decimal,
}
use bastionlab.Prelude
use bastionlab.Common.Status.{
  Status, status, Fallible, invalid_argument, internal, not_found, aborted, out_of_range,
}
use bastionlab.Common.Action.{Call, Action, pure, raise, lift, gets, modify, continue, ◌>>=◌, ◌>>◌}
use bastionlab.Common.Session.{SessionManager, ClientInfo, Request, get_token, get_client_info}
use bastionlab.Learning.Bytes.{SizedObjectsBytes, append_back, TchError, binary_module}
use bastionlab.Learning.Bytes
use bastionlab.Learning.Numbers.{Floats, Tensors}
use bastionlab.Learning.Privacy
use bastionlab.Learning.Iterator.{Dataset}
use bastionlab.Learning.Data.{Memory, allocate, read_cell, new_context}
use bastionlab.Learning.Loading.{Archive, Loaded, load_dataset, save_dataset, tensor_from}
use bastionlab.Learning.CheckPoints.{CheckPoint}
use bastionlab.Learning.CheckPoints
use bastionlab.Torch.Stream.{
  Artifact, Chunk, with_data, serialize, deserialize, tcherror_to_status, unstream_data,
  stream_data,
}
use bastionlab.Torch.Names.{
  Kind, Reference, RemoteDatasetReference, Device, cpu, cuda, get_kind, parse_device,
}
use bastionlab.Torch.State.{
  Metric, Run, run_ok, run_error, pending, Task, Server, Describing, tensor_meta, in_memory,
  new_uuid, insert_tensor, insert_dataset, get_tensor, convert_from_remote_dataset_to_dataset,
}

-- The fields of a `TrainConfig` and of a `TestConfig` that the handlers read; a test has neither a
-- budget nor a checkpoint to resume.
pub record TrainConfig (F : Type 0) : Type 0 where
  pub model : Option Reference
  pub dataset : String
  pub device : String
  pub eps : F
  pub resume : Bool

pub record TestConfig : Type 0 where
  pub model : Option Reference
  pub dataset : String
  pub device : String

pub record UpdateTensor : Type 0 where
  pub identifier : String
  pub dtype : String

-- What other crates give the service: the keys and the texts of errors, identifiers of runs in their
-- standard form, named tensors, the modules `M` of `tch`, and the devices.
pub record Backend (K T M : Type 0) : Type 0 where
  pub hmac_key : List ℕ → K
  pub display : TchError → String
  pub parse_uuid : String → Option String
  pub archive : Archive T
  pub detach : T → T
  pub load_data : List ℕ → Outcome TchError M
  pub save_to_stream : M → Outcome TchError (List ℕ)
  pub cuda_if_available : Device

-- `Result::unwrap`
abbrev pub unwrap_result : {E A : Type 0} → Outcome TchError A → Outcome E A
unwrap_result (ok a) = ok a
unwrap_result (err e) = panic
unwrap_result panic = panic

abbrev pub chunk_size : ℕ
chunk_size = 4_194_285

abbrev pub not_found_ : String → Status
not_found_ message = status not_found message

abbrev pub reference_of : {K A : Type 0} → String × Artifact K A → Reference
reference_of (k, v) = record {
  identifier = k;
  name = v.name;
  description = v.description;
  meta = v.meta;
}

unfoldable pub metric_of : {F : Type 0} → Run F → Fallible (Metric F)
metric_of pending = err (status out_of_range "Run has not started.")
metric_of (run_ok m) = ok m
metric_of (run_error e) = err (status internal e.message)

-- The reply to `train` and `test`.
abbrev pub run_reference : String → Reference
run_reference identifier = record {
  identifier = identifier;
  name = concat ("Run #" ∷ identifier ∷ []);
  description = "";
  meta = [];
}

module _ {K F T R O : Type 0} where
  unfoldable pub client : {A : Type 0} → Request A → Action (Server K F T R O) ClientInfo
  client request = do
    sess ← gets (λ s. s.sess_manager)
    token ← lift (get_token sess request)
    lift (get_client_info sess token)

  unfoldable pub delete_dataset : Request String → Action (Server K F T R O) (Unit {0})
  delete_dataset request = modify (λ s. record s { datasets = erase request.message s.datasets })

  -- The first statement of `delete_module`, which holds the lock of the binaries.
  unfoldable pub delete_binary : String → Action (Server K F T R O) (Unit {0})
  delete_binary identifier = modify (λ s. record s { binaries = erase identifier s.binaries })

  -- Its second, which holds the lock of the checkpoints. Other requests may come between the two.
  unfoldable pub delete_checkpoint : String → Action (Server K F T R O) (Unit {0})
  delete_checkpoint identifier =
      modify (λ s. record s { checkpoints = erase identifier s.checkpoints })

  -- `delete_module`, when no other request comes between.
  unfoldable pub delete_module : Request String → Action (Server K F T R O) (Unit {0})
  delete_module request = do delete_binary request.message; delete_checkpoint request.message

  unfoldable pub available_models : Action (Server K F T R O) (List Reference)
  available_models = gets (λ s. map reference_of s.binaries)

  unfoldable pub available_datasets : Action (Server K F T R O) (List Reference)
  available_datasets = gets (λ s. map reference_of s.datasets)

  unfoldable pub get_metric :
      {T' M : Type 0} → Backend K T' M → Request String → Action (Server K F T R O) (Metric F)
  unfolding metric_of
  get_metric backend request = do
    identifier ← lift (
        ok_or (backend.parse_uuid request.message)
          (status invalid_argument "Invalid run reference"))
    runs ← gets (λ s. s.runs)
    run ← lift (unwrap (lookup identifier runs))
    lift (metric_of run)

  unfoldable pub start_run :
      (ℕ → String) → Dataset → List ℕ → ℕ → Device → Action (Server K F T R O) Reference
  unfolding new_uuid
  start_run uuid dataset binary chkpt device = do
    identifier ← new_uuid uuid
    modify (λ s. record s { runs = insert identifier pending s.runs })
    modify (λ s. record s {
      tasks =
          s.tasks
          ++ (record {
            run = identifier;
            dataset = dataset;
            binary = binary;
            chkpt = chkpt;
            device = device;
          }
              ∷ []);
    })
    pure (run_reference identifier)

  unfoldable pub find_dataset : String → Action (Server K F T R O) (Artifact K Dataset)
  find_dataset identifier = do
    datasets ← gets (λ s. s.datasets)
    lift (ok_or (lookup identifier datasets) (not_found_ "Dataset not found"))

  unfoldable pub find_checkpoint : String → String → Action (Server K F T R O) (Artifact K ℕ)
  find_checkpoint message identifier = do
    checkpoints ← gets (λ s. s.checkpoints)
    lift (ok_or (lookup identifier checkpoints) (not_found_ message))

  -- A new checkpoint takes the place of the one that the module had.
  unfoldable pub new_checkpoint :
      Bool → ClientInfo → String → Artifact K (List ℕ) → Action (Server K F T R O) (Artifact K ℕ)
  new_checkpoint is_private client_info binary_id binary = do
    address ← gets (λ s. length s.chkpts)
    let chkpt = record (with_data binary address) { client_info = some client_info }
    modify (λ s. record s {
      chkpts = s.chkpts ++ (CheckPoints.new is_private ∷ []);
      checkpoints = insert binary_id chkpt s.checkpoints;
    })
    pure chkpt

module _ {K F D T R M O : Type 0} (number : Floats F D) (backend : Backend K T M)
    (uuid : ℕ → String) where
  unfoldable pub train : Request (TrainConfig F) → Action (Server K F T R O) Reference
  train request = do
    client_info ← client request
    let config = request.message
    dataset ← find_dataset config.dataset
    model ← lift (ok_or config.model (status invalid_argument "Invalid module reference"))
    device ← lift (parse_device backend.cuda_if_available config.device)
    binaries ← gets (λ s. s.binaries)
    binary ← lift (ok_or (lookup model.identifier binaries) (not_found_ "Module binary not found"))
    chkpt ←
        (if config.resume
          then find_checkpoint "CheckPoint not found!" model.identifier
          else new_checkpoint (number.le (number.literal 0 0) config.eps) client_info
              model.identifier binary)
    start_run uuid dataset.data_ binary.data_ chkpt.data_ device

  unfoldable pub test : Request TestConfig → Action (Server K F T R O) Reference
  test request = do
    client_info ← client request
    let config = request.message
    dataset ← find_dataset config.dataset
    model ← lift (ok_or config.model (status invalid_argument "Invalid dataset reference"))
    device ← lift (parse_device backend.cuda_if_available config.device)
    artifact ← find_checkpoint "Module not found" model.identifier
    binaries ← gets (λ s. s.binaries)
    binary ← lift (unwrap (lookup model.identifier binaries))
    start_run uuid dataset.data_ binary.data_ artifact.data_ device
