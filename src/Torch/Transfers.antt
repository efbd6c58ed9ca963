-- ===== src/Torch/Transfers.antt =====
-- server/bastionlab_torch/src/lib.rs: the handlers that bring data to the torch service, and those
-- that send it back.
pub mod Limits
use bastionlab.Prelude.{
  ℕ, zero, suc, ◌+◌, ◌-◌, ◌*◌, ◌/◌, ◌%◌, ◌^◌, ◌≤◌, ◌<◌, min, max, String, ◌≡◌, refl, sym, ap, subst,
  ◌∙◌, ◌≢◌, ◌↔◌, ◌⊎◌, inl, inr, Bool, true, false, ◌&&◌, ◌||◌, not, Option, none, some, List, [],
  ◌∷◌, ◌++◌, map, append-nil, append_assoc, arith, ltb, leb, eqb, if◌then◌else◌, ltb→lt, lt→ltb,
  leb→le, le→leb, eqb_iff, tests, Bool-cases, Option-cases, length, get_elem?, take, drop, last?,
  length-append, take-append-drop, length-take, length-drop, take-length-append, drop-length-append,
  drop-eq-nil, length-map, All, All-append, ok_or_inv, ok_injective, Outcome, ok, err, panic, ok_or,
  unwrap, ensure, map_err, Outcome-cases, PartialEq, ◌==◌, ==_iff, contains, nat_eq, string_eq,
  list_eq, paired, contains-append, lookup-insert_inv, chunks_on, chunks, joined, Sized,
  joined-chunks, HashMap, lookup, insert, erase, lookup-nil, lookup-insert, lookup-erase,
  lookup-append, or_else, beq_refl, map_laws, concat, decimal,
}
use bastionlab.Prelude
use bastionlab.Common.Status.{
  Status, status, Fallible, invalid_argument, internal, not_found, aborted, out_of_range,
}
use bastionlab.Common.Action.{Call, Action, pure, raise, lift, gets, modify, continue, ◌>>=◌, ◌>>◌}
use bastionlab.Common.Session.{SessionManager, ClientInfo, Request, get_token, get_client_info}
use bastionlab.Learning.Bytes.{SizedObjectsBytes, append_back, TchError, binary_module}
use bastionlab.Learning.Bytes
use bastionlab.Learning.Numbers.{Floats, Tensors}
use bastionlab.Learning.Privacy
use bastionlab.Learning.Iterator.{Dataset}
use bastionlab.Learning.Data.{Memory, allocate, read_cell, new_context}
use bastionlab.Learning.Loading.{Archive, Loaded, load_dataset, save_dataset, tensor_from}
use bastionlab.Learning.CheckPoints.{CheckPoint}
use bastionlab.Learning.CheckPoints
use bastionlab.Torch.Stream.{
  Artifact, Chunk, with_data, serialize, deserialize, tcherror_to_status, unstream_data,
  stream_data,
}
use bastionlab.Torch.Names.{
  Kind, Reference, RemoteDatasetReference, Device, cpu, cuda, get_kind, parse_device,
}
use bastionlab.Torch.State.{
  Metric, Run, run_ok, run_error, pending, Task, Server, Describing, tensor_meta, in_memory,
  new_uuid, lock_tensors, lock_tensor, insert_tensor, insert_dataset, get_tensor,
  convert_from_remote_dataset_to_dataset,
}
use bastionlab.Torch.Service.{
  TrainConfig, TestConfig, UpdateTensor, Backend, unwrap_result, chunk_size, not_found_, client,
  reference_of, find_dataset, find_checkpoint,
}

-- `Arc::new(Mutex::new(..))`, for each.
unfoldable pub allocate_all : {F T R : Type 0} → List T → Call Status (Memory F T R) (List ℕ)
unfolding allocate
allocate_all [] = pure []
allocate_all (t ∷ ts) = do
  address ← allocate t
  addresses ← allocate_all ts
  pure (address ∷ addresses)

-- What the loop of the loading came to; its fuel is one more than the bytes.
abbrev pub loaded :
    {F T : Type 0} → Option (Outcome TchError (Loaded F T)) → Outcome TchError (Loaded F T)
loaded none = panic
loaded (some r) = r

unfoldable pub place_dataset :
    {F D T R : Type 0} → Floats F D → Loaded F T → Call Status (Memory F T R) Dataset
unfolding allocate
place_dataset number l = do
  samples_inputs ← allocate_all l.samples
  labels ← allocate l.labels
  privacy_context ← new_context (Privacy.new number l.limit l.nb_samples)
  pure (record {
    samples_inputs = samples_inputs;
    labels = labels;
    privacy_context = privacy_context;
  })

abbrev pub set_cell : {T : Type 0} → List T → ℕ → T → List T
set_cell [] i t = []
set_cell (x ∷ xs) zero t = t ∷ xs
set_cell (x ∷ xs) (suc i) t = x ∷ set_cell xs i t

-- A module in its serialized form.
unfoldable pub saved_module :
    {K T M : Type 0} → Backend K T M → M → Outcome TchError SizedObjectsBytes
saved_module backend m =
    Prelude.◌>>=◌ (backend.save_to_stream m) (λ buf. ok (append_back Bytes.new buf))

unfoldable pub last_chkpt : {K F T R O : Type 0} → ℕ → Action (Server K F T R O) (List ℕ)
last_chkpt address = do
  chkpts ← gets (λ s. s.chkpts)
  chkpt ← lift (unwrap (get_elem? chkpts address))
  lift (unwrap (last? chkpt.data_))

module _ {K F D T R V C U M O : Type 0} (number : Floats F D) (tensor : Tensors T D R V C U)
    (describing : Describing T) (backend : Backend K T M) (uuid : ℕ → String) where
  unfoldable pub send_dataset :
      Request (List (Fallible Chunk)) → Action (Server K F T R O) RemoteDatasetReference
  unfolding client
  send_dataset request = do
    client_info ← client request
    artifact ← lift (unstream_data backend.hmac_key request.message)
    l ← lift (
        tcherror_to_status backend.display (
          loaded (
            load_dataset number tensor backend.archive (suc (length artifact.data_.bytes))
              artifact.data_)))
    dataset ← in_memory (place_dataset number l)
    insert_dataset number tensor describing uuid (with_data artifact dataset)

  unfoldable pub send_model : Request (List (Fallible Chunk)) → Action (Server K F T R O) Reference
  unfolding client
  send_model request = do
    client_info ← client request
    artifact ← lift (unstream_data backend.hmac_key request.message)
    model_hash ← new_uuid uuid
    binary ← lift (tcherror_to_status backend.display (deserialize binary_module artifact))
    modify (λ s. record s { binaries = insert model_hash binary s.binaries })
    pure (reference_of (model_hash, binary))

  unfoldable pub send_tensor : Request (List (Fallible Chunk)) → Action (Server K F T R O) Reference
  send_tensor request = do
    res ← lift (unstream_data backend.hmac_key request.message)
    t ← lift (
        map_err
          (λ e.
            status aborted (
              concat ("Could not convert SizedObjectBytes into Tensor: " ∷ backend.display e ∷ [])))
          (tensor_from backend.archive backend.detach res.data_))
    address ← in_memory (allocate t)
    (identifier, reference) ← insert_tensor number tensor describing uuid address
    pure reference

  -- The write of a converted tensor, where the conversion does not panic with the locks held.
  unfoldable pub converted_cell : ℕ → Option T → Action (Server K F T R O) T
  converted_cell address none s = (panic, record s { poisoned = some address })
  converted_cell address (some t) s =
      (ok t, record s { memory = record s.memory { cells = set_cell s.memory.cells address t } })

  unfoldable pub modify_tensor : Request UpdateTensor → Action (Server K F T R O) Reference
  modify_tensor request = do
    tensors ← lock_tensors
    address ←
        lift
          (ok_or (lookup request.message.identifier tensors) (not_found_ "Could not find tensor"))
    before ← lock_tensor address
    dtype ← lift (get_kind request.message.dtype)
    t ← converted_cell address (describing.to_dtype before dtype)
    pure (record {
      identifier = request.message.identifier;
      name = "";
      description = "";
      meta = tensor_meta tensor describing t;
    })

  unfoldable pub conv_to_dataset :
      Request RemoteDatasetReference → Action (Server K F T R O) RemoteDatasetReference
  conv_to_dataset request =
      convert_from_remote_dataset_to_dataset number tensor describing uuid
        (backend.hmac_key (0 ∷ [])) request.message

  -- No lock of these tensors is poisoned, or the read panics.
  unfoldable pub lock_all : List ℕ → Action (Server K F T R O) (List T)
  lock_all [] = pure []
  lock_all (address ∷ addresses) = do
    t ← lock_tensor address
    ts ← lock_all addresses
    pure (t ∷ ts)

  -- The client of a fetch listens to the end of the stream.
  unfoldable pub fetch_dataset : Request String → Action (Server K F T R O) (List (Fallible Chunk))
  unfolding find_dataset
  fetch_dataset request = do
    artifact ← find_dataset request.message
    samples ← lock_all (artifact.data_.labels ∷ artifact.data_.samples_inputs)
    cells ← gets (λ s. s.memory.cells)
    serialized ← lift (
        tcherror_to_status backend.display
          (serialize (save_dataset backend.archive cells) artifact))
    pure (stream_data serialized chunk_size)

  unfoldable pub module_artifact :
      String
      → ClientInfo
      → Option (Artifact K ℕ)
      → Action (Server K F T R O) (Artifact K SizedObjectsBytes)
  unfolding last_chkpt saved_module
  module_artifact identifier client_info (some chkpt) = do
    weights ← last_chkpt chkpt.data_
    pure (record (with_data chkpt (append_back Bytes.new weights)) {
      client_info = some client_info;
    })
  module_artifact identifier client_info none = do
    binaries ← gets (λ s. s.binaries)
    binary ← lift (ok_or (lookup identifier binaries) (not_found_ "Module not found!"))
    m ← lift (unwrap_result (backend.load_data binary.data_))
    lift (
        tcherror_to_status backend.display (
          serialize (saved_module backend)
            (record (with_data binary m) { client_info = some client_info })))

  unfoldable pub fetch_module : Request String → Action (Server K F T R O) (List (Fallible Chunk))
  unfolding client module_artifact
  fetch_module request = do
    client_info ← client request
    checkpoints ← gets (λ s. s.checkpoints)
    serialized ← module_artifact request.message client_info (lookup request.message checkpoints)
    pure (stream_data serialized chunk_size)
