-- ===== src/Torch/Aside.antt =====
-- What the requests that bring data leave alone: the binaries and the checkpoints.
use bastionlab.Prelude.{
  Option, none, ℕ, suc, ◌<◌, String, ◌≡◌, refl, sym, subst, ◌∙◌, some, List, [], ◌∷◌, length, ok_or,
  unwrap, map_err, nat_eq, string_eq, list_eq, HashMap, lookup, inl, inr,
}
use bastionlab.Common.Status.{status, Fallible, not_found, aborted}
use bastionlab.Common.Action.{lift, >>=-keeps}
use bastionlab.Common.Session.{Request, get_token}
use bastionlab.Learning.Bytes.{binary_module}
use bastionlab.Learning.Numbers.{Floats, Tensors}
use bastionlab.Learning.Iterator.{Dataset}
use bastionlab.Learning.Data.{Memory, allocate, read_cell}
use bastionlab.Learning.Data
use bastionlab.Learning.Loading.{load_dataset, tensor_from}
use bastionlab.Learning.CheckPoints.{CheckPoint}
use bastionlab.Torch.Stream.{Artifact, Chunk, tcherror_to_status, unstream_data, deserialize}
use bastionlab.Torch.Names.{RemoteDatasetReference, remote_dataset, get_kind}
use bastionlab.Torch.State.{
  Run, Server, new_uuid, Describing, in_memory, insert_tensor, insert_samples, insert_dataset,
  lock_tensors, lock_tensor, get_tensor, get_tensors, convert_from_remote_dataset_to_dataset,
}
use bastionlab.Torch.Service.{Backend, UpdateTensor, client}
use bastionlab.Torch.Service.Checkpoints.{IsStored, Covers-insert_other, client-IsStored}
use bastionlab.Torch.Transfers.{
  send_dataset, send_model, send_tensor, modify_tensor, converted_cell, place_dataset, loaded,
}
use bastionlab.Torch.Runs.{report}

module _ {K F T R O : Type 0} where
  -- The changes that leave binaries and checkpoints alone.
  pub record IsAside (s s' : Server K F T R O) : Type 0 where
    pub same_binaries : s'.binaries ≡ s.binaries
    pub same_checkpoints : s'.checkpoints ≡ s.checkpoints
    pub same_chkpts : s'.chkpts ≡ s.chkpts

  pub aside-IsStored :
      (ids : List String) (s s' : Server K F T R O)
      → IsAside s s'
      → IsStored ids s
      → IsStored ids s'
  aside-IsStored ids s s' a i = record {
    covered = λ k v h.
        let (p, found) = i.covered k v (
          subst (λ (m : HashMap String (Artifact K ℕ)). lookup k m ≡ some v) a.same_checkpoints
            h) in
        (
          subst (λ (l : List (CheckPoint O)). v.data_ < length l) (sym a.same_chkpts) p,
          elim found [
            | inl named ↦ inl named
            | inr (w, q) ↦ inr (
              w,
              subst (λ (m : HashMap String (Artifact K (List ℕ))). lookup k m ≡ some w)
                  (sym a.same_binaries) q,
            )
          ],
        );
  }

  IsAside-trans : {s t u : Server K F T R O} → IsAside s t → IsAside t u → IsAside s u
  IsAside-trans a b = record {
    same_binaries = b.same_binaries ∙ a.same_binaries;
    same_checkpoints = b.same_checkpoints ∙ a.same_checkpoints;
    same_chkpts = b.same_chkpts ∙ a.same_chkpts;
  }

  unchanged : (s : Server K F T R O) → IsAside s s
  unchanged s = record { same_binaries = refl; same_checkpoints = refl; same_chkpts = refl }

  pub client-IsAside :
      {A : Type 0} (request : Request A) (s : Server K F T R O) → IsAside s (client request s).1
  unfolding client
  client-IsAside request s =
      >>=-keeps (IsAside s) (lift (get_token s.sess_manager request)) _ s (unchanged s)
        (λ token _. unchanged s)

  get_tensor-IsAside :
      (id : String) (s0 s : Server K F T R O) → IsAside s0 s → IsAside s0 (get_tensor id s).1
  unfolding get_tensor lock_tensors
  get_tensor-IsAside id s0 s a = >>=-keeps (IsAside s0) lock_tensors _ s a (λ tensors _. a)

  get_tensors-IsAside :
      (ids : List String) (s0 s : Server K F T R O)
      → IsAside s0 s
      → IsAside s0 (get_tensors ids s).1
  unfolding get_tensors
  get_tensors-IsAside [] s0 s a = a
  get_tensors-IsAside (id ∷ ids) s0 s a =
      let t = (get_tensor id s).1 in
      let b = get_tensor-IsAside id s0 s a in
      >>=-keeps (IsAside s0) (get_tensor id) _ s b (λ address _.
        >>=-keeps (IsAside s0) (get_tensors ids) _ t (get_tensors-IsAside ids s0 t b)
          (λ addresses _. get_tensors-IsAside ids s0 t b))

  -- A change of the memory only.
  remembered :
      {s0 s : Server K F T R O} (m : Memory F T R)
      → IsAside s0 s
      → IsAside s0 (record s { memory = m })
  remembered m a = record {
    same_binaries = a.same_binaries;
    same_checkpoints = a.same_checkpoints;
    same_chkpts = a.same_chkpts;
  }

  pub report-IsAside :
      (id : String) (change : Run F → Run F) (s : Server K F T R O)
      → IsAside s (report id change s).1
  unfolding report
  report-IsAside id change s =
      >>=-keeps (IsAside s) (lift (unwrap (lookup id s.runs))) _ s (unchanged s)
        (λ run _. record { same_binaries = refl; same_checkpoints = refl; same_chkpts = refl })

module _ {K F D T R V C U M O : Type 0} (number : Floats F D) (tensor : Tensors T D R V C U)
    (describing : Describing T) (backend : Backend K T M) (uuid : ℕ → String) where
  insert_tensor-IsAside :
      (address : ℕ) (s0 s : Server K F T R O)
      → IsAside s0 s
      → IsAside s0 (insert_tensor number tensor describing uuid address s).1
  unfolding insert_tensor new_uuid lock_tensor lock_tensors
  insert_tensor-IsAside address s0 s a =
      let t = record s { drawn = suc s.drawn } in
      let b : IsAside s0 t = record {
        same_binaries = a.same_binaries;
        same_checkpoints = a.same_checkpoints;
        same_chkpts = a.same_chkpts;
      } in
      >>=-keeps (IsAside s0) (lock_tensor address) _ t b (λ x _.
        >>=-keeps (IsAside s0) lock_tensors _ t b (λ tensors _. record {
          same_binaries = a.same_binaries;
          same_checkpoints = a.same_checkpoints;
          same_chkpts = a.same_chkpts;
        }))

  insert_samples-IsAside :
      (samples : List ℕ) (s0 s : Server K F T R O)
      → IsAside s0 s
      → IsAside s0 (insert_samples number tensor describing uuid samples s).1
  unfolding insert_samples
  insert_samples-IsAside [] s0 s a = a
  insert_samples-IsAside (sample ∷ samples) s0 s a =
      >>=-keeps (IsAside s0) (insert_tensor number tensor describing uuid sample) _ s
        (insert_tensor-IsAside sample s0 s a)
        (λ x _.
          let t = (insert_tensor number tensor describing uuid sample s).1 in
          >>=-keeps (IsAside s0) (insert_samples number tensor describing uuid samples) _ t
            (insert_samples-IsAside samples s0 t (insert_tensor-IsAside sample s0 s a))
            (λ refs _. insert_samples-IsAside samples s0 t (insert_tensor-IsAside sample s0 s a)))

  insert_dataset-IsAside :
      (d : Artifact K Dataset) (s0 s : Server K F T R O)
      → IsAside s0 s
      → IsAside s0 (insert_dataset number tensor describing uuid d s).1
  unfolding insert_dataset new_uuid
  insert_dataset-IsAside d s0 s a =
      let t = record s { drawn = suc s.drawn } in
      let b : IsAside s0 t = record {
        same_binaries = a.same_binaries;
        same_checkpoints = a.same_checkpoints;
        same_chkpts = a.same_chkpts;
      } in
      let c = insert_samples-IsAside d.data_.samples_inputs s0 t b in
      >>=-keeps (IsAside s0) (insert_samples number tensor describing uuid d.data_.samples_inputs) _
        t c
        (λ inputs _.
          let t' = (insert_samples number tensor describing uuid d.data_.samples_inputs t).1 in
          let e = insert_tensor-IsAside d.data_.labels s0 t' c in
          >>=-keeps (IsAside s0) (insert_tensor number tensor describing uuid d.data_.labels) _ t' e
            (λ x _. record {
              same_binaries = e.same_binaries;
              same_checkpoints = e.same_checkpoints;
              same_chkpts = e.same_chkpts;
            }))

  pub convert-IsAside :
      (zero_key : K) (d : RemoteDatasetReference) (s : Server K F T R O)
      → IsAside s
          (convert_from_remote_dataset_to_dataset number tensor describing uuid zero_key d s).1
  unfolding convert_from_remote_dataset_to_dataset
  convert-IsAside zero_key d s =
      >>=-keeps (IsAside s) (lift (ok_or d.labels (status aborted "Labels not found"))) _ s
        (unchanged s)
        (λ labels_ref _.
          >>=-keeps (IsAside s) (lift (remote_dataset (number.neg64 (number.literal64 1 0)) d)) _ s
            (unchanged s)
            (λ remote _.
              let a = get_tensors-IsAside remote.inputs s s (unchanged s) in
              let t = (get_tensors remote.inputs s).1 in
              >>=-keeps (IsAside s) (get_tensors remote.inputs) _ s a (λ samples _.
                let b = get_tensor-IsAside remote.labels s t a in
                >>=-keeps (IsAside s) (get_tensor remote.labels) _ t b (λ labels _.
                  >>=-keeps (IsAside s)
                    (in_memory (Data.new number tensor samples labels remote.privacy_limit)) _
                    (get_tensor remote.labels t).1 (remembered _ b)
                    (λ data_ _. insert_dataset-IsAside _ s _ (remembered _ b))))))

  pub send_dataset-IsAside :
      (request : Request (List (Fallible Chunk))) (s : Server K F T R O)
      → IsAside s (send_dataset number tensor describing backend uuid request s).1
  unfolding send_dataset
  send_dataset-IsAside request s =
      let a = client-IsAside request s in
      let t = (client request s).1 in
      >>=-keeps (IsAside s) (client request) _ s a (λ info _.
        >>=-keeps (IsAside s) (lift (unstream_data backend.hmac_key request.message)) _ t a
          (λ artifact _.
            >>=-keeps (IsAside s)
              (lift (
                tcherror_to_status backend.display (
                  loaded (
                    load_dataset number tensor backend.archive (suc (length artifact.data_.bytes))
                      artifact.data_))))
              _ t a
              (λ l _.
                >>=-keeps (IsAside s) (in_memory (place_dataset number l)) _ t (remembered _ a)
                  (λ d _. insert_dataset-IsAside _ s _ (remembered _ a)))))

  pub send_tensor-IsAside :
      (request : Request (List (Fallible Chunk))) (s : Server K F T R O)
      → IsAside s (send_tensor number tensor describing backend uuid request s).1
  unfolding send_tensor
  send_tensor-IsAside request s =
      >>=-keeps (IsAside s) (lift (unstream_data backend.hmac_key request.message)) _ s
        (unchanged s)
        (λ res _.
          >>=-keeps (IsAside s)
            (lift (map_err _ (tensor_from backend.archive backend.detach res.data_))) _ s
            (unchanged s)
            (λ t _.
              >>=-keeps (IsAside s) (in_memory (allocate t)) _ s (remembered _ (unchanged s))
                (λ address _.
                  let b = insert_tensor-IsAside address s _ (remembered _ (unchanged s)) in
                  >>=-keeps (IsAside s) (insert_tensor number tensor describing uuid address) _ _ b
                    (λ x _. b))))

  converted_cell-IsAside :
      (address : ℕ) (t : Option T) (s : Server K F T R O)
      → IsAside s (converted_cell number tensor describing backend uuid address t s).1
  unfolding converted_cell
  converted_cell-IsAside address none s = record {
    same_binaries = refl;
    same_checkpoints = refl;
    same_chkpts = refl;
  }
  converted_cell-IsAside address (some t) s = remembered _ (unchanged s)

  pub modify_tensor-IsAside :
      (request : Request UpdateTensor) (s : Server K F T R O)
      → IsAside s (modify_tensor number tensor describing backend uuid request s).1
  unfolding modify_tensor lock_tensors lock_tensor
  modify_tensor-IsAside request s =
      >>=-keeps (IsAside s) lock_tensors _ s (unchanged s) (λ tensors _.
        >>=-keeps (IsAside s)
          (lift (
            ok_or (lookup request.message.identifier tensors)
              (status not_found "Could not find tensor")))
          _ s (unchanged s)
          (λ address _. >>=-keeps (IsAside s) (lock_tensor address) _ s (unchanged s) (λ before _.
            >>=-keeps (IsAside s) (lift (get_kind request.message.dtype)) _ s (unchanged s)
              (λ dtype _.
                let t = describing.to_dtype before dtype in
                let b = converted_cell-IsAside address t s in
                >>=-keeps (IsAside s)
                  (converted_cell number tensor describing backend uuid address t) _ s b
                  (λ x _. b)))))

  pub send_model-IsStored :
      (ids : List String) (request : Request (List (Fallible Chunk))) (s : Server K F T R O)
      → IsStored ids s
      → IsStored ids (send_model number tensor describing backend uuid request s).1
  unfolding send_model new_uuid
  send_model-IsStored ids request s i =
      let j = client-IsStored ids request s i in
      let t = (client request s).1 in
      >>=-keeps (IsStored ids) (client request) _ s j (λ info _.
        >>=-keeps (IsStored ids) (lift (unstream_data backend.hmac_key request.message)) _ t j
          (λ artifact _.
            >>=-keeps (IsStored ids)
              (lift (tcherror_to_status backend.display (deserialize binary_module artifact))) _
              (record t { drawn = suc t.drawn }) (record { covered = j.covered })
              (λ binary _. record {
                covered =
                    Covers-insert_other ids (λ (a : Artifact K ℕ). a.data_ < length t.chkpts)
                      (uuid t.drawn) binary t.checkpoints t.binaries j.covered;
              })))
