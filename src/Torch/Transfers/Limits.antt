-- ===== src/Torch/Transfers/Limits.antt =====
-- The privacy limit of a dataset that is put together from tensors on the server.
use bastionlab.Prelude.{
  ℕ, suc, String, ◌≡◌, refl, sym, ap, subst, true, some, List, [], ◌∷◌, eqb_iff, ok_injective,
  Outcome, ok, ok_or, unwrap, nat_eq, string_eq, list_eq, lookup, lookup-insert, beq_refl,
}
use bastionlab.Prelude.{>>=-eq-ok as >>=-ok}
use bastionlab.Common.Status.{Status, status, aborted}
use bastionlab.Common.Action.{lift, >>=-eq-ok, >>=-keeps}
use bastionlab.Common.Session.{Request}
use bastionlab.Learning.Numbers.{Floats, Tensors}
use bastionlab.Learning.Privacy.{
  PrivacyBudget, not_private, private_, PrivacyContext, within_bounds, is_within,
}
use bastionlab.Learning.Privacy
use bastionlab.Learning.Privacy.Guards.{write}
use bastionlab.Learning.Iterator.{Dataset, lines}
use bastionlab.Learning.Data.{Memory, read_cell, new_context, limit_of}
use bastionlab.Learning.Data
use bastionlab.Torch.Stream.{Artifact}
use bastionlab.Torch.Names.{Reference, RemoteDatasetReference, RemoteDataset, remote_dataset}
use bastionlab.Torch.State.{
  Server, new_uuid, Describing, in_memory, lock_tensors, lock_tensor, insert_tensor, insert_samples,
  insert_dataset, get_tensor, get_tensors, convert_from_remote_dataset_to_dataset,
}
use bastionlab.Torch.Service.{Backend}
use bastionlab.Torch.Transfers.{conv_to_dataset}

abbrev pub minus_one : {F D : Type 0} → Floats F D → D
minus_one number = number.neg64 (number.literal64 1 0)

remote_dataset-limit :
    {D E : Type 0} (x : D) (d : RemoteDatasetReference) {remote : RemoteDataset D}
    → remote_dataset {E = E} x d ≡ ok remote
    → remote.privacy_limit ≡ x
unfolding remote_dataset
remote_dataset-limit {D} {E} x d {remote} h =
    let (labels, found, made) = >>=-ok (unwrap {E = E} d.labels) _ h in
    ap (λ (r : RemoteDataset D). r.privacy_limit) (sym (ok_injective made))

module _ {F D T R V C U : Type 0} (number : Floats F D) (tensor : Tensors T D R V C U) where
  new-limit :
      (samples : List ℕ) (labels : ℕ) (limit : D) (m m' : Memory F T R) {d : Dataset}
      → number.eq64 limit (minus_one number) ≡ true
      → Data.new number tensor {E = Status} samples labels limit m ≡ (ok d, m')
      → (m'.world.contexts d.privacy_context).limit ≡ not_private
  unfolding Data.new new_context limit_of read_cell write Privacy.new
  new-limit samples labels limit m m' {d} equal h =
      let (t, m1, e1, h1) = >>=-eq-ok (read_cell labels) _ m h in
      let (n, m2, e2, h2) = >>=-eq-ok (lift (lines tensor t)) _ m1 h1 in
      let q0 = ap (λ (x : Outcome Status Dataset × Memory F T R). x.0) h2 in
      let q1 = ap (λ (x : Outcome Status Dataset × Memory F T R). x.1) h2 in
      subst (λ (x : Dataset). (m'.world.contexts x.privacy_context).limit ≡ not_private)
        (ok_injective q0)
        (subst (λ (x : Memory F T R). (x.world.contexts m2.next_context).limit ≡ not_private) q1
          (rw ((eqb_iff m2.next_context m2.next_context).1 refl) (rw equal refl)))

module _ {K F D T R V C U M O : Type 0} (number : Floats F D) (tensor : Tensors T D R V C U)
    (describing : Describing T) (backend : Backend K T M) (uuid : ℕ → String) where
  insert_tensor-memory :
      (address : ℕ) (m : Memory F T R) (s : Server K F T R O)
      → s.memory ≡ m
      → (insert_tensor number tensor describing uuid address s).1.memory ≡ m
  unfolding insert_tensor new_uuid lock_tensor lock_tensors
  insert_tensor-memory address m s e =
      >>=-keeps (λ (x : Server K F T R O). x.memory ≡ m) (lock_tensor address) _
        (record s { drawn = suc s.drawn }) e
        (λ x _.
          >>=-keeps (λ (x : Server K F T R O). x.memory ≡ m) lock_tensors _
            (record s { drawn = suc s.drawn }) e (λ tensors _. e))

  insert_samples-memory :
      (samples : List ℕ) (m : Memory F T R) (s : Server K F T R O)
      → s.memory ≡ m
      → (insert_samples number tensor describing uuid samples s).1.memory ≡ m
  unfolding insert_samples
  insert_samples-memory [] m s e = e
  insert_samples-memory (sample ∷ samples) m s e =
      let t = (insert_tensor number tensor describing uuid sample s).1 in
      let h = insert_tensor-memory sample m s e in
      >>=-keeps (λ (x : Server K F T R O). x.memory ≡ m)
        (insert_tensor number tensor describing uuid sample) _ s h
        (λ x _.
          >>=-keeps (λ (x : Server K F T R O). x.memory ≡ m)
            (insert_samples number tensor describing uuid samples) _ t
            (insert_samples-memory samples m t h) (λ refs _. insert_samples-memory samples m t h))

  -- A dataset that was inserted is stored under the identifier of the reply, and the memory is as it was.
  insert_dataset-stored :
      (d : Artifact K Dataset) (s s' : Server K F T R O) (r : RemoteDatasetReference)
      → insert_dataset number tensor describing uuid d s ≡ (ok r, s')
      → (lookup r.identifier s'.datasets ≡ some d) × (s'.memory ≡ s.memory)
  unfolding insert_dataset new_uuid
  insert_dataset-stored d s s' r h =
      let s0 = record s { drawn = suc s.drawn } in
      let (inputs, s1, e1, h1) =
        >>=-eq-ok (insert_samples number tensor describing uuid d.data_.samples_inputs) _ s0 h in
      let (x, s2, e2, h2) =
        >>=-eq-ok (insert_tensor number tensor describing uuid d.data_.labels) _ s1 h1 in
      let p0 = ap (λ (x : Outcome Status RemoteDatasetReference × Server K F T R O). x.0) h2 in
      let p1 = ap (λ (x : Outcome Status RemoteDatasetReference × Server K F T R O). x.1) h2 in
      let kept1 =
        subst (λ (x : Outcome Status (List Reference) × Server K F T R O). x.1.memory ≡ s.memory) e1
          (insert_samples-memory d.data_.samples_inputs s.memory s0 refl) in
      let kept2 =
        subst
          (λ (x : Outcome Status (String × Reference) × Server K F T R O). x.1.memory ≡ s.memory) e2
          (insert_tensor-memory d.data_.labels s.memory s1 kept1) in
      (
        subst (λ (q : RemoteDatasetReference). lookup q.identifier s'.datasets ≡ some d)
            (ok_injective p0)
            (subst (λ (t : Server K F T R O). lookup (uuid s.drawn) t.datasets ≡ some d) p1
              (rw
                (lookup-insert (uuid s.drawn) (uuid s.drawn) d s2.datasets, beq_refl (uuid s.drawn))
                refl)),
        subst (λ (t : Server K F T R O). t.memory ≡ s.memory) p1 kept2,
      )

  -- A dataset that the service puts together from tensors is stored without a privacy limit, so that
  -- every budget is within the bounds of its context. The comparison of the number -1 with itself is
  -- assumed to hold.
  pub conv_to_dataset-unlimited :
      (request : Request RemoteDatasetReference) (s s' : Server K F T R O)
      (r : RemoteDatasetReference) (budget : PrivacyBudget F)
      → number.eq64 (minus_one number) (minus_one number) ≡ true
      → conv_to_dataset number tensor describing backend uuid request s ≡ (ok r, s')
      → (a : Artifact K Dataset) × (lookup r.identifier s'.datasets ≡ some a)
        × ((s'.memory.world.contexts a.data_.privacy_context).limit ≡ not_private)
        × (within_bounds number (s'.memory.world.contexts a.data_.privacy_context) budget ≡ true)
  unfolding conv_to_dataset convert_from_remote_dataset_to_dataset within_bounds is_within
  conv_to_dataset-unlimited request s s' r budget equal h =
      let d = request.message in
      let (labels_ref, s1, e1, h1) =
        >>=-eq-ok (lift (ok_or d.labels (status aborted "Labels not found"))) _ s h in
      let (remote, s2, e2, h2) = >>=-eq-ok (lift (remote_dataset (minus_one number) d)) _ s1 h1 in
      let (samples, s3, e3, h3) = >>=-eq-ok (get_tensors remote.inputs) _ s2 h2 in
      let (labels, s4, e4, h4) = >>=-eq-ok (get_tensor remote.labels) _ s3 h3 in
      let (data_, s5, e5, h5) =
        >>=-eq-ok (in_memory (Data.new number tensor samples labels remote.privacy_limit)) _ s4
          h4 in
      let (stored, kept) = insert_dataset-stored _ s5 s' r h5 in
      let unlimited : (s'.memory.world.contexts data_.privacy_context).limit ≡ not_private =
        subst (λ (x : Memory F T R). (x.world.contexts data_.privacy_context).limit ≡ not_private)
          (sym kept)
          (new-limit number tensor samples labels remote.privacy_limit s4.memory s5.memory
            (subst (λ (x : D). number.eq64 x (minus_one number) ≡ true)
              (sym (
                remote_dataset-limit (minus_one number) d
                  (ap (λ (x : Outcome Status (RemoteDataset D) × Server K F T R O). x.0) e2)))
              equal)
            (λ k. ((e5 k).0, (e5 k).1.memory))) in
      (_, stored, unlimited, rw unlimited refl)
