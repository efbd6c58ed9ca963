-- ===== src/Torch/Histories.antt =====
-- Histories of the torch service: whatever the clients send and the tasks report, every module with a
-- checkpoint keeps its binary.
use bastionlab.Prelude.{
  true, false, ℕ, zero, suc, String, ◌≡◌, refl, sym, ap, subst, ◌≢◌, inl, inr, Option, none, some,
  List, [], ◌∷◌, Bool-cases, Option-cases, length, ok_or_inv, panic, ok_or, Outcome-cases, ◌==◌,
  nat_eq, string_eq, list_eq, lookup, lookup-nil, contains, ◌++◌,
}
use bastionlab.Prelude.{codes, strip_prefix, parse_usize}
use bastionlab.Common.Status.{status, Fallible, not_found, invalid_argument}
use bastionlab.Common.Action.{lift, >>=-panics}
use bastionlab.Common.Session.{
  Request, SessionManager, get_token, get_client_info, access_token, auth_enabled, session_of,
}
use bastionlab.Common.Auth.{MetadataMap, get_bin}
use bastionlab.Learning.Numbers.{Floats, Tensors}
use bastionlab.Learning.Data.{Memory}
use bastionlab.Learning.CheckPoints.{CheckPoint}
use bastionlab.Torch.Stream.{Artifact, Chunk}
use bastionlab.Torch.Names.{Reference, Device, RemoteDatasetReference, parse_device}
use bastionlab.Torch.State.{Run, Server, new, new_uuid, Describing}
use bastionlab.Torch.Service.{
  Backend, TrainConfig, TestConfig, UpdateTensor, train, test, client, delete_dataset,
  delete_binary, delete_checkpoint, find_checkpoint, find_dataset, start_run,
}
use bastionlab.Torch.Service.Checkpoints.{
  IsStored, Covers-weaken, client-IsStored, train-IsStored, test-IsStored, delete_binary-IsStored,
  delete_checkpoint-IsStored,
}
use bastionlab.Torch.Transfers.{
  send_dataset, send_model, send_tensor, modify_tensor, conv_to_dataset,
}
use bastionlab.Torch.Runs.{report, log_at}
use bastionlab.Torch.Aside.{
  aside-IsStored, report-IsAside, convert-IsAside, send_dataset-IsAside, send_tensor-IsAside,
  modify_tensor-IsAside, send_model-IsStored,
}

ok_or-panic : {E A : Type 0} (o : Option A) (e : E) → ok_or o e ≡ panic → ⊥
ok_or-panic none e h = cc
ok_or-panic (some a) e h = cc

access_token-panic : (metadata : MetadataMap) → access_token metadata ≡ panic → ⊥
unfolding access_token
access_token-panic metadata h = elim (Option-cases (get_bin metadata "accesstoken-bin")) [
  | inl missing ↦ absurd (cc (rw (missing, access_token) at h))
  | inr (meta, found) ↦ ok_or-panic meta _ (rw (found, access_token) at h)
]

get_token-panic :
    {A : Type 0} (sess : SessionManager) (request : Request A) → get_token sess request ≡ panic → ⊥
unfolding get_token
get_token-panic sess request h = elim (Bool-cases (auth_enabled sess)) [
  | inr open_ ↦ absurd (cc (rw open_ at h))
  | inl closed ↦ elim (Outcome-cases (access_token request.metadata)) [
    | inl (token, found) ↦ absurd (cc (rw (closed, found) at h))
    | inr (inl (e, failed)) ↦ absurd (cc (rw (closed, failed) at h))
    | inr (inr p) ↦ access_token-panic request.metadata p
  ]
]

get_client_info-panic :
    (sess : SessionManager) (token : Option (List ℕ)) → get_client_info sess token ≡ panic → ⊥
unfolding get_client_info
get_client_info-panic sess token h = elim (Outcome-cases (session_of sess token)) [
  | inl (session, found) ↦ absurd (cc (rw (found, get_client_info) at h))
  | inr (inl (e, failed)) ↦ absurd (cc (rw (failed, get_client_info) at h))
  | inr (inr p) ↦ ok_or-panic _ _ p
]

client-panic :
    {K F T R O A : Type 0} (request : Request A) (s : Server K F T R O)
    → (client request s).0 ≡ panic
    → ⊥
unfolding client
client-panic request s h = elim (>>=-panics (lift (get_token s.sess_manager request)) _ s h) [
  | inl p ↦ get_token-panic s.sess_manager request p
  | inr (token, _, p) ↦ get_client_info-panic s.sess_manager token p
]

parse_device-panic : (gpu : Device) (device : String) → parse_device gpu device ≡ panic → ⊥
unfolding parse_device
parse_device-panic gpu device h = elim (Bool-cases (device == "cpu")) [
  | inl named ↦ absurd (cc (rw named at h))
  | inr other ↦ elim (Bool-cases (device == "gpu")) [
    | inl named ↦ absurd (cc (rw (other, named) at h))
    | inr cuda_named ↦ elim (Option-cases (strip_prefix (codes "cuda:") (codes device))) [
      | inr (id, found) ↦ elim (Option-cases (parse_usize id)) [
        | inr (n, parsed) ↦ absurd (cc (rw (other, cuda_named, found, parsed) at h))
        | inl unparsed ↦ absurd (cc (rw (other, cuda_named, found, unparsed) at h))
      ]
      | inl missing ↦ absurd (cc (rw (other, cuda_named, missing) at h))
    ]
  ]
]

module _ {K F D T R V C U M O : Type 0} (number : Floats F D) (tensor : Tensors T D R V C U)
    (describing : Describing T) (backend : Backend K T M) (uuid : ℕ → String) where
  -- What changes the service: the requests of clients, none of which has panicked, and the tasks of its
  -- runs.
  pub data Step (s u : Server K F T R O) : Type 0 where
    data_sent :
        (request : Request (List (Fallible Chunk)))
        → (send_dataset number tensor describing backend uuid request s).0 ≢ panic
        → u ≡ (send_dataset number tensor describing backend uuid request s).1
        → Step s u
    model_sent :
        (request : Request (List (Fallible Chunk)))
        → (send_model number tensor describing backend uuid request s).0 ≢ panic
        → u ≡ (send_model number tensor describing backend uuid request s).1
        → Step s u
    tensor_sent :
        (request : Request (List (Fallible Chunk)))
        → (send_tensor number tensor describing backend uuid request s).0 ≢ panic
        → u ≡ (send_tensor number tensor describing backend uuid request s).1
        → Step s u
    tensor_modified :
        (request : Request UpdateTensor)
        → (modify_tensor number tensor describing backend uuid request s).0 ≢ panic
        → u ≡ (modify_tensor number tensor describing backend uuid request s).1
        → Step s u
    converted :
        (request : Request RemoteDatasetReference)
        → (conv_to_dataset number tensor describing backend uuid request s).0 ≢ panic
        → u ≡ (conv_to_dataset number tensor describing backend uuid request s).1
        → Step s u
    dataset_deleted :
        (request : Request String)
        → (delete_dataset request s).0 ≢ panic
        → u ≡ (delete_dataset request s).1
        → Step s u
    trained :
        (request : Request (TrainConfig F))
        → (train number backend uuid request s).0 ≢ panic
        → u ≡ (train number backend uuid request s).1
        → Step s u
    tested :
        (request : Request TestConfig)
        → (test number backend uuid request s).0 ≢ panic
        → u ≡ (test number backend uuid request s).1
        → Step s u
    run_reported : (run : String) (change : Run F → Run F) → u ≡ (report run change s).1 → Step s u
    weights_logged :
        (address : ℕ) (weights : List ℕ) (state : O)
        → u ≡ record s { chkpts = log_at s.chkpts address weights state }
        → Step s u

  -- The states that the service reaches, with the modules that are being deleted: a deletion is two
  -- steps, between which other requests may come.
  pub data Reach (s : Server K F T R O) : List String → Server K F T R O → Type 0 where
    here : Reach s [] s
    after : {ids : List String} {t u : Server K F T R O} → Reach s ids t → Step t u → Reach s ids u
    deleting :
        {ids : List String} {t : Server K F T R O} (id : String)
        → Reach s ids t
        → Reach s (id ∷ ids) (delete_binary id t).1
    deleted :
        {t : Server K F T R O} (ids ids' : List String) (id : String)
        → Reach s (ids ++ (id ∷ ids')) t
        → Reach s (ids ++ ids') (delete_checkpoint id t).1

  length-log_at :
      (cs : List (CheckPoint O)) (address : ℕ) (weights : List ℕ) (state : O)
      → length (log_at cs address weights state) ≡ length cs
  unfolding log_at
  length-log_at [] address weights state = refl
  length-log_at (c ∷ cs) zero weights state = refl
  length-log_at (c ∷ cs) (suc address) weights state =
      ap suc (length-log_at cs address weights state)

  Step-IsStored :
      (ids : List String) (s u : Server K F T R O) → Step s u → IsStored ids s → IsStored ids u
  Step-IsStored ids s u (data_sent request fine e) i = subst (IsStored ids) (sym e) (
      aside-IsStored ids s _ (send_dataset-IsAside number tensor describing backend uuid request s)
        i)
  Step-IsStored ids s u (model_sent request fine e) i =
      subst (IsStored ids) (sym e)
        (send_model-IsStored number tensor describing backend uuid ids request s i)
  Step-IsStored ids s u (tensor_sent request fine e) i = subst (IsStored ids) (sym e) (
      aside-IsStored ids s _ (send_tensor-IsAside number tensor describing backend uuid request s)
        i)
  Step-IsStored ids s u (tensor_modified request fine e) i = subst (IsStored ids) (sym e) (
      aside-IsStored ids s _ (modify_tensor-IsAside number tensor describing backend uuid request s)
        i)
  Step-IsStored ids s u (converted request fine e) i = subst (IsStored ids) (sym e) (
      aside-IsStored ids s _
        (unfold conv_to_dataset in
          convert-IsAside number tensor describing backend uuid (backend.hmac_key (0 ∷ []))
            request.message s)
        i)
  Step-IsStored ids s u (dataset_deleted request fine e) i =
      subst (IsStored ids) (sym e) (unfold delete_dataset in record { covered = i.covered })
  Step-IsStored ids s u (trained request fine e) i =
      subst (IsStored ids) (sym e) (train-IsStored number backend uuid ids request s i)
  Step-IsStored ids s u (tested request fine e) i =
      subst (IsStored ids) (sym e) (test-IsStored number backend uuid ids request s i)
  Step-IsStored ids s u (run_reported run change e) i =
      subst (IsStored ids) (sym e) (aside-IsStored ids s _ (report-IsAside run change s) i)
  Step-IsStored ids s u (weights_logged address weights state e) i =
      subst (IsStored ids) (sym e) (record {
        covered =
            Covers-weaken ids s.checkpoints s.binaries
              (λ v p. rw (length-log_at s.chkpts address weights state) p) i.covered;
      })

  new-IsStored :
      (sess : SessionManager) (m : Memory F T R)
      → IsStored [] (new {K = K} {F = F} {T = T} {R = R} {O = O} sess m)
  unfolding new
  new-IsStored sess m = record {
    covered = λ k v h. absurd (cc (lookup-nil {V = Artifact K ℕ} k, h));
  }

  Reach-IsStored :
      {s t : Server K F T R O} {ids : List String} → IsStored [] s → Reach s ids t → IsStored ids t
  Reach-IsStored i here = i
  Reach-IsStored i (after {ids = ids} {t = t} {u = u} r step) =
      Step-IsStored ids t u step (Reach-IsStored i r)
  Reach-IsStored i (deleting {ids = ids} {t = t} id r) =
      delete_binary-IsStored ids id t (Reach-IsStored i r)
  Reach-IsStored i (deleted {t = t} ids ids' id r) =
      delete_checkpoint-IsStored ids ids' id t (Reach-IsStored i r)

  test-panics :
      (ids : List String) (request : Request TestConfig) (s : Server K F T R O)
      → IsStored ids s
      → (test number backend uuid request s).0 ≡ panic
      → (model : Reference) × (request.message.model ≡ some model)
        × (contains ids model.identifier ≡ true)
  unfolding test find_dataset find_checkpoint start_run new_uuid
  test-panics ids request s i h =
      let config = request.message in
      let t = (client request s).1 in
      elim (>>=-panics (client request) _ s h) [
        | inl p ↦ absurd (client-panic request s p)
        | inr (info, _, h1) ↦
            elim (>>=-panics
              (lift
                (ok_or (lookup config.dataset t.datasets) (status not_found "Dataset not found")))
              _ t h1) [
                | inl p ↦ absurd (ok_or-panic _ _ p)
                | inr (dataset, _, h2) ↦
                    elim (>>=-panics
                      (lift
                        (ok_or config.model (status invalid_argument "Invalid dataset reference")))
                      _ t h2) [
                        | inl p ↦ absurd (ok_or-panic _ _ p)
                        | inr (model, chosen, h3) ↦
                            elim (>>=-panics
                              (lift (parse_device backend.cuda_if_available config.device)) _ t
                              h3) [
                                | inl p ↦
                                    absurd
                                      (parse_device-panic backend.cuda_if_available config.device p)
                                | inr (device, _, h4) ↦
                                    elim (>>=-panics
                                      (lift (
                                        ok_or (lookup model.identifier t.checkpoints)
                                          (status not_found "Module not found")))
                                      _ t h4) [
                                        | inl p ↦ absurd (ok_or-panic _ _ p)
                                        | inr (artifact, found, h5) ↦
                                            let (p, there) =
                                              (client-IsStored ids request s i).covered
                                                model.identifier artifact (ok_or_inv _ _ found) in
                                            elim there [
                                              | inl named ↦ (model, ok_or_inv _ _ chosen, named)
                                              | inr (w, stored) ↦ absurd (cc (rw stored at h5))
                                            ]
                                      ]
                              ]
                      ]
              ]
      ]

  -- The service starts empty, and handles requests of clients and reports of its tasks in any order,
  -- a deletion of a module in two steps with others between them. In every state that it reaches
  -- while no request has panicked, a request to test a module ends in a reply or an error and never
  -- in a panic, unless a deletion of that very module has removed its binary and not yet its
  -- checkpoint.
  pub Reach-test :
      (sess : SessionManager) (m : Memory F T R) (ids : List String) (s : Server K F T R O)
      (request : Request TestConfig)
      → Reach (new sess m) ids s
      → ((model : Reference)
          → request.message.model ≡ some model
          → contains ids model.identifier ≡ false)
      → (test number backend uuid request s).0 ≢ panic
  Reach-test sess m ids s request r elsewhere h =
      let (model, chosen, named) =
        test-panics ids request s (Reach-IsStored (new-IsStored sess m) r) h in
      cc (elsewhere model chosen)
