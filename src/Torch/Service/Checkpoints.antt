-- ===== src/Torch/Service/Checkpoints.antt =====
-- The checkpoints of the service: each has the binary of its module.
use bastionlab.Prelude.{
  ℕ, ◌<◌, String, ◌≡◌, refl, subst, inl, inr, Bool, true, false, some, List, [], ◌∷◌, ◌++◌, arith,
  if◌then◌else◌, Bool-cases, length, length-append, ok_or_inv, ok_or, unwrap, ◌==◌, ==_iff, nat_eq,
  string_eq, list_eq, HashMap, lookup, insert, erase, lookup-insert, lookup-erase, ◌⊎◌, contains,
  contains-append,
}
use bastionlab.Common.Status.{status, not_found, invalid_argument}
use bastionlab.Common.Action.{lift, >>=-keeps}
use bastionlab.Common.Session.{Request, ClientInfo, get_token}
use bastionlab.Learning.Numbers.{Floats}
use bastionlab.Learning.CheckPoints.{CheckPoint}
use bastionlab.Learning.CheckPoints
use bastionlab.Learning.Iterator.{Dataset}
use bastionlab.Torch.Stream.{Artifact, with_data}
use bastionlab.Torch.Names.{Device, parse_device}
use bastionlab.Torch.State.{Server}
use bastionlab.Torch.Service.{
  delete_binary, delete_checkpoint, Backend, TrainConfig, TestConfig, start_run, train, test,
  client, find_dataset, find_checkpoint, new_checkpoint,
}

-- A key that an erased map has, the map had, and it is another key.
erased {ℓ} :
    {V : Type ℓ} (k j : String) (m : HashMap String V) {v : V}
    → lookup j (erase k m) ≡ some v
    → ((k == j) ≡ false) × (lookup j m ≡ some v)
erased k j m h = elim (Bool-cases (k == j)) [
  | inl same ↦ absurd (cc (rw (lookup-erase k j m, same) at h))
  | inr other ↦ (other, rw (lookup-erase k j m, other) at h)
]

-- A key of one map has a value in another, but for the names in `ids`, and what is stored under it
-- satisfies `P`.
abbrev pub Covers :
    {V W : Type 0} → List String → (V → Type 0) → HashMap String V → HashMap String W → Type 0
Covers {V} {W} ids P m n =
    (k : String) (v : V)
    → lookup k m ≡ some v
    → P v × ((contains ids k ≡ true) ⊎ ((w : W) × (lookup k n ≡ some w)))

module _ {V W : Type 0} (P : V → Type 0) where
  Covers-erase_value :
      (ids : List String) (k : String) (m : HashMap String V) (n : HashMap String W)
      → Covers ids P m n
      → Covers (k ∷ ids) P m (erase k n)
  Covers-erase_value ids k m n c j v h =
      let (p, found) = c j v h in
      (
        p,
        elim (Bool-cases (k == j)) [
          | inl same ↦ inl (rw (same, contains) refl)
          | inr other ↦ elim found [
            | inl named ↦ inl (rw (other, contains) named)
            | inr (w, stored) ↦ inr (w, rw (lookup-erase k j n, other) stored)
          ]
        ],
      )

  Covers-erase_key :
      (ids ids' : List String) (k : String) (m : HashMap String V) (n : HashMap String W)
      → Covers (ids ++ (k ∷ ids')) P m n
      → Covers (ids ++ ids') P (erase k m) n
  Covers-erase_key ids ids' k m n c j v h =
      let (other, found) = erased k j m h in
      let (p, stored) = c j v found in
      (
        p,
        elim stored [
          | inl named ↦ inl (
              ground
                (arith, contains-append ids (k ∷ ids') j, contains-append ids ids' j, other, named))
          | inr there ↦ inr there
        ],
      )

module _ {V W : Type 0} (ids : List String) (P : V → Type 0) where
  Covers-insert_value :
      (k : String) (v : V) {w : W} (m : HashMap String V) (n : HashMap String W)
      → P v
      → lookup k n ≡ some w
      → Covers ids P m n
      → Covers ids P (insert k v m) n
  Covers-insert_value k v {w} m n p stored c j v' h = elim (Bool-cases (k == j)) [
    | inl same ↦ (
      subst P (some_value (rw (lookup-insert k j v m, same) at h)) p,
      inr (w, subst (λ (x : String). lookup x n ≡ some w) ((==_iff k j).0 same) stored),
    )
    | inr other ↦ c j v' (rw (lookup-insert k j v m, other) at h)
  ]
    where
      some_value : {x y : V} → some x ≡ some y → x ≡ y
      some_value e = cc

  pub Covers-insert_other :
      (k : String) (w : W) (m : HashMap String V) (n : HashMap String W)
      → Covers ids P m n
      → Covers ids P m (insert k w n)
  Covers-insert_other k w m n c j v h =
      let (p, found) = c j v h in
      (
        p,
        elim (Bool-cases (k == j)) [
          | inl same ↦ inr (w, rw (lookup-insert k j w n, same) refl)
          | inr other ↦ elim found [
            | inl named ↦ inl named
            | inr (w', stored) ↦ inr (w', rw (lookup-insert k j w n, other) stored)
          ]
        ],
      )

pub Covers-weaken :
    {V W : Type 0} {P Q : V → Type 0} (ids : List String) (m : HashMap String V)
    (n : HashMap String W)
    → ((v : V) → P v → Q v)
    → Covers ids P m n
    → Covers ids Q m n
Covers-weaken ids m n f c k v h = let (p, found) = c k v h in (f v p, found)

module _ {K F T R O : Type 0} where
  -- Every module with a checkpoint has a binary, but for those in `ids`, and its checkpoint stands in
  -- the store.
  pub record IsStored (ids : List String) (s : Server K F T R O) : Type 0 where
    pub covered :
        Covers ids (λ (a : Artifact K ℕ). a.data_ < length s.chkpts) s.checkpoints s.binaries

  pub delete_binary-IsStored :
      (ids : List String) (id : String) (s : Server K F T R O)
      → IsStored ids s
      → IsStored (id ∷ ids) (delete_binary id s).1
  unfolding delete_binary
  delete_binary-IsStored ids id s i = record {
    covered =
        Covers-erase_value (λ (a : Artifact K ℕ). a.data_ < length s.chkpts) ids id s.checkpoints
          s.binaries i.covered;
  }

  pub delete_checkpoint-IsStored :
      (ids ids' : List String) (id : String) (s : Server K F T R O)
      → IsStored (ids ++ (id ∷ ids')) s
      → IsStored (ids ++ ids') (delete_checkpoint id s).1
  unfolding delete_checkpoint
  delete_checkpoint-IsStored ids ids' id s i = record {
    covered =
        Covers-erase_key (λ (a : Artifact K ℕ). a.data_ < length s.chkpts) ids ids' id s.checkpoints
          s.binaries i.covered;
  }

module _ {K F T R O : Type 0} (ids : List String) where
  new_checkpoint-IsStored :
      (is_private : Bool) (info : ClientInfo) (id : String) (binary : Artifact K (List ℕ))
      (s : Server K F T R O)
      → lookup id s.binaries ≡ some binary
      → IsStored ids s
      → IsStored ids (new_checkpoint is_private info id binary s).1
  unfolding new_checkpoint
  new_checkpoint-IsStored is_private info id binary s found i =
      let longer = length-append s.chkpts (CheckPoints.new is_private ∷ []) in
      record {
        covered =
            Covers-insert_value ids
              (λ (a : Artifact K ℕ).
                a.data_ < length (s.chkpts ++ (CheckPoints.new is_private ∷ [])))
              id (record (with_data binary (length s.chkpts)) { client_info = some info })
              s.checkpoints s.binaries (omega (arith, longer)) found
              (Covers-weaken ids s.checkpoints s.binaries (λ v p. omega (arith, longer)) i.covered);
      }

  pub client-IsStored :
      {A : Type 0} (request : Request A) (s : Server K F T R O)
      → IsStored ids s
      → IsStored ids (client request s).1
  unfolding client
  client-IsStored request s i =
      >>=-keeps (IsStored ids) (lift (get_token s.sess_manager request)) _ s i (λ token _. i)

  find_dataset-IsStored :
      (id : String) (s : Server K F T R O) → IsStored ids s → IsStored ids (find_dataset id s).1
  unfolding find_dataset
  find_dataset-IsStored id s i = i

  resumed-IsStored :
      (resume : Bool) (message : String) (is_private : Bool) (info : ClientInfo) (id : String)
      (binary : Artifact K (List ℕ)) (s : Server K F T R O)
      → lookup id s.binaries ≡ some binary
      → IsStored ids s
      → IsStored ids
          ((if resume then find_checkpoint message id else new_checkpoint is_private info id binary)
            s).1
  unfolding find_checkpoint
  resumed-IsStored true message is_private info id binary s found i = i
  resumed-IsStored false message is_private info id binary s found i =
      new_checkpoint-IsStored is_private info id binary s found i

  start_run-IsStored :
      (uuid : ℕ → String) (d : Dataset) (binary : List ℕ) (chkpt : ℕ) (device : Device)
      (s : Server K F T R O)
      → IsStored ids s
      → IsStored ids (start_run uuid d binary chkpt device s).1
  unfolding start_run
  start_run-IsStored uuid d binary chkpt device s i = record { covered = i.covered }

module _ {K F D T R M O : Type 0} (number : Floats F D) (backend : Backend K T M)
    (uuid : ℕ → String) (ids : List String) where
  pub train-IsStored :
      (request : Request (TrainConfig F)) (s : Server K F T R O)
      → IsStored ids s
      → IsStored ids (train number backend uuid request s).1
  unfolding train find_dataset
  train-IsStored request s i =
      let config = request.message in
      >>=-keeps (IsStored ids) (client request) _ s (client-IsStored ids request s i) (λ info _.
        let t = (client request s).1 in
        let j : IsStored ids t = client-IsStored ids request s i in
        >>=-keeps (IsStored ids)
          (lift (ok_or (lookup config.dataset t.datasets) (status not_found "Dataset not found"))) _
          t j
          (λ dataset _.
            >>=-keeps (IsStored ids)
              (lift (ok_or config.model (status invalid_argument "Invalid module reference"))) _ t j
              (λ model _.
                >>=-keeps (IsStored ids)
                  (lift (parse_device backend.cuda_if_available config.device)) _ t j
                  (λ device _.
                    >>=-keeps (IsStored ids)
                      (lift (
                        ok_or (lookup model.identifier t.binaries)
                          (status not_found "Module binary not found")))
                      _ t j
                      (λ binary found.
                        >>=-keeps (IsStored ids)
                          (if config.resume
                            then find_checkpoint "CheckPoint not found!" model.identifier
                            else new_checkpoint (number.le (number.literal 0 0) config.eps) info
                                model.identifier binary)
                          _ t
                          (resumed-IsStored ids config.resume "CheckPoint not found!"
                            (number.le (number.literal 0 0) config.eps) info model.identifier binary
                            t (ok_or_inv _ _ found) j)
                          (λ chkpt _.
                            start_run-IsStored ids uuid dataset.data_ binary.data_ chkpt.data_
                              device _
                              (resumed-IsStored ids config.resume "CheckPoint not found!"
                                (number.le (number.literal 0 0) config.eps) info model.identifier
                                binary t (ok_or_inv _ _ found) j)))))))

  pub test-IsStored :
      (request : Request TestConfig) (s : Server K F T R O)
      → IsStored ids s
      → IsStored ids (test number backend uuid request s).1
  unfolding test find_dataset find_checkpoint
  test-IsStored request s i =
      let config = request.message in
      >>=-keeps (IsStored ids) (client request) _ s (client-IsStored ids request s i) (λ info _.
        let t = (client request s).1 in
        let j : IsStored ids t = client-IsStored ids request s i in
        >>=-keeps (IsStored ids)
          (lift (ok_or (lookup config.dataset t.datasets) (status not_found "Dataset not found"))) _
          t j
          (λ dataset _.
            >>=-keeps (IsStored ids)
              (lift (ok_or config.model (status invalid_argument "Invalid dataset reference"))) _ t
              j
              (λ model _.
                >>=-keeps (IsStored ids)
                  (lift (parse_device backend.cuda_if_available config.device)) _ t j
                  (λ device _.
                    >>=-keeps (IsStored ids)
                      (lift (
                        ok_or (lookup model.identifier t.checkpoints)
                          (status not_found "Module not found")))
                      _ t j
                      (λ artifact _.
                        >>=-keeps (IsStored ids)
                          (lift (unwrap (lookup model.identifier t.binaries))) _ t j
                          (λ binary _.
                            start_run-IsStored ids uuid dataset.data_ binary.data_ artifact.data_
                              device t j))))))
