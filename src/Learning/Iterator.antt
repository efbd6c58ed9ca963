-- ===== src/Learning/Iterator.antt =====
-- server/bastionlab_learning/src/data/dataset.rs: datasets, and the batches that they are read in.
-- A tensor behind its lock stands at an address, which datasets share.
pub mod Rows
mod Tests
use bastionlab.Prelude.{
  ℕ, zero, suc, ◌+◌, ◌-◌, ◌*◌, ◌/◌, ◌%◌, ◌^◌, ◌≤◌, ◌<◌, min, max, String, ◌≡◌, refl, sym, ap, subst,
  ◌∙◌, ◌≢◌, ◌↔◌, ◌⊎◌, inl, inr, Bool, true, false, ◌&&◌, ◌||◌, not, Option, none, some, List, [],
  ◌∷◌, ◌++◌, map, append-nil, append_assoc, arith, ltb, leb, eqb, if◌then◌else◌, ltb→lt, lt→ltb,
  leb→le, le→leb, eqb_iff, tests, Bool-cases, Option-cases, length, get_elem?, take, drop, last?,
  length-append, take-append-drop, length-take, length-drop, take-length-append, drop-length-append,
  drop-eq-nil, length-map, All, All-append, ok_or_inv, ok_injective, Outcome, ok, err, panic, ◌>>=◌,
  ◌>>◌, ok_or, unwrap, ensure, map_err, >>=-eq-ok, Outcome-cases, PartialEq, ◌==◌, ==_iff, contains,
  nat_eq, string_eq, list_eq, paired, contains-append, lookup-insert_inv, chunks_on, chunks, joined,
  Sized, joined-chunks, HashMap, lookup, insert, erase, lookup-nil, lookup-insert, lookup-erase,
  lookup-append, or_else, beq_refl, map_laws, concat, decimal,
}
use bastionlab.Learning.Bytes.{TchError}
use bastionlab.Learning.Numbers.{Tensors}
use bastionlab.Learning.Privacy.{BatchDependence, independent}
use bastionlab.Learning.Privacy.Guards.{PrivacyGuard, guard}

pub record Dataset : Type 0 where
  pub samples_inputs : List ℕ
  pub labels : ℕ
  pub privacy_context : ℕ

pub record DatasetIter : Type 0 where
  pub dataset : Dataset
  pub indexes : List ℕ
  pub batch_size : ℕ
  pub batch_id : ℕ

-- What one step of the iterator yields.
pub record Batch (F T : Type 0) : Type 0 where
  pub inputs : List (PrivacyGuard F T)
  pub labels : PrivacyGuard F T

module _ {ℓ} {E : Type ℓ} {T : Type 0} where
  -- `lock().unwrap()` of a thread that holds the locks of `held`: it panics, or never returns, when
  -- the lock is among them.
  unfoldable pub lock : List T → List ℕ → ℕ → Outcome E T
  lock cells held address =
      if contains held address then panic else unwrap (get_elem? cells address)

  unfoldable pub lock_all : List T → List ℕ → List ℕ → Outcome E (List T)
  lock_all cells held [] = ok []
  lock_all cells held (a ∷ addresses) = do
    t ← lock cells held a
    ts ← lock_all cells (a ∷ held) addresses
    ok (t ∷ ts)

-- A row is pushed to the columns, as far as both reach.
unfoldable pub push_each : {T : Type 0} → List (List T) → List T → List (List T)
push_each [] row = []
push_each (column ∷ columns) [] = column ∷ columns
push_each (column ∷ columns) (x ∷ row) = (column ++ (x ∷ [])) ∷ push_each columns row

abbrev pub nothing_in : {T : Type 0} → List T → List (List T)
nothing_in {T} inputs = map (λ (t : T). []) inputs

abbrev pub guards_of : {F T : Type 0} → ℕ → ℕ → List T → List (PrivacyGuard F T)
guards_of batch_id context ts = map (λ t. guard t (independent (batch_id ∷ [])) context) ts

abbrev pub advanced : DatasetIter → DatasetIter
advanced self = record self {
  indexes = drop self.batch_size self.indexes;
  batch_id = suc self.batch_id;
}

module _ {D T R V C U : Type 0} (tensor : Tensors T D R V C U) {E : Type 0} where
  -- `size()[0]`
  unfoldable pub lines : T → Outcome E ℕ
  lines t = unwrap (get_elem? (tensor.size t) 0)

  -- The samples of an index.
  unfoldable pub select_each : List T → ℕ → Outcome E (List T)
  select_each [] idx = ok []
  select_each (input ∷ inputs) idx = do
    x ← unwrap (tensor.select input idx)
    row ← select_each inputs idx
    ok (x ∷ row)

  -- The loop over the items of a batch.
  unfoldable pub gather :
      List T → T → List ℕ → List (List T) → List T → Outcome E (List (List T) × List T)
  unfolding select_each push_each
  gather inputs labels [] columns column = ok (columns, column)
  gather inputs labels (idx ∷ indexes) columns column = do
    row ← select_each inputs idx
    label ← unwrap (tensor.select labels idx)
    gather inputs labels indexes (push_each columns row) (column ++ (label ∷ []))

  -- `Tensor::f_stack(..).unwrap()`
  unfoldable pub stacked : List T → Outcome E T
  stacked ts = elim (tensor.stack ts) [ ok t ↦ ok t | err e ↦ panic | panic ↦ panic ]

  unfoldable pub stack_each : List (List T) → Outcome E (List T)
  unfolding stacked
  stack_each [] = ok []
  stack_each (column ∷ columns) = do t ← stacked column; ts ← stack_each columns; ok (t ∷ ts)

  unfoldable pub batch_of : {F : Type 0} → List T → DatasetIter → Outcome E (Batch F T)
  batch_of cells self = do
    inputs ← lock_all cells [] self.dataset.samples_inputs
    labels ← lock cells self.dataset.samples_inputs self.dataset.labels
    (columns, column) ←
        gather inputs labels (take self.batch_size self.indexes) (nothing_in inputs) []
    batch_inputs ← stack_each columns
    batch_labels ← stacked column
    ok (record {
      inputs = guards_of self.batch_id self.dataset.privacy_context batch_inputs;
      labels = guard batch_labels (independent (self.batch_id ∷ [])) self.dataset.privacy_context;
    })

  -- `<DatasetIter as Iterator>::next`
  unfoldable pub next_batch :
      {F : Type 0} → List T → DatasetIter → Outcome E (Option (Batch F T) × DatasetIter)
  next_batch cells self =
      if ltb (length self.indexes) self.batch_size
      then ok (none, self)
      else (do batch ← batch_of cells self; ok (some batch, advanced self))

  -- A `for` loop over the iterator, with fuel; `none` means that the fuel ran out.
  unfoldable pub batches :
      {F : Type 0} → ℕ → List T → DatasetIter → Option (Outcome E (List (Batch F T)))
  batches {F} zero cells self = none
  batches {F} (suc fuel) cells self = elim (next_batch {F = F} cells self) [
    | ok (none, rest) ↦ some (ok [])
    | ok (some batch, rest) ↦ elim (batches fuel cells rest) [
      | none ↦ none
      | some (ok more) ↦ some (ok (batch ∷ more))
      | some (err e) ↦ some (err e)
      | some panic ↦ some panic
    ]
    | err e ↦ some (err e)
    | panic ↦ some panic
  ]
