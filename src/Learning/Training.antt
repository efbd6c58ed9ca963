-- ===== src/Learning/Training.antt =====
-- server/bastionlab_learning/src/procedures.rs: the trainer.
mod Epochs
mod Tests
use bastionlab.Prelude.{
  ℕ, zero, suc, ◌+◌, ◌-◌, ◌*◌, ◌/◌, ◌%◌, ◌^◌, ◌≤◌, ◌<◌, min, max, String, ◌≡◌, refl, sym, ap, subst,
  ◌∙◌, ◌≢◌, ◌↔◌, ◌⊎◌, inl, inr, Bool, true, false, ◌&&◌, ◌||◌, not, Option, none, some, List, [],
  ◌∷◌, ◌++◌, map, append-nil, append_assoc, arith, ltb, leb, eqb, if◌then◌else◌, ltb→lt, lt→ltb,
  leb→le, le→leb, eqb_iff, tests, Bool-cases, Option-cases, length, get_elem?, take, drop, last?,
  length-append, take-append-drop, length-take, length-drop, take-length-append, drop-length-append,
  drop-eq-nil, length-map, All, All-append, ok_or_inv, ok_injective, Outcome, ok, err, panic, ok_or,
  unwrap, ensure, map_err, Outcome-cases, PartialEq, ◌==◌, ==_iff, contains, nat_eq, string_eq,
  list_eq, paired, contains-append, lookup-insert_inv, chunks_on, chunks, joined, Sized,
  joined-chunks, HashMap, lookup, insert, erase, lookup-nil, lookup-insert, lookup-erase,
  lookup-append, or_else, beq_refl, map_laws, concat, decimal,
}
use bastionlab.Prelude
use bastionlab.Common.Action.{Call, Action, pure, raise, lift, gets, modify, continue, ◌>>=◌, ◌>>◌}
use bastionlab.Learning.Bytes.{TchError}
use bastionlab.Learning.Numbers.{Floats, Tensors, ℤ, pos, negsuc}
use bastionlab.Learning.Privacy.{PrivacyBudget}
use bastionlab.Learning.Privacy.Guards.{PrivacyGuard}
use bastionlab.Learning.Privacy.Operations.{f_to}
use bastionlab.Learning.Iterator.{Dataset, DatasetIter, Batch}
use bastionlab.Learning.Data.{Memory, iter_shuffle, len}
use bastionlab.Learning.CheckPoints.{CheckPoint, log_chkpt}
use bastionlab.Learning.Metrics.{Metric, compute, value_of, reset, divided}
use bastionlab.Learning.Procedures.{
  Running, Optimizer, Autograd, Enumerate, Trainer, Method, on_rest, on_self, enumerated, in_memory,
  in_world, inputs_to_device, forward, next_item,
}

-- What one call of the iterator of a trainer gives; a panic is an item.
abbrev pub Step : Type 0 → Type 0
Step F = Option (Outcome TchError (ℕ × ℕ × F × F))

-- `n % (every as usize) == 0`, of an `every` that was tested to be positive; and 0.
abbrev is_due : ℤ → ℕ → Bool
is_due (pos zero) n = false
is_due (pos (suc k)) n = eqb (n % suc k) 0
is_due (negsuc k) n = false

abbrev is_zero : ℤ → Bool
is_zero (pos zero) = true
is_zero (pos (suc n)) = false
is_zero (negsuc n) = false

module _ {F D T R V C U N O : Type 0} (number : Floats F D) (tensor : Tensors T D R V C U)
    (grad : Autograd T R N) (optimizer : Optimizer (Running F T R N) O) where
  -- `Trainer::new`
  unfoldable pub new_trainer :
      Dataset
      → Metric F D T
      → PrivacyBudget F
      → V
      → ℕ
      → ℕ
      → CheckPoint O
      → ℤ
      → ℤ
      → Call TchError (Running F T R N) (Trainer F D T V O)
  new_trainer dataset metric metric_budget device epochs size chkpt per_n_epochs per_n_steps = do
    iter ← in_memory number tensor grad (iter_shuffle number tensor grad.shuffle dataset size)
    pure (record {
      dataset = dataset;
      metric = metric;
      metric_budget = metric_budget;
      device = device;
      epochs = epochs;
      batch_size_ = size;
      dataloader = enumerated iter;
      current_epoch = 0;
      chkpt = chkpt;
      per_n_epochs_chkpt = per_n_epochs;
      per_n_steps_chkpt = per_n_steps;
    })

  -- `Trainer::nb_batches`
  unfoldable pub nb_batches : Method (Trainer F D T V O) (Running F T R N) ℕ
  nb_batches = do
    self ← gets (λ s. s.0)
    n ← on_rest (in_memory number tensor grad (len number tensor self.dataset))
    lift (divided number tensor n self.batch_size_)

  -- `Trainer::train_on_batch`
  unfoldable pub train_on_batch :
      ℕ
      → List (PrivacyGuard F T)
      → PrivacyGuard F T
      → Method (Trainer F D T V O) (Running F T R N) (ℕ × ℕ × F × F)
  train_on_batch i inputs labels = do
    device ← gets (λ s. s.0.device)
    inputs_ ← lift (inputs_to_device number tensor grad inputs device)
    labels_ ← lift (f_to number tensor labels device)
    outputs ← on_rest (forward number tensor grad inputs_)
    loss ← on_self (λ self. elim (compute number tensor self.metric outputs labels_) [
      | ok (loss, metric) ↦ ok (loss, record self { metric = metric })
      | err e ↦ err e
      | panic ↦ panic
    ])
    on_rest optimizer.zero_grad
    on_rest (modify (λ s. record s { network = grad.backward loss.value s.network }))
    on_rest optimizer.step
    self ← gets (λ s. s.0)
    (value, std) ←
        on_rest
          (in_world number tensor grad (value_of number tensor self.metric self.metric_budget))
    pure (self.current_epoch, i, value, std)

  -- `Trainer::checkpoint`
  unfoldable pub checkpoint : Method (Trainer F D T V O) (Running F T R N) (Unit {0})
  checkpoint = do
    params ← on_rest optimizer.into_bytes
    optim_state ← on_rest optimizer.get_state
    on_self (λ self. ok (tt, record self { chkpt = log_chkpt self.chkpt params optim_state }))

  -- `self.checkpoint().unwrap()` where it is due, before `v` is returned.
  unfoldable pub saving :
      Bool
      → Step F
      → Trainer F D T V O × Running F T R N
      → Step F × Trainer F D T V O × Running F T R N
  saving false v s = (v, s.0, s.1)
  saving true v s =
      let (r, s') = checkpoint s in
      elim r [
        | ok done ↦ (v, s'.0, s'.1)
        | err e ↦ (some panic, s'.0, s'.1)
        | panic ↦ (some panic, s'.0, s'.1)
      ]

  -- The batch `i` was taken from the loader.
  unfoldable pub trained :
      ℕ
      → Batch F T
      → Trainer F D T V O × Running F T R N
      → Step F × Trainer F D T V O × Running F T R N
  unfolding saving
  trained i batch s =
      let (r, s') = train_on_batch i batch.inputs batch.labels s in
      elim r [
        | ok v ↦ saving (is_due s'.0.per_n_steps_chkpt i) (some (ok v)) s'
        | err e ↦ saving (is_due s'.0.per_n_steps_chkpt i) (some (err e)) s'
        | panic ↦ (some panic, s'.0, s'.1)
      ]

  -- After the call that the start of an epoch makes: what it panicked with is not caught.
  unfoldable pub epoch_saved :
      Step F × Trainer F D T V O × Running F T R N → Step F × Trainer F D T V O × Running F T R N
  unfolding saving
  epoch_saved (none, self, s) =
      saving (is_due self.per_n_epochs_chkpt self.current_epoch) none (self, s)
  epoch_saved (some (ok v), self, s) =
      saving (is_due self.per_n_epochs_chkpt self.current_epoch) (some (ok v)) (self, s)
  epoch_saved (some (err e), self, s) =
      saving (is_due self.per_n_epochs_chkpt self.current_epoch) (some (err e)) (self, s)
  epoch_saved (some panic, self, s) = (some panic, self, s)

  abbrev next_epoch : Trainer F D T V O → Trainer F D T V O
  next_epoch self = record self {
    current_epoch = suc self.current_epoch;
    metric = reset number tensor self.metric;
  }

  -- The end of the last epoch.
  unfoldable pub finished :
      Trainer F D T V O × Running F T R N → Step F × Trainer F D T V O × Running F T R N
  unfolding saving
  finished s = saving (is_zero s.0.per_n_epochs_chkpt && is_zero s.0.per_n_steps_chkpt) none s

  abbrev pub Result : Type 0
  Result = Step F × Trainer F D T V O × Running F T R N

  unfoldable pub after_restart : Option Result → Option Result
  unfolding epoch_saved
  after_restart none = none
  after_restart (some result) = some (epoch_saved result)

  -- The call of itself that the start of an epoch makes.
  unfoldable pub restarted :
      (Trainer F D T V O × Running F T R N → Option Result)
      → Outcome TchError DatasetIter
      → Trainer F D T V O
      → Running F T R N
      → Option Result
  unfolding after_restart
  restarted next (ok iter) self s =
      after_restart (next (record self { dataloader = enumerated iter }, s))
  restarted next (err e) self s = some (some panic, self, s)
  restarted next panic self s = some (some panic, self, s)

  -- After the end of an epoch: whether there is another one.
  unfoldable pub turned :
      (Trainer F D T V O × Running F T R N → Option Result)
      → Bool
      → Trainer F D T V O
      → Running F T R N
      → Option Result
  unfolding restarted finished
  turned next false self s = some (finished (self, s))
  turned next true self s =
      let (r, s') =
        in_memory number tensor grad
          (iter_shuffle number tensor {E = TchError} grad.shuffle self.dataset self.batch_size_)
          s in
      restarted next r self s'

  -- What the loader gave.
  unfoldable pub advanced_by :
      (Trainer F D T V O × Running F T R N → Option Result)
      → Outcome TchError (Option (ℕ × Batch F T) × Enumerate)
      → Trainer F D T V O
      → Running F T R N
      → Option Result
  unfolding trained turned
  advanced_by next (ok (some (i, batch), loader)) self s =
      some (trained i batch (record self { dataloader = loader }, s))
  advanced_by next (ok (none, loader)) self s =
      let self' = next_epoch (record self { dataloader = loader }) in
      turned next (ltb self'.current_epoch self'.epochs) self' s
  advanced_by next (err e) self s = some (some panic, self, s)
  advanced_by next panic self s = some (some panic, self, s)

  -- `<Trainer as Iterator>::next`, with fuel for its calls of itself; `none` means that the fuel ran
  -- out.
  unfoldable pub next_step : ℕ → Trainer F D T V O × Running F T R N → Option Result
  unfolding advanced_by
  next_step zero s = none
  next_step (suc fuel) s =
      advanced_by (next_step fuel) (next_item number tensor grad s.0.dataloader s.1.memory.cells)
        s.0 s.1
