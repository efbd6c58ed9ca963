-- ===== src/Learning/Procedures.antt =====
-- server/bastionlab_learning/src/procedures.rs: the loops that train and test, and the forward pass
-- of nn/module.rs. Epochs and batches are below 2 ^ 31.
pub mod Limit
use bastionlab.Prelude.{
  ℕ, zero, suc, ◌+◌, ◌-◌, ◌*◌, ◌/◌, ◌%◌, ◌^◌, ◌≤◌, ◌<◌, min, max, String, ◌≡◌, refl, sym, ap, subst,
  ◌∙◌, ◌≢◌, ◌↔◌, ◌⊎◌, inl, inr, Bool, true, false, ◌&&◌, ◌||◌, not, Option, none, some, List, [],
  ◌∷◌, ◌++◌, map, append-nil, append_assoc, arith, ltb, leb, eqb, if◌then◌else◌, ltb→lt, lt→ltb,
  leb→le, le→leb, eqb_iff, tests, Bool-cases, Option-cases, length, get_elem?, take, drop, last?,
  length-append, take-append-drop, length-take, length-drop, take-length-append, drop-length-append,
  drop-eq-nil, length-map, All, All-append, ok_or_inv, ok_injective, Outcome, ok, err, panic, ok_or,
  unwrap, ensure, map_err, Outcome-cases, PartialEq, ◌==◌, ==_iff, contains, nat_eq, string_eq,
  list_eq, paired, contains-append, lookup-insert_inv, chunks_on, chunks, joined, Sized,
  joined-chunks, HashMap, lookup, insert, erase, lookup-nil, lookup-insert, lookup-erase,
  lookup-append, or_else, beq_refl, map_laws, concat, decimal,
}
use bastionlab.Common.Action.{Call, Action, pure, raise, lift, gets, modify, continue, ◌>>=◌, ◌>>◌}
use bastionlab.Learning.Bytes.{TchError}
use bastionlab.Learning.Numbers.{Floats, Tensors, ℤ, pos, negsuc}
use bastionlab.Learning.Privacy.{PrivacyBudget, PrivacyContext}
use bastionlab.Learning.Privacy.Guards.{PrivacyGuard, World, empty}
use bastionlab.Learning.Privacy.Operations.{batch_size, f_to, apply_forward}
use bastionlab.Learning.Iterator.{Dataset, DatasetIter, Batch, next_batch}
use bastionlab.Learning.Data.{Memory, iter_shuffle, len}
use bastionlab.Learning.CheckPoints.{CheckPoint, log_chkpt}
use bastionlab.Learning.Metrics.{Metric, compute, value_of, reset, divided}

pub record DpSgdContext (F : Type 0) : Type 0 where
  pub delta : F
  pub batch_sampling_rate : F
  pub empty_guard : PrivacyGuard F (Unit {0})

-- What a task works on: the memory, the network `N` with its gradients, and what the forward pass
-- tells the parameters.
pub record Running (F T R N : Type 0) : Type 0 where
  pub memory : Memory F T R
  pub network : N
  pub dp_sgd_context : Option (DpSgdContext F)

-- A `dyn Optimizer`, its state within `S`, with the states `O` that it saves.
pub record Optimizer (S O : Type 0) : Type 0 where
  pub zero_grad : Call TchError S (Unit {0})
  pub step : Call TchError S (Unit {0})
  pub into_bytes : Call TchError S (List ℕ)
  pub get_state : Call TchError S O

-- A `TrainableCModule` and the gradients of a loss; and the permutation that `shuffle` makes.
pub record Autograd (T R N : Type 0) : Type 0 where
  pub forward_ts : N → List T → Outcome TchError T
  pub backward : T → N → N
  pub shuffle : R → List ℕ → List ℕ

-- A `std::iter::Enumerate`.
pub record Enumerate : Type 0 where
  pub iter : DatasetIter
  pub count : ℕ

pub record Tester (F D T V : Type 0) : Type 0 where
  pub metric : Metric F D T
  pub metric_budget : PrivacyBudget F
  pub device : V
  pub dataloader : Enumerate
  pub nb_batches : ℕ

pub record Trainer (F D T V O : Type 0) : Type 0 where
  pub dataset : Dataset
  pub metric : Metric F D T
  pub metric_budget : PrivacyBudget F
  pub device : V
  pub epochs : ℕ
  pub batch_size_ : ℕ
  pub dataloader : Enumerate
  pub current_epoch : ℕ
  pub chkpt : CheckPoint O
  pub per_n_epochs_chkpt : ℤ
  pub per_n_steps_chkpt : ℤ

-- A call of a `&mut self` method of `P`, in what it works on.
abbrev pub Method : Type 0 → Type 0 → Type 0 → Type 0
Method P S A = Call TchError (P × S) A

module _ {P S A : Type 0} where
  abbrev pub on_rest : Call TchError S A → Method P S A
  on_rest call (self, s) = let (r, s') = call s in (r, (self, s'))

  -- A change of `self` that may fail.
  abbrev pub on_self : (P → Outcome TchError (A × P)) → Method P S A
  on_self f (self, s) = elim (f self) [
    | ok (a, self') ↦ (ok a, (self', s))
    | err e ↦ (err e, (self, s))
    | panic ↦ (panic, (self, s))
  ]

abbrev pub enumerated : DatasetIter → Enumerate
enumerated iter = record { iter = iter; count = 0 }

module _ {F D T R V C U N : Type 0} (number : Floats F D) (tensor : Tensors T D R V C U)
    (grad : Autograd T R N) where
  abbrev pub in_memory :
      {A : Type 0} → Call TchError (Memory F T R) A → Call TchError (Running F T R N) A
  in_memory call s = let (r, m) = call s.memory in (r, record s { memory = m })

  abbrev pub in_world :
      {A : Type 0} → Call TchError (World F R) A → Call TchError (Running F T R N) A
  in_world call = in_memory (λ m. let (r, w) = call m.world in (r, record m { world = w }))

  unfoldable pub inputs_to_device :
      List (PrivacyGuard F T) → V → Outcome TchError (List (PrivacyGuard F T))
  inputs_to_device [] device = ok []
  inputs_to_device (input ∷ inputs) device = elim (f_to number tensor input device) [
    | ok moved ↦ elim (inputs_to_device inputs device) [
      | ok inputs_ ↦ ok (moved ∷ inputs_)
      | err e ↦ err e
      | panic ↦ panic
    ]
    | err e ↦ err e
    | panic ↦ panic
  ]

  -- What `Forward::forward` leaves for the parameters.
  unfoldable pub note_context : List (PrivacyGuard F T) → Call TchError (Running F T R N) (Unit {0})
  note_context [] = pure tt
  note_context (first ∷ rest) = do
    n ← lift (batch_size number tensor first)
    context ← gets (λ s. s.memory.world.contexts first.context)
    modify (λ s. record s {
      dp_sgd_context = some (record {
        delta = context.delta;
        batch_sampling_rate = number.div (number.of_usize n) (number.of_usize context.nb_samples);
        empty_guard = empty number first;
      });
    })

  -- `Forward::forward`
  unfoldable pub forward :
      List (PrivacyGuard F T) → Call TchError (Running F T R N) (PrivacyGuard F T)
  unfolding note_context
  forward inputs = do
    note_context inputs
    network ← gets (λ s. s.network)
    lift (apply_forward (grad.forward_ts network) inputs)

  unfoldable pub new_tester :
      Dataset
      → Metric F D T
      → PrivacyBudget F
      → V
      → ℕ
      → Call TchError (Running F T R N) (Tester F D T V)
  new_tester dataset metric metric_budget device size = do
    n ← in_memory (len number tensor dataset)
    nb_batches ← lift (divided number tensor n size)
    iter ← in_memory (iter_shuffle number tensor grad.shuffle dataset size)
    pure (record {
      metric = metric;
      metric_budget = metric_budget;
      device = device;
      dataloader = enumerated iter;
      nb_batches = nb_batches;
    })

  unfoldable pub with_metric :
      Outcome TchError (PrivacyGuard F T × Metric F D T)
      → Method (Tester F D T V) (Running F T R N) (PrivacyGuard F T)
  with_metric (ok (loss, metric)) (self, s) = (ok loss, (record self { metric = metric }, s))
  with_metric (err e) s = (err e, s)
  with_metric panic s = (panic, s)

  -- The call of `compute` on the metric of a tester.
  unfoldable pub measured :
      PrivacyGuard F T
      → PrivacyGuard F T
      → Method (Tester F D T V) (Running F T R N) (PrivacyGuard F T)
  unfolding with_metric
  measured outputs labels s = with_metric (compute number tensor s.0.metric outputs labels) s

  -- `Tester::test_on_batch`
  unfoldable pub test_on_batch :
      ℕ
      → List (PrivacyGuard F T)
      → PrivacyGuard F T
      → Method (Tester F D T V) (Running F T R N) (ℕ × F × F)
  test_on_batch i inputs labels = do
    device ← gets (λ s. s.0.device)
    inputs_ ← lift (inputs_to_device inputs device)
    labels_ ← lift (f_to number tensor labels device)
    outputs ← on_rest (forward inputs_)
    loss ← measured outputs labels_
    self ← gets (λ s. s.0)
    (value, std) ← on_rest (in_world (value_of number tensor self.metric self.metric_budget))
    pure (i, value, std)

  -- The next batch of a loader, with its number.
  unfoldable pub next_item :
      Enumerate → List T → Outcome TchError (Option (ℕ × Batch F T) × Enumerate)
  next_item self cells = elim (next_batch tensor {E = TchError} {F = F} cells self.iter) [
    | ok (none, iter) ↦ ok (none, record self { iter = iter })
    | ok (some batch, iter) ↦
        ok (some (self.count, batch), record { iter = iter; count = suc self.count })
    | err e ↦ err e
    | panic ↦ panic
  ]

  -- What a tester does with what its loader gave; a panic of the loader is an item.
  unfoldable pub tested :
      Outcome TchError (Option (ℕ × Batch F T) × Enumerate)
      → Tester F D T V
      → Running F T R N
      → Option (Outcome TchError (ℕ × F × F)) × Tester F D T V × Running F T R N
  tested (ok (none, loader)) self s = (none, record self { dataloader = loader }, s)
  tested (ok (some (i, batch), loader)) self s =
      let (r, s') =
        test_on_batch i batch.inputs batch.labels (record self { dataloader = loader }, s) in
      (some r, s'.0, s'.1)
  tested (err e) self s = (some panic, self, s)
  tested panic self s = (some panic, self, s)

  -- `<Tester as Iterator>::next`
  unfoldable pub next_test :
      Tester F D T V
      → Running F T R N
      → Option (Outcome TchError (ℕ × F × F)) × Tester F D T V × Running F T R N
  unfolding tested
  next_test self s = tested (next_item self.dataloader s.memory.cells) self s
