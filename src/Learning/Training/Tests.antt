-- ===== src/Learning/Training/Tests.antt =====
-- A tester and a trainer on lists of numbers.
use bastionlab.Prelude.{
  ℕ, refl, ◌≢◌, inl, true, none, List, [], ◌∷◌, arith, ok, nat_eq, string_eq, list_eq, joined,
}
use bastionlab.Common.Action.{pure}
use bastionlab.Learning.Numbers.{pos}
use bastionlab.Learning.Samples.{naturals, lists}
use bastionlab.Learning.Privacy.{private_, PrivacyContext}
use bastionlab.Learning.Privacy.Limit.{KeepsLimit}
use bastionlab.Learning.Metrics.{Metric, l2_loss}
use bastionlab.Learning.Procedures.{
  Running, Optimizer, Autograd, Tester, Trainer, enumerated, next_test,
}
use bastionlab.Learning.Procedures.Limit.{next_test-KeepsLimit}
use bastionlab.Learning.Training.{next_step}
use bastionlab.Learning.Training.Epochs.{next_step_total}

abbrev limited : ℕ → PrivacyContext ℕ
limited a = record { expended = private_ 0; limit = private_ 10; delta = 1; nb_samples = 2 }

abbrev running : Running ℕ (List ℕ) ℕ ℕ
running = record {
  memory = record {
    cells = (1 ∷ 2 ∷ []) ∷ (3 ∷ 4 ∷ []) ∷ [];
    world = record { contexts = limited; rng = 0 };
    next_context = 1;
  };
  network = 0;
  dp_sgd_context = none;
}

abbrev grad : Autograd (List ℕ) ℕ ℕ
grad = record {
  forward_ts = λ n xs. ok (joined xs);
  backward = λ t n. n;
  shuffle = λ rng indexes. indexes;
}

abbrev l2_metric : Metric ℕ ℕ (List ℕ)
l2_metric = record {
  loss_fn = l2_loss naturals lists (record { float_ = 0; mean_ = 0 });
  value = none;
  clipping = (0, 10);
  nb_samples = 0;
}

abbrev tester : Tester ℕ ℕ (List ℕ) ℕ
tester = record {
  metric = l2_metric;
  metric_budget = private_ 4;
  device = 0;
  dataloader = enumerated (record {
    dataset = record { samples_inputs = 0 ∷ []; labels = 1; privacy_context = 0 };
    indexes = 0 ∷ 1 ∷ [];
    batch_size = 1;
    batch_id = 0;
  });
  nb_batches = 2;
}

abbrev optimizer : Optimizer (Running ℕ (List ℕ) ℕ ℕ) ℕ
optimizer = record {
  zero_grad = pure tt;
  step = pure tt;
  into_bytes = pure (1 ∷ []);
  get_state = pure 0;
}

abbrev trainer : Trainer ℕ ℕ (List ℕ) ℕ ℕ
trainer = record {
  dataset = record { samples_inputs = 0 ∷ []; labels = 1; privacy_context = 0 };
  metric = l2_metric;
  metric_budget = private_ 4;
  device = 0;
  epochs = 3;
  batch_size_ = 5;
  dataloader = tester.dataloader;
  current_epoch = 0;
  chkpt = record { data_ = []; private_ = true; optimizer_state = [] };
  per_n_epochs_chkpt = pos 0;
  per_n_steps_chkpt = pos 0;
}

next_test-KeepsLimit_example :
    KeepsLimit naturals
      (limited 0)
      ((next_test naturals lists grad tester running).2.memory.world.contexts 0)
next_test-KeepsLimit_example =
    next_test-KeepsLimit naturals lists grad tester running 4 0 (λ x y. omega arith) refl (inl refl)

next_step_total_example : next_step naturals lists grad optimizer 4 (trainer, running) ≢ none
next_step_total_example =
    next_step_total naturals lists grad optimizer 4 trainer running (omega arith) (omega arith)
