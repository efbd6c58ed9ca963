-- ===== src/Torch/Runs.antt =====
-- server/bastionlab_torch/src/learning.rs: the tasks that train and test, and what they report on
-- their run. A trainer or a tester is what its iterator yields, in order; a `panic` among it ends the
-- task.
pub mod Reports
use bastionlab.Prelude.{
  ℕ, zero, suc, ◌+◌, ◌-◌, ◌*◌, ◌/◌, ◌%◌, ◌^◌, ◌≤◌, ◌<◌, min, max, String, ◌≡◌, refl, sym, ap, subst,
  ◌∙◌, ◌≢◌, ◌↔◌, ◌⊎◌, inl, inr, Bool, true, false, ◌&&◌, ◌||◌, not, Option, none, some, List, [],
  ◌∷◌, ◌++◌, map, append-nil, append_assoc, arith, ltb, leb, eqb, if◌then◌else◌, ltb→lt, lt→ltb,
  leb→le, le→leb, eqb_iff, tests, Bool-cases, Option-cases, length, get_elem?, take, drop, last?,
  length-append, take-append-drop, length-take, length-drop, take-length-append, drop-length-append,
  drop-eq-nil, length-map, All, All-append, ok_or_inv, ok_injective, Outcome, ok, err, panic, ok_or,
  unwrap, ensure, map_err, Outcome-cases, PartialEq, ◌==◌, ==_iff, contains, nat_eq, string_eq,
  list_eq, paired, contains-append, lookup-insert_inv, chunks_on, chunks, joined, Sized,
  joined-chunks, HashMap, lookup, insert, erase, lookup-nil, lookup-insert, lookup-erase,
  lookup-append, or_else, beq_refl, map_laws, concat, decimal,
}
use bastionlab.Common.Status.{Status, status, Fallible, internal, out_of_range}
use bastionlab.Common.Action.{Call, Action, pure, raise, lift, gets, modify, continue, ◌>>=◌, ◌>>◌}
use bastionlab.Learning.Bytes.{TchError}
use bastionlab.Learning.Numbers.{Floats}
use bastionlab.Learning.CheckPoints.{CheckPoint, log_chkpt}
use bastionlab.Torch.Stream.{tcherror_to_status}
use bastionlab.Torch.State.{Metric, Run, run_ok, run_error, pending, Server}

-- What a step yields: the epoch, the batch, the value of the metric and its deviation.
abbrev pub Item : Type 0 → Type 0
Item F = Outcome TchError (ℕ × ℕ × F × F)

module _ {F D : Type 0} (number : Floats F D) (display : TchError → String) where
  -- The report on one item.
  unfoldable pub metric_report : ℕ → ℕ → ℕ × ℕ × F × F → Metric F
  metric_report nb_epochs nb_batches (epoch, batch, value, std) = record {
    value = value;
    uncertainty = number.mul (number.literal 2 0) std;
    batch = batch;
    epoch = epoch;
    nb_epochs = nb_epochs;
    nb_batches = nb_batches;
  }

  abbrev pub failure_report : TchError → Run F
  failure_report e = run_error (status internal (concat ("Torch error: " ∷ display e ∷ [])))

  -- The loop of `module_train`, which an error ends.
  unfoldable pub train_items : ℕ → ℕ → List (Item F) → Run F → Run F
  train_items nb_epochs nb_batches [] run = run
  train_items nb_epochs nb_batches (ok item ∷ items) run =
      train_items nb_epochs nb_batches items (run_ok (metric_report nb_epochs nb_batches item))
  train_items nb_epochs nb_batches (err e ∷ items) run = failure_report e
  train_items nb_epochs nb_batches (panic ∷ items) run = run

  -- The loop of `module_test`, which goes on after an error. A test is one epoch, number 0.
  unfoldable pub test_items : ℕ → List (Outcome TchError (ℕ × F × F)) → Run F → Run F
  test_items nb_batches [] run = run
  test_items nb_batches (ok (batch, value, std) ∷ items) run =
      test_items nb_batches items (run_ok (metric_report 1 nb_batches (0, batch, value, std)))
  test_items nb_batches (err e ∷ items) run = test_items nb_batches items (failure_report e)
  test_items nb_batches (panic ∷ items) run = run

  -- The numbers of epochs and batches of a trainer, and its items; or the error of its context.
  unfoldable pub train_report : Outcome TchError (ℕ × ℕ × List (Item F)) → Run F → Run F
  unfolding train_items
  train_report (ok (nb_epochs, nb_batches, items)) run = train_items nb_epochs nb_batches items run
  train_report (err e) run = failure_report e
  train_report panic run = run

  unfoldable pub test_report :
      Outcome TchError (ℕ × List (Outcome TchError (ℕ × F × F))) → Run F → Run F
  unfolding test_items
  test_report (ok (nb_batches, items)) run = test_items nb_batches items run
  test_report (err e) run = failure_report e
  test_report panic run = run

module _ {K F T R O : Type 0} where
  -- A task writes to the run that it was given, which stays in the map.
  unfoldable pub report : String → (Run F → Run F) → Action (Server K F T R O) (Unit {0})
  report identifier change = do
    runs ← gets (λ s. s.runs)
    run ← lift (unwrap (lookup identifier runs))
    modify (λ s. record s { runs = insert identifier (change run) s.runs })

module _ {K F D T R O : Type 0} (number : Floats F D) (display : TchError → String) where
  -- `module_train`
  unfoldable pub module_train :
      String → Outcome TchError (ℕ × ℕ × List (Item F)) → Action (Server K F T R O) (Unit {0})
  unfolding report train_report
  module_train run trainer = report run (train_report number display trainer)

  -- `module_test`
  unfoldable pub module_test :
      String
      → Outcome TchError (ℕ × List (Outcome TchError (ℕ × F × F)))
      → Action (Server K F T R O) (Unit {0})
  unfolding report test_report
  module_test run tester = report run (test_report number display tester)

-- `log_chkpt` of a training task, on the checkpoint that it shares with the service.
unfoldable pub log_at : {O : Type 0} → List (CheckPoint O) → ℕ → List ℕ → O → List (CheckPoint O)
log_at [] address weights state = []
log_at (c ∷ cs) zero weights state = log_chkpt c weights state ∷ cs
log_at (c ∷ cs) (suc address) weights state = c ∷ log_at cs address weights state
