-- ===== src/Torch/Runs/Reports.antt =====
-- What the client of a run is told, from its start to the end of its task.
use bastionlab.Prelude.{
  concat, ℕ, String, ◌≡◌, refl, ap, subst, ◌∙◌, Option, none, some, List, [], ◌∷◌, ◌++◌,
  if◌then◌else◌, last?, All, ok_injective, Outcome, ok, err, panic, ok_or, nat_eq, string_eq,
  list_eq, lookup, lookup-insert, beq_refl,
}
use bastionlab.Common.Status.{
  Status, status, out_of_range, not_found, invalid_argument, Fallible, internal,
}
use bastionlab.Common.Action.{lift, >>=-eq-ok}
use bastionlab.Common.Session.{Request}
use bastionlab.Learning.Bytes.{TchError}
use bastionlab.Learning.Numbers.{Floats}
use bastionlab.Torch.State.{Metric, Run, run_ok, pending, Server}
use bastionlab.Torch.Names.{Reference, Device, parse_device}
use bastionlab.Learning.Iterator.{Dataset}
use bastionlab.Torch.Service.{
  Backend, TrainConfig, metric_of, get_metric, start_run, train, client, find_dataset,
  find_checkpoint, new_checkpoint,
}
use bastionlab.Torch.Runs.{
  Item, metric_report, failure_report, train_items, test_items, train_report, report, module_train,
}

abbrev pub NoPanic {ℓ} : {A : Type ℓ} → Outcome TchError A → Type 0
NoPanic (ok a) = Unit {0}
NoPanic (err e) = Unit {0}
NoPanic panic = ⊥

module _ {F D : Type 0} (number : Floats F D) (display : TchError → String) where
  -- The first error of a training, or its last metric, or that it has not begun.
  abbrev pub first_error : List (Item F) → Option TchError
  first_error [] = none
  first_error (err e ∷ items) = some e
  first_error (ok item ∷ items) = first_error items
  first_error (panic ∷ items) = first_error items

  abbrev pub reported : ℕ → ℕ → Option (Item F) → Run F → Run F
  reported nb_epochs nb_batches (some (ok item)) run =
      run_ok (metric_report number display nb_epochs nb_batches item)
  reported nb_epochs nb_batches (some (err e)) run = failure_report number display e
  reported nb_epochs nb_batches (some panic) run = run
  reported nb_epochs nb_batches none run = run

  abbrev pub training_result : ℕ → ℕ → List (Item F) → Option TchError → Run F → Run F
  training_result nb_epochs nb_batches items (some e) run = failure_report number display e
  training_result nb_epochs nb_batches items none run =
      reported nb_epochs nb_batches (last? items) run

  abbrev not_begun : Fallible (Metric F)
  not_begun = err (status out_of_range "Run has not started.")

  abbrev failed_with : TchError → Fallible (Metric F)
  failed_with e = err (status internal (concat ("Torch error: " ∷ display e ∷ [])))

  -- What the client must be told of the item that came last.
  abbrev last_told : ℕ → ℕ → Option (Item F) → Fallible (Metric F)
  last_told nb_epochs nb_batches none = not_begun
  last_told nb_epochs nb_batches (some (ok (epoch, batch, value, std))) = ok (record {
    value = value;
    uncertainty = number.mul (number.literal 2 0) std;
    batch = batch;
    epoch = epoch;
    nb_epochs = nb_epochs;
    nb_batches = nb_batches;
  })
  last_told nb_epochs nb_batches (some (err e)) = failed_with e
  last_told nb_epochs nb_batches (some panic) = not_begun

  -- What the client must be told of a training: its first error, or else of its last item.
  abbrev pub told : ℕ → ℕ → Option TchError → Option (Item F) → Fallible (Metric F)
  told nb_epochs nb_batches (some e) last = failed_with e
  told nb_epochs nb_batches none last = last_told nb_epochs nb_batches last

  metric_of-result :
      (n m : ℕ) (items : List (Item F))
      → metric_of (training_result n m items (first_error items) pending)
        ≡ told n m (first_error items) (last? items)
  unfolding metric_of metric_report
  metric_of-result n m items = by_end (first_error items) (last? items) refl
    where
      by_end :
          (failed : Option TchError) (last : Option (Item F))
          → last? items ≡ last
          → metric_of (training_result n m items failed pending) ≡ told n m failed last
      by_end (some e) last h = refl
      by_end none none h = rw h refl
      by_end none (some (ok item)) h = rw h refl
      by_end none (some (err e)) h = rw h refl
      by_end none (some panic) h = rw h refl

  reported-last :
      (n m : ℕ) (item : Item F) (items : List (Item F)) (run run' : Run F)
      → All NoPanic (item ∷ items)
      → reported n m (last? (item ∷ items)) run ≡ reported n m (last? (item ∷ items)) run'
  reported-last n m (ok item) [] run run' p = refl
  reported-last n m (err e) [] run run' p = refl
  reported-last n m panic [] run run' p = elim p.0 [ ]
  reported-last n m item (next ∷ items) run run' p = reported-last n m next items run run' p.1

  result-run :
      (n m : ℕ) (item : Item F) (items : List (Item F)) (failed : Option TchError)
      (run run' : Run F)
      → All NoPanic (item ∷ items)
      → training_result n m (item ∷ items) failed run
        ≡ training_result n m (item ∷ items) failed run'
  result-run n m item items (some e) run run' p = refl
  result-run n m item items none run run' p = reported-last n m item items run run' p

  skip-first :
      (n m : ℕ) (item : ℕ × ℕ × F × F) (next : Item F) (items : List (Item F))
      (failed : Option TchError) (run : Run F)
      → training_result n m (next ∷ items) failed run
        ≡ training_result n m (ok item ∷ next ∷ items) failed run
  skip-first n m item next items (some e) run = refl
  skip-first n m item next items none run = refl

  pub train_items-result :
      (n m : ℕ) (items : List (Item F)) (run : Run F)
      → All NoPanic items
      → train_items number display n m items run ≡ training_result n m items (first_error items) run
  unfolding train_items
  train_items-result n m [] run p = refl
  train_items-result n m (err e ∷ items) run p = refl
  train_items-result n m (panic ∷ items) run p = elim p.0 [ ]
  train_items-result n m (ok item ∷ []) run p = refl
  train_items-result n m (ok item ∷ next ∷ items) run p =
      let begun = run_ok (metric_report number display n m item) in
      train_items-result n m (next ∷ items) begun p.1
      ∙ (result-run n m next items (first_error (next ∷ items)) begun run p.1
          ∙ skip-first n m item next items (first_error (next ∷ items)) run)

  -- A later item of a test replaces the report of an earlier one, errors included.
  pub test_items-last :
      (m : ℕ) (items : List (Outcome TchError (ℕ × F × F))) (batch : ℕ) (value std : F)
      (run : Run F)
      → All NoPanic items
      → test_items number display m (items ++ (ok (batch, value, std) ∷ [])) run
        ≡ run_ok (metric_report number display 1 m (0, batch, value, std))
  unfolding test_items
  test_items-last m [] batch value std run p = refl
  test_items-last m (ok (b, v, d) ∷ items) batch value std run p =
      test_items-last m items batch value std _ p.1
  test_items-last m (err e ∷ items) batch value std run p =
      test_items-last m items batch value std (failure_report number display e) p.1
  test_items-last m (panic ∷ items) batch value std run p = elim p.0 [ ]

module _ {K F D T R O M : Type 0} (number : Floats F D) (display : TchError → String)
    (backend : Backend K T M) where
  get_metric-found :
      (request : Request String) (s : Server K F T R O) {identifier : String} {run : Run F}
      → backend.parse_uuid request.message ≡ some identifier
      → lookup identifier s.runs ≡ some run
      → (get_metric backend request s).0 ≡ metric_of run
  unfolding get_metric
  get_metric-found request s p q = rw (p, q) refl

  report-lookup :
      (s : Server K F T R O) (identifier : String) {run : Run F} (change : Run F → Run F)
      → lookup identifier s.runs ≡ some run
      → ((report identifier change s).0 ≡ ok tt)
        × (lookup identifier (report identifier change s).1.runs ≡ some (change run))
  unfolding report
  report-lookup s identifier {run} change q = (
    rw q refl,
    rw q (rw (lookup-insert identifier identifier (change run) s.runs, beq_refl identifier) refl),
  )

  start_run-pending :
      (uuid : ℕ → String) (s s' : Server K F T R O) (reference : Reference) (d : Dataset)
      (binary : List ℕ) (chkpt : ℕ) (device : Device)
      → start_run uuid d binary chkpt device s ≡ (ok reference, s')
      → lookup reference.identifier s'.runs ≡ some pending
  unfolding start_run
  start_run-pending uuid s s' reference d binary chkpt device e =
      subst (λ (r : Reference). lookup r.identifier s'.runs ≡ some pending)
        (ok_injective (ap (λ (x : Outcome Status Reference × Server K F T R O). x.0) e))
        (subst (λ (t : Server K F T R O). lookup (uuid s.drawn) t.runs ≡ some pending)
          (ap (λ (x : Outcome Status Reference × Server K F T R O). x.1) e)
          (rw (lookup-insert (uuid s.drawn) (uuid s.drawn) pending s.runs, beq_refl (uuid s.drawn))
            refl))

  train-pending :
      (uuid : ℕ → String) (request : Request (TrainConfig F)) (s s' : Server K F T R O)
      (reference : Reference)
      → train number backend uuid request s ≡ (ok reference, s')
      → lookup reference.identifier s'.runs ≡ some pending
  unfolding train
  train-pending uuid request s s' reference e =
      let config = request.message in
      let (info, s1, a1, e1) = >>=-eq-ok (client request) _ s e in
      let (dataset, s2, a2, e2) = >>=-eq-ok (find_dataset config.dataset) _ s1 e1 in
      let (model, s3, a3, e3) =
        >>=-eq-ok (lift (ok_or config.model (status invalid_argument "Invalid module reference"))) _
          s2 e2 in
      let (device, s4, a4, e4) =
        >>=-eq-ok (lift (parse_device backend.cuda_if_available config.device)) _ s3 e3 in
      let (binary, s6, a6, e6) =
        >>=-eq-ok
          (lift (
            ok_or (lookup model.identifier s4.binaries)
              (status not_found "Module binary not found")))
          _ s4 e4 in
      let (chkpt, s7, a7, e7) =
        >>=-eq-ok
          (if config.resume
            then find_checkpoint "CheckPoint not found!" model.identifier
            else new_checkpoint (number.le (number.literal 0 0) config.eps) info model.identifier
                binary)
          _ s6 e6 in
      start_run-pending uuid s7 s' reference dataset.data_ binary.data_ chkpt.data_ device e7

  -- The client of a training that was started is told that it has not begun, and, once its task has
  -- gone through the items of its trainer without a panic, the first error among them, or else the
  -- last metric; a trainer without items leaves the run as not begun. The identifier of the reply is
  -- assumed to be read back as itself.
  pub train-get_metric :
      (uuid : ℕ → String) (request : Request (TrainConfig F)) (s s' : Server K F T R O)
      (reference : Reference) (ask : Request String) (n m : ℕ) (items : List (Item F))
      → train number backend uuid request s ≡ (ok reference, s')
      → backend.parse_uuid ask.message ≡ some reference.identifier
      → All NoPanic items
      → ((get_metric backend ask s').0 ≡ err (status out_of_range "Run has not started."))
        × ((module_train number display reference.identifier (ok (n, m, items)) s').0 ≡ ok tt)
        × ((get_metric backend ask
              (module_train number display reference.identifier (ok (n, m, items)) s').1).0
            ≡ told number display n m (first_error number display items) (last? items))
  unfolding module_train
  train-get_metric uuid request s s' reference ask n m items e p q =
      let begun = train-pending uuid request s s' reference e in
      let change = train_report number display (ok (n, m, items)) in
      let (reported_ok, stored) = report-lookup s' reference.identifier change begun in
      (
        get_metric-found ask s' p begun ∙ (unfold metric_of in refl),
        reported_ok,
        get_metric-found ask (report reference.identifier change s').1 p stored
            ∙ ap metric_of
                (unfold train_report in train_items-result number display n m items pending q)
            ∙ metric_of-result number display n m items,
      )
