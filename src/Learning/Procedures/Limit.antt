-- ===== src/Learning/Procedures/Limit.antt =====
-- A tester against the privacy limits of the contexts.
use bastionlab.Prelude.{
  ℕ, ◌≡◌, refl, ap, ◌∙◌, inl, inr, Option, none, some, List, [], ◌∷◌, Option-cases, Outcome, ok,
  err, panic, nat_eq, string_eq, list_eq,
}
use bastionlab.Common.Action.{lift, >>=-keeps}
use bastionlab.Learning.Bytes.{TchError}
use bastionlab.Learning.Numbers.{Floats, Tensors}
use bastionlab.Learning.Privacy.{PrivacyBudget, private_}
use bastionlab.Learning.Privacy.Guards.{PrivacyGuard, World, get_private_with_std}
use bastionlab.Learning.Privacy.Operations.{batch_size, f_to, f_clone}
use bastionlab.Learning.Privacy.Limit.{
  IsBelow, KeepsLimit, AddCommutes, get_private_with_std-KeepsLimit,
}
use bastionlab.Learning.Iterator.{Batch}
use bastionlab.Learning.Metrics.{Metric, compute, value_of}
use bastionlab.Learning.Procedures.{
  Running, Autograd, Enumerate, Tester, on_rest, in_world, note_context, forward, inputs_to_device,
  with_metric, measured, test_on_batch, next_item, tested, next_test,
}

module _ {F D T R V C U : Type 0} (number : Floats F D) (tensor : Tensors T D R V C U) where
  value_of-KeepsLimit :
      (self : Metric F D T) (eps : F) (w : World F R) (a : ℕ)
      → AddCommutes number
      → IsBelow number (w.contexts a).limit (w.contexts a).expended
      → KeepsLimit number
          (w.contexts a)
          ((value_of number tensor self (private_ eps) w).1.contexts a)
  unfolding value_of
  value_of-KeepsLimit self eps w a comm h =
      let P : World F R → Type 0 = λ w'. KeepsLimit number (w.contexts a) (w'.contexts a) in
      elim (Option-cases self.value) [
        | inl e ↦ rw e (refl, h)
        | inr (x, e) ↦ rw e (
            >>=-keeps P (lift (f_clone number tensor x)) _ w (refl, h)
              (λ copy _.
                let read = get_private_with_std-KeepsLimit number tensor copy eps w a comm h in
                >>=-keeps P (get_private_with_std number tensor copy (private_ eps)) _ w read
                  (λ released _.
                    >>=-keeps P (lift (tensor.double_value released.0 [])) _ _ read (λ v _. read))))
      ]

  value_of-KeepsLimit_after :
      (self : Metric F D T) (b : PrivacyBudget F) (eps : F) (w w' : World F R) (a : ℕ)
      → AddCommutes number
      → b ≡ private_ eps
      → w' ≡ w
      → IsBelow number (w.contexts a).limit (w.contexts a).expended
      → KeepsLimit number (w.contexts a) ((value_of number tensor self b w').1.contexts a)
  value_of-KeepsLimit_after self b eps w w' a comm private same h =
      rw (private, same) (value_of-KeepsLimit self eps w a comm h)

module _ {F D T R V C U N : Type 0} (number : Floats F D) (tensor : Tensors T D R V C U)
    (grad : Autograd T R N) where
  note_context-memory :
      (inputs : List (PrivacyGuard F T)) (s : Running F T R N)
      → (note_context number tensor grad inputs s).1.memory ≡ s.memory
  unfolding note_context
  note_context-memory [] s = refl
  note_context-memory (first ∷ rest) s =
      >>=-keeps (λ (s' : Running F T R N). s'.memory ≡ s.memory)
        (lift (batch_size number tensor first)) _ s refl (λ n _. refl)

  forward-memory :
      (inputs : List (PrivacyGuard F T)) (s : Running F T R N)
      → (forward number tensor grad inputs s).1.memory ≡ s.memory
  unfolding forward
  forward-memory inputs s =
      >>=-keeps (λ (s' : Running F T R N). s'.memory ≡ s.memory)
        (note_context number tensor grad inputs) _ s (note_context-memory inputs s)
        (λ n _. note_context-memory inputs s)

  with_metric-rest :
      (r : Outcome TchError (PrivacyGuard F T × Metric F D T)) (self : Tester F D T V)
      (s : Running F T R N)
      → ((with_metric number tensor grad r (self, s)).1.1 ≡ s)
        × ((with_metric number tensor grad r (self, s)).1.0.metric_budget ≡ self.metric_budget)
  unfolding with_metric
  with_metric-rest (ok (loss, metric)) self s = (refl, refl)
  with_metric-rest (err e) self s = (refl, refl)
  with_metric-rest panic self s = (refl, refl)

  measured-rest :
      (outputs labels : PrivacyGuard F T) (self : Tester F D T V) (s : Running F T R N)
      → ((measured number tensor grad outputs labels (self, s)).1.1 ≡ s)
        × ((measured number tensor grad outputs labels (self, s)).1.0.metric_budget
            ≡ self.metric_budget)
  unfolding measured
  measured-rest outputs labels self s =
      with_metric-rest (compute number tensor self.metric outputs labels) self s

  test_on_batch-KeepsLimit :
      (i : ℕ) (inputs : List (PrivacyGuard F T)) (labels : PrivacyGuard F T) (self : Tester F D T V)
      (s : Running F T R N) (eps : F) (a : ℕ)
      → AddCommutes number
      → self.metric_budget ≡ private_ eps
      → IsBelow number (s.memory.world.contexts a).limit (s.memory.world.contexts a).expended
      → KeepsLimit number
          (s.memory.world.contexts a)
          ((test_on_batch number tensor grad i inputs labels (self, s)).1.1.memory.world.contexts a)
  unfolding test_on_batch
  test_on_batch-KeepsLimit i inputs labels self s eps a comm private h =
      let P : Tester F D T V × Running F T R N → Type 0 =
        λ t. KeepsLimit number (s.memory.world.contexts a) (t.1.memory.world.contexts a) in
      >>=-keeps P (lift (inputs_to_device number tensor grad inputs self.device)) _ (self, s)
        (refl, h)
        (λ inputs_ _.
          >>=-keeps P (lift (f_to number tensor labels self.device)) _ (self, s) (refl, h)
            (λ labels_ _.
              let t = (forward number tensor grad inputs_ s).1 in
              let same : t.memory ≡ s.memory = forward-memory inputs_ s in
              >>=-keeps P (on_rest (forward number tensor grad inputs_)) _ (self, s)
                (rw same (refl, h))
                (λ outputs _.
                  let u = (measured number tensor grad outputs labels_ (self, t)).1 in
                  let (rest, budget) = measured-rest outputs labels_ self t in
                  >>=-keeps P (measured number tensor grad outputs labels_) _ (self, t)
                    (rw (rest, same) (refl, h))
                    (λ loss _.
                      let read =
                        value_of-KeepsLimit_after number tensor u.0.metric u.0.metric_budget eps
                          s.memory.world u.1.memory.world a comm (budget ∙ private)
                          (ap (λ (x : Running F T R N). x.memory.world) rest
                            ∙ ap (λ m. m.world) same)
                          h in
                      >>=-keeps P
                        (on_rest (
                          in_world number tensor grad
                            (value_of number tensor u.0.metric u.0.metric_budget)))
                        _ u read (λ v _. read)))))

  tested-KeepsLimit :
      (r : Outcome TchError (Option (ℕ × Batch F T) × Enumerate)) (self : Tester F D T V)
      (s : Running F T R N) (eps : F) (a : ℕ)
      → AddCommutes number
      → self.metric_budget ≡ private_ eps
      → IsBelow number (s.memory.world.contexts a).limit (s.memory.world.contexts a).expended
      → KeepsLimit number
          (s.memory.world.contexts a)
          ((tested number tensor grad r self s).2.memory.world.contexts a)
  unfolding tested
  tested-KeepsLimit (ok (none, loader)) self s eps a comm private h = (refl, h)
  tested-KeepsLimit (ok (some (i, batch), loader)) self s eps a comm private h =
      test_on_batch-KeepsLimit i batch.inputs batch.labels (record self { dataloader = loader }) s
        eps a comm private h
  tested-KeepsLimit (err e) self s eps a comm private h = (refl, h)
  tested-KeepsLimit panic self s eps a comm private h = (refl, h)

  -- Each step of a tester with a private budget keeps every privacy context within its limit: the
  -- limit stays as it is, and what is counted as spent stays below it (or is still zero), if it was
  -- so before, whatever the step comes to. The addition of floating-point numbers is assumed to be
  -- commutative.
  pub next_test-KeepsLimit :
      (self : Tester F D T V) (s : Running F T R N) (eps : F) (a : ℕ)
      → AddCommutes number
      → self.metric_budget ≡ private_ eps
      → IsBelow number (s.memory.world.contexts a).limit (s.memory.world.contexts a).expended
      → KeepsLimit number
          (s.memory.world.contexts a)
          ((next_test number tensor grad self s).2.memory.world.contexts a)
  unfolding next_test
  next_test-KeepsLimit self s eps a comm private h =
      tested-KeepsLimit (next_item number tensor grad self.dataloader s.memory.cells) self s eps a
        comm private h
