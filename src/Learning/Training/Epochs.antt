-- ===== src/Learning/Training/Epochs.antt =====
-- The trainer's calls of itself, one for each epoch without a batch.
use bastionlab.Prelude.{
  ℕ, zero, suc, ◌+◌, ◌<◌, ◌≡◌, refl, ◌≢◌, Bool, true, false, Option, none, some, arith, ltb, ltb→lt,
  Outcome, ok, err, panic, nat_eq, string_eq, list_eq,
}
use bastionlab.Learning.Bytes.{TchError}
use bastionlab.Learning.Numbers.{Floats, Tensors}
use bastionlab.Learning.Iterator.{DatasetIter, Batch}
use bastionlab.Learning.Procedures.{
  Running, Optimizer, Autograd, Enumerate, Trainer, enumerated, next_item,
}
use bastionlab.Learning.Training.{Result, restarted, turned, advanced_by, next_step, after_restart}

module _ {F D T R V C U N O : Type 0} (number : Floats F D) (tensor : Tensors T D R V C U)
    (grad : Autograd T R N) (optimizer : Optimizer (Running F T R N) O) where
  -- Calls with `fuel` end while fewer epochs are left.
  abbrev Ends :
      ℕ
      → (Trainer F D T V O × Running F T R N → Option (Result number tensor grad optimizer))
      → Type 0
  Ends fuel next =
      (t : Trainer F D T V O × Running F T R N)
      → t.0.epochs < fuel + t.0.current_epoch
      → 0 < fuel
      → next t ≢ none

  after_restart-none :
      (o : Option (Result number tensor grad optimizer))
      → o ≢ none
      → after_restart number tensor grad optimizer o ≢ none
  unfolding after_restart
  after_restart-none none h = λ _. h refl
  after_restart-none (some result) h = λ e. cc

  restarted-Ends :
      (next : Trainer F D T V O × Running F T R N → Option (Result number tensor grad optimizer))
      (r : Outcome TchError DatasetIter) (self : Trainer F D T V O) (s : Running F T R N) (fuel : ℕ)
      → Ends fuel next
      → self.epochs < fuel + self.current_epoch
      → 0 < fuel
      → restarted number tensor grad optimizer next r self s ≢ none
  unfolding restarted
  restarted-Ends next (ok iter) self s fuel ends enough positive =
      after_restart-none (next (record self { dataloader = enumerated iter }, s))
        (ends (record self { dataloader = enumerated iter }, s) enough positive)
  restarted-Ends next (err e) self s fuel ends enough positive = λ h. cc
  restarted-Ends next panic self s fuel ends enough positive = λ h. cc

  turned-Ends :
      (next : Trainer F D T V O × Running F T R N → Option (Result number tensor grad optimizer))
      (more : Bool) (self : Trainer F D T V O) (s : Running F T R N) (fuel : ℕ)
      → ltb self.current_epoch self.epochs ≡ more
      → Ends fuel next
      → self.epochs < fuel + self.current_epoch
      → turned number tensor grad optimizer next more self s ≢ none
  unfolding turned
  turned-Ends next false self s fuel e ends enough = λ h. cc
  turned-Ends next true self s fuel e ends enough =
      restarted-Ends next _ self _ fuel ends enough
        (let more = ltb→lt self.current_epoch self.epochs e in omega (arith, more))

  advanced_by-Ends :
      (next : Trainer F D T V O × Running F T R N → Option (Result number tensor grad optimizer))
      (r : Outcome TchError (Option (ℕ × Batch F T) × Enumerate)) (self : Trainer F D T V O)
      (s : Running F T R N) (fuel : ℕ)
      → Ends fuel next
      → self.epochs < suc fuel + self.current_epoch
      → advanced_by number tensor grad optimizer next r self s ≢ none
  unfolding advanced_by
  advanced_by-Ends next (ok (some (i, batch), loader)) self s fuel ends enough = λ h. cc
  advanced_by-Ends next (ok (none, loader)) self s fuel ends enough =
      turned-Ends next (ltb (suc self.current_epoch) self.epochs) _ s fuel refl ends (omega arith)
  advanced_by-Ends next (err e) self s fuel ends enough = λ h. cc
  advanced_by-Ends next panic self s fuel ends enough = λ h. cc

  -- A step of a trainer ends, whatever the dataset, the network and the optimizer are: as much fuel
  -- as epochs are left, and one more, is enough for its calls of itself.
  pub next_step_total :
      (fuel : ℕ) (self : Trainer F D T V O) (s : Running F T R N)
      → self.epochs < fuel + self.current_epoch
      → 0 < fuel
      → next_step number tensor grad optimizer fuel (self, s) ≢ none
  unfolding next_step
  next_step_total zero self s enough positive = absurd (omega arith)
  next_step_total (suc fuel) self s enough positive =
      advanced_by-Ends (next_step number tensor grad optimizer fuel)
        (next_item number tensor grad self.dataloader s.memory.cells) self s fuel
        (λ t bound more. next_step_total fuel t.0 t.1 bound more) enough
