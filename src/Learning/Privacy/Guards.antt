-- ===== src/Learning/Privacy/Guards.antt =====
-- server/bastionlab_learning/src/data/privacy_guard.rs: a guarded value and the ways to read it.
-- A context stands at an address, which the guards share; a lock is held for a whole call.
use bastionlab.Prelude.{
  ℕ, zero, suc, [], eqb, if◌then◌else◌, Outcome, ok, err, ensure, nat_eq, string_eq, list_eq,
}
use bastionlab.Common.Action.{Call, pure, lift, gets, modify, ◌>>=◌, ◌>>◌}
use bastionlab.Learning.Bytes.{TchError, kind}
use bastionlab.Learning.Numbers.{Floats, Tensors}
use bastionlab.Learning.Privacy.{
  Sensibility, unknown, l2, l_infinity, BatchDependence, independent, PrivacyBudget, not_private,
  private_, PrivacyContext, compute_sigma, within_bounds, update_budget,
}

pub record PrivacyGuard (F T : Type 0) : Type 0 where
  pub value : T
  pub sensibility : Sensibility F
  pub batch_dependence : BatchDependence
  pub context : ℕ

-- The contexts at their addresses, and the state of the random generator.
pub record World (F R : Type 0) : Type 0 where
  pub contexts : ℕ → PrivacyContext F
  pub rng : R

unfoldable pub write :
    {F : Type 0} → (ℕ → PrivacyContext F) → ℕ → PrivacyContext F → ℕ → PrivacyContext F
write contexts address context a = if eqb address a then context else contexts a

module _ {F T : Type 0} where
  -- `PrivacyGuard::new`
  unfoldable pub guard : T → BatchDependence → ℕ → PrivacyGuard F T
  guard value batch_dependence context = record {
    value = value;
    sensibility = unknown;
    batch_dependence = batch_dependence;
    context = context;
  }

-- A call that reads or writes the contexts.
abbrev pub Reading : Type 0 → Type 0 → Type 0 → Type 0
Reading F R A = Call TchError (World F R) A

module _ {F R : Type 0} where
  abbrev pub context_of : ℕ → Reading F R (PrivacyContext F)
  context_of address = gets (λ w. w.contexts address)

  abbrev pub set_context : ℕ → PrivacyContext F → Reading F R (Unit {0})
  set_context address context =
      modify (λ w. record w { contexts = write w.contexts address context })

  -- `PrivacyGuard::get_non_private`
  unfoldable pub get_non_private : {T : Type 0} → PrivacyGuard F T → Reading F R T
  unfolding write
  get_non_private self = do
    context ← context_of self.context
    set_context self.context (record context { expended = not_private })
    pure self.value

module _ {F D : Type 0} (number : Floats F D) where
  -- `PrivacyGuard::empty`
  unfoldable pub empty : {T : Type 0} → PrivacyGuard F T → PrivacyGuard F (Unit {0})
  empty self = record {
    value = tt;
    sensibility = l2 (number.literal 0 0);
    batch_dependence = independent [];
    context = self.context;
  }

  abbrev pub limit_violation : TchError
  limit_violation = kind "Privacy limit violation."

  abbrev pub unknown_sensibility : TchError
  unknown_sensibility = kind "Unknown sensibility. Consider clipping prior to noising."

  unfoldable pub ensure_known : Sensibility F → Outcome TchError (Unit {0})
  ensure_known unknown = err unknown_sensibility
  ensure_known (l2 s) = ok tt
  ensure_known (l_infinity s) = ok tt

  -- `<PrivacyGuard<()>>::get_private`
  unfoldable pub spend_private :
      {R : Type 0} → PrivacyGuard F (Unit {0}) → PrivacyBudget F → Reading F R (Unit {0})
  unfolding get_non_private write
  spend_private self not_private = get_non_private self
  spend_private self (private_ eps) = do
    lift (ensure_known self.sensibility)
    context ← context_of self.context
    lift (ensure (within_bounds number context (private_ eps)) limit_violation)
    set_context self.context (update_budget number context (private_ eps))

module _ {F D T R V C U : Type 0} (number : Floats F D) (tensor : Tensors T D R V C U) where
  open tensor use {zeros_like, normal, add_, div_}

  -- The rounds of `generate_noise_like`.
  unfoldable pub noise_rounds : ℕ → T → D → T → Reading F R T
  noise_rounds zero t std sum = pure sum
  noise_rounds (suc n) t std sum = do
    draw ← (λ w. let (r, rng) = normal (zeros_like t) std w.rng in (r, record w { rng = rng }))
    noise_rounds n t std (add_ sum draw)

  unfoldable pub generate_noise_like : T → D → Reading F R T
  generate_noise_like t std =
      if number.eq64 std (number.literal64 0 0)
      then pure (zeros_like t)
      else (do sum ← noise_rounds 4 t std (zeros_like t); pure (div_ sum (number.literal64 2 0)))

  unfoldable pub l2_sensibility_of : PrivacyGuard F T → Outcome TchError F
  l2_sensibility_of self = elim self.sensibility [
    | unknown ↦ err (unknown_sensibility number)
    | l_infinity s ↦ ok (number.mul (number.sqrt (number.of_usize (tensor.numel self.value))) s)
    | l2 s ↦ ok s
  ]

  unfoldable pub get_private_with_std : PrivacyGuard F T → PrivacyBudget F → Reading F R (T × F)
  unfolding get_non_private write
  get_private_with_std self not_private = do
    value ← get_non_private self
    pure (value, number.literal 0 0)
  get_private_with_std self (private_ eps) = do
    l2_sensibility ← lift (l2_sensibility_of self)
    context ← context_of self.context
    lift (ensure (within_bounds number context (private_ eps)) (limit_violation number))
    let sigma = compute_sigma number eps context.delta l2_sensibility
    noise ← generate_noise_like self.value (number.to_f64 sigma)
    res ← lift (tensor.add self.value noise)
    set_context self.context (update_budget number context (private_ eps))
    pure (res, sigma)

  unfoldable pub get_private : PrivacyGuard F T → PrivacyBudget F → Reading F R T
  get_private self budget = do (res, std) ← get_private_with_std self budget; pure res
