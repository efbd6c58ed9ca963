-- ===== src/Learning/Metrics.antt =====
-- server/bastionlab_learning/src/procedures.rs, Metric: a loss or a metric, averaged over the batches.
use bastionlab.Prelude.{
  ℕ, ◌+◌, ◌/◌, String, false, Option, none, some, [], ◌∷◌, eqb, if◌then◌else◌, Outcome, ok, err,
  panic, ◌>>=◌, ◌==◌, nat_eq, string_eq, list_eq, concat,
}
use bastionlab.Learning.Bytes.{TchError, file_format}
use bastionlab.Learning.Numbers.{Floats, Tensors, negsuc}
use bastionlab.Common.Action.{Call, pure, lift}
use bastionlab.Common.Action
use bastionlab.Learning.Privacy.{PrivacyBudget}
use bastionlab.Learning.Privacy.Guards.{PrivacyGuard, Reading, get_private_with_std}
use bastionlab.Learning.Privacy.Operations.{
  batch_size, expand_batch_dim, f_argmax, f_abs, f_clamp, f_sum, f_mul_scalar, f_add_scalar,
  f_clone,
}
use bastionlab.Learning.Privacy.Binary.{f_sub, f_add, f_mse_loss, f_cross_entropy_loss}

abbrev pub Loss : Type 0 → Type 0 → Type 0
Loss F T =
    PrivacyGuard F T → PrivacyGuard F T → Outcome TchError (PrivacyGuard F T × PrivacyGuard F T)

pub record Metric (F D T : Type 0) : Type 0 where
  pub loss_fn : Loss F T
  pub value : Option (PrivacyGuard F T)
  pub clipping : D × D
  pub nb_samples : ℕ

-- `Kind::Float` and `Reduction::Mean`.
pub record Modes (C U : Type 0) : Type 0 where
  pub float_ : C
  pub mean_ : U

module _ {F D T R V C U : Type 0} (number : Floats F D) (tensor : Tensors T D R V C U) where
  open number use {literal64, neg64, div64, usize_to_f64, to_f32}

  -- The three losses.
  unfoldable pub accuracy_loss : Modes C U → Loss F T
  accuracy_loss modes output label = do
    classes ← f_argmax number tensor output (negsuc 0) false
    difference ← f_sub number tensor classes label
    distance ← f_abs number tensor difference
    miss ← f_clamp number tensor distance (literal64 0 0) (literal64 1 0)
    misses ← f_sum number tensor miss modes.float_
    n ← batch_size number tensor label
    rate ← f_mul_scalar number tensor misses (div64 (neg64 (literal64 1 0)) (usize_to_f64 n))
    prediction ← f_add_scalar number tensor rate (literal64 1 0)
    copy ← f_clone number tensor prediction
    ok (copy, prediction)

  abbrev up_to_ten : D × D
  up_to_ten = (literal64 0 0, literal64 10 0)

  unfoldable pub l2_loss : Modes C U → Loss F T
  l2_loss modes output label = f_mse_loss number tensor output label up_to_ten modes.mean_

  unfoldable pub cross_entropy : Modes C U → Loss F T
  cross_entropy modes output label =
      f_cross_entropy_loss number tensor output label up_to_ten none modes.mean_ (negsuc 99)
        (literal64 0 0)

  abbrev fresh : Loss F T → D × D → Metric F D T
  fresh loss_fn clipping = record {
    loss_fn = loss_fn;
    value = none;
    clipping = clipping;
    nb_samples = 0;
  }

  -- `Metric::try_from_name`
  unfoldable pub try_from_name : Modes C U → String → Outcome TchError (Metric F D T)
  try_from_name modes loss_name =
      if loss_name == "accuracy"
      then ok (fresh (accuracy_loss modes) (literal64 0 0, literal64 1 0))
      else if loss_name == "l2"
      then ok (fresh (l2_loss modes) up_to_ten)
      else if loss_name == "cross_entropy"
      then ok (fresh (cross_entropy modes) up_to_ten)
      else err (file_format (concat ("Invalid loss name, unknown loss " ∷ loss_name ∷ "." ∷ [])))

  unfoldable pub divided : ℕ → ℕ → Outcome TchError ℕ
  divided n m = if eqb m 0 then panic else ok (n / m)

  -- The labels for an output of as many lines.
  unfoldable pub matched : ℕ → PrivacyGuard F T → Outcome TchError (PrivacyGuard F T)
  matched expansion label =
      if eqb expansion 1 then ok label else expand_batch_dim number tensor label expansion

  -- The new value from the one so far and the loss of a batch.
  unfoldable pub averaged :
      ℕ → Option (PrivacyGuard F T) → PrivacyGuard F T → Outcome TchError (PrivacyGuard F T)
  averaged nb_samples none loss = ok loss
  averaged nb_samples (some v) loss = do
    before ←
        f_mul_scalar number tensor v
          (div64 (usize_to_f64 nb_samples) (usize_to_f64 (nb_samples + 1)))
    now ← f_mul_scalar number tensor loss (div64 (literal64 1 0) (usize_to_f64 nb_samples))
    f_add number tensor before now

  -- `Metric::compute`
  unfoldable pub compute :
      Metric F D T
      → PrivacyGuard F T
      → PrivacyGuard F T
      → Outcome TchError (PrivacyGuard F T × Metric F D T)
  unfolding averaged
  compute self output label = do
    n ← batch_size number tensor output
    m ← batch_size number tensor label
    expansion ← divided n m
    label_ ← matched expansion label
    loss ← self.loss_fn output label_
    detached_loss ← f_clone number tensor loss.1
    v ← averaged self.nb_samples self.value detached_loss
    ok (loss.0, record self { value = some v; nb_samples = self.nb_samples + 1 })

  -- `f32::clamp`
  abbrev clamp_to : D × D → F → F
  clamp_to (lo, hi) x =
      if number.lt x (to_f32 lo)
      then to_f32 lo
      else if number.lt (to_f32 hi) x
      then to_f32 hi
      else x

  -- `Metric::value`
  unfoldable pub value_of : Metric F D T → PrivacyBudget F → Reading F R (F × F)
  value_of self budget = elim self.value [
    | none ↦ pure (number.literal 0 0, number.literal 0 0)
    | some x ↦ Action.◌>>=◌ (lift (f_clone number tensor x)) (λ copy.
        Action.◌>>=◌ (get_private_with_std number tensor copy budget) (λ released.
          Action.◌>>=◌ (lift (tensor.double_value released.0 []))
            (λ v. pure (clamp_to self.clipping (to_f32 v), released.1))))
  ]

  -- `Metric::reset`
  unfoldable pub reset : Metric F D T → Metric F D T
  reset self = record self { value = none; nb_samples = 1 }
