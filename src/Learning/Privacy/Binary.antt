-- ===== src/Learning/Privacy/Binary.antt =====
-- server/bastionlab_learning/src/data/privacy_guard.rs: the operations on two guarded tensors, sums
-- and losses, which must share their privacy context.
use bastionlab.Prelude.{
  ℕ, Option, eqb, if◌then◌else◌, Outcome, ok, ◌>>=◌, ◌>>◌, ensure, ◌==◌, nat_eq, string_eq, list_eq,
}
use bastionlab.Learning.Bytes.{TchError}
use bastionlab.Learning.Numbers.{Floats, Tensors, ℤ}
use bastionlab.Learning.Privacy.{
  Sensibility, unknown, l2, l_infinity, BatchDependence, dependent, independent,
}
use bastionlab.Learning.Privacy
use bastionlab.Learning.Privacy.Guards.{PrivacyGuard}
use bastionlab.Learning.Privacy.Operations.{other_context, batch_size}

module _ {F D T R V C U : Type 0} (number : Floats F D) (tensor : Tensors T D R V C U) where
  open number use {to_f32, of_usize, mul, max_of, sqrt, abs64, max64}

  -- The closure `compose`.
  unfoldable pub compose : BatchDependence → F → F → F
  compose (independent batches) a b = max_of a b
  compose dependent a b = number.add a b

  -- The norm of all the elements of a tensor, from a bound for each.
  abbrev pub of_elements : ℕ → F → F
  of_elements numel s = mul (sqrt (of_usize numel)) s

  unfoldable pub combined : BatchDependence → ℕ → ℕ → Sensibility F → Sensibility F → Sensibility F
  unfolding compose
  combined batches n m (l2 a) (l2 b) = l2 (compose batches a b)
  combined batches n m (l2 a) (l_infinity b) = l2 (compose batches a (of_elements m b))
  combined batches n m (l_infinity a) (l2 b) = l2 (compose batches (of_elements n a) b)
  combined batches n m (l_infinity a) (l_infinity b) =
      l_infinity (compose batches (of_elements n a) (of_elements m b))
  combined batches n m unknown b = unknown
  combined batches n m (l2 a) unknown = unknown
  combined batches n m (l_infinity a) unknown = unknown

  -- `defer_binary_f_fns_to_inner!`, with the sensibility that both its uses give.
  unfoldable pub defer_binary :
      (T → T → Outcome TchError T)
      → PrivacyGuard F T
      → PrivacyGuard F T
      → Outcome TchError (PrivacyGuard F T)
  unfolding combined Privacy.add
  defer_binary operation self other = do
    ensure (eqb self.context other.context) other_context
    let batches = Privacy.add self.batch_dependence other.batch_dependence
    value ← operation self.value other.value
    ok (record {
      value = value;
      sensibility =
          combined batches (tensor.numel self.value) (tensor.numel other.value) self.sensibility
            other.sensibility;
      batch_dependence = batches;
      context = self.context;
    })

  unfoldable pub f_add : PrivacyGuard F T → PrivacyGuard F T → Outcome TchError (PrivacyGuard F T)
  unfolding defer_binary
  f_add self other = defer_binary tensor.add self other

  unfoldable pub f_sub : PrivacyGuard F T → PrivacyGuard F T → Outcome TchError (PrivacyGuard F T)
  unfolding defer_binary
  f_sub self other = defer_binary tensor.sub self other

  -- The dependence of a loss, and its sensibility.
  unfoldable pub loss_bound :
      BatchDependence
      → BatchDependence
      → Outcome TchError ℕ
      → F
      → Outcome TchError (BatchDependence × Sensibility F)
  loss_bound (independent a) (independent b) lines max_norm =
      if a == b
      then ok (independent a, l_infinity max_norm)
      else (do n ← lines; ok (dependent, l_infinity (mul (of_usize n) max_norm)))
  loss_bound (independent a) dependent lines max_norm = do
    n ← lines
    ok (dependent, l_infinity (mul (of_usize n) max_norm))
  loss_bound dependent b lines max_norm = do
    n ← lines
    ok (dependent, l_infinity (mul (of_usize n) max_norm))

  -- `defer_loss_fn_to_inner_with_clipping!`: the plain loss, and the clipped one.
  unfoldable pub defer_loss :
      (T → T → Outcome TchError T)
      → PrivacyGuard F T
      → PrivacyGuard F T
      → D × D
      → Outcome TchError (PrivacyGuard F T × PrivacyGuard F T)
  unfolding loss_bound batch_size
  defer_loss operation self target clipping = do
    ensure (eqb self.context target.context) other_context
    unreduced ← operation self.value target.value
    clipped ← tensor.clamp unreduced clipping.0 clipping.1
    let max_norm = to_f32 (max64 (abs64 clipping.0) (abs64 clipping.1))
    (batch_dependence, sensibility) ←
        loss_bound self.batch_dependence target.batch_dependence (batch_size number tensor self)
          max_norm
    whole ← tensor.sum_lines unreduced
    within ← tensor.sum_lines clipped
    ok (
      record {
        value = whole;
        sensibility = unknown;
        batch_dependence = batch_dependence;
        context = self.context;
      },
      record {
        value = within;
        sensibility = sensibility;
        batch_dependence = batch_dependence;
        context = self.context;
      },
    )

  unfoldable pub f_mse_loss :
      PrivacyGuard F T
      → PrivacyGuard F T
      → D × D
      → U
      → Outcome TchError (PrivacyGuard F T × PrivacyGuard F T)
  unfolding defer_loss
  f_mse_loss self target clipping reduction =
      defer_loss (λ a b. tensor.mse_loss a b reduction) self target clipping

  unfoldable pub f_cross_entropy_loss :
      PrivacyGuard F T
      → PrivacyGuard F T
      → D × D
      → Option T
      → U
      → ℤ
      → D
      → Outcome TchError (PrivacyGuard F T × PrivacyGuard F T)
  unfolding defer_loss
  f_cross_entropy_loss self target clipping weight reduction ignore_index label_smoothing =
      defer_loss
        (λ a b. tensor.cross_entropy_loss a b weight reduction ignore_index label_smoothing) self
        target clipping
