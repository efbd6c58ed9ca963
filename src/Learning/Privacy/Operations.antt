-- ===== src/Learning/Privacy/Operations.antt =====
-- server/bastionlab_learning/src/data/privacy_guard.rs: the operations on guarded tensors, with the
-- sensibility and the dependence that each gives its result. They leave the contexts alone.
use bastionlab.Prelude.{
  ℕ, zero, suc, Bool, true, false, ◌&&◌, Option, List, [], ◌∷◌, map, eqb, get_elem?, last?, Outcome,
  ok, err, panic, ◌>>=◌, ◌>>◌, unwrap, ensure, ◌==◌, nat_eq, string_eq, list_eq,
}
use bastionlab.Learning.Bytes.{TchError, kind}
use bastionlab.Learning.Numbers.{Floats, Tensors, ℤ, pos, negsuc}
use bastionlab.Learning.Privacy.{
  Sensibility, unknown, l2, l_infinity, BatchDependence, dependent, independent,
}
use bastionlab.Learning.Privacy.Guards.{PrivacyGuard}

abbrev pub other_context : TchError
other_context = kind "Inputs must share the same privacy context."

-- `defer_f_fns_to_inner!`
unfoldable pub defer :
    {F T W : Type 0}
    → PrivacyGuard F T
    → Outcome TchError W
    → Sensibility F
    → Outcome TchError (PrivacyGuard F W)
defer self result sensibility = do
  value ← result
  ok (record {
    value = value;
    sensibility = sensibility;
    batch_dependence = self.batch_dependence;
    context = self.context;
  })

unfoldable pub is_same : BatchDependence → BatchDependence → Bool
is_same dependent dependent = true
is_same dependent (independent b) = false
is_same (independent a) dependent = false
is_same (independent a) (independent b) = a == b

-- A tensor with no dimensions has no first repeat to set.
unfoldable pub repeats : ℕ → List ℕ → Outcome TchError (List ℕ)
repeats n [] = panic
repeats n (d ∷ dims) = ok (n ∷ map (λ (_ : ℕ). 1) dims)

-- `self.value.dim() - 1` is out of range, by a wrap, for a tensor with no dimensions.
unfoldable pub dimension : ℤ → List ℕ → Option ℕ
dimension (pos zero) dims = last? dims
dimension (pos (suc n)) dims = get_elem? dims (suc n)
dimension (negsuc n) dims = last? dims

module _ {F T : Type 0} where
  unfoldable pub all_in_context : ℕ → List (PrivacyGuard F T) → Bool → Bool
  all_in_context address [] acc = acc
  all_in_context address (g ∷ gs) acc = all_in_context address gs (eqb g.context address && acc)

  unfoldable pub all_from_batch : BatchDependence → List (PrivacyGuard F T) → Bool → Bool
  unfolding is_same
  all_from_batch batch [] acc = acc
  all_from_batch batch (g ∷ gs) acc =
      all_from_batch batch gs (is_same g.batch_dependence batch && acc)

  -- `PrivacyGuard::apply_forward`
  unfoldable pub apply_forward :
      (List T → Outcome TchError T) → List (PrivacyGuard F T) → Outcome TchError (PrivacyGuard F T)
  apply_forward forward_inner [] = err (kind "At least one input must be provided to the model.")
  apply_forward forward_inner (first ∷ rest) = do
    ensure (all_in_context first.context rest true) other_context
    ensure (all_from_batch first.batch_dependence rest true)
        (kind "Inputs must come from the same batch.")
    value ← forward_inner (map (λ (g : PrivacyGuard F T). g.value) (first ∷ rest))
    ok (record {
      value = value;
      sensibility = unknown;
      batch_dependence = first.batch_dependence;
      context = first.context;
    })

module _ {F D T R V C U : Type 0} (number : Floats F D) (tensor : Tensors T D R V C U) where
  open number use {to_f32, of_usize, mul, max_of, min_of, sqrt, abs64, max64}

  -- `PrivacyGuard::batch_size`
  unfoldable pub batch_size : PrivacyGuard F T → Outcome TchError ℕ
  batch_size self = elim (tensor.size self.value) [
    | [] ↦ err (kind "Tensor has no dimmensions, cannot infer batch size.")
    | n ∷ dims ↦ ok n
  ]

  unfoldable pub expand_batch_dim : PrivacyGuard F T → ℕ → Outcome TchError (PrivacyGuard F T)
  unfolding repeats
  expand_batch_dim self n = do
    times ← repeats n (tensor.size self.value)
    value ← tensor.repeated self.value times
    ok (record {
      value = value;
      sensibility = unknown;
      batch_dependence = dependent;
      context = self.context;
    })

  unfoldable pub f_clone : PrivacyGuard F T → Outcome TchError (PrivacyGuard F T)
  unfolding defer
  f_clone self = defer self (tensor.detached_copy self.value) self.sensibility

  unfoldable pub f_to : PrivacyGuard F T → V → Outcome TchError (PrivacyGuard F T)
  unfolding defer
  f_to self device = defer self (tensor.to_device self.value device) self.sensibility

  unfoldable pub f_view : PrivacyGuard F T → List ℤ → Outcome TchError (PrivacyGuard F T)
  unfolding defer
  f_view self s = defer self (tensor.view self.value s) unknown

  unfoldable pub f_abs : PrivacyGuard F T → Outcome TchError (PrivacyGuard F T)
  unfolding defer
  f_abs self = defer self (tensor.abs self.value) self.sensibility

  unfoldable pub f_double_value : PrivacyGuard F T → List ℤ → Outcome TchError (PrivacyGuard F D)
  unfolding defer
  f_double_value self idx = defer self (tensor.double_value self.value idx) self.sensibility

  unfoldable pub clamped : Sensibility F → D → D → Sensibility F
  clamped (l_infinity s) lo hi = l_infinity (min_of s (number.sub (to_f32 hi) (to_f32 lo)))
  clamped unknown lo hi = l_infinity (to_f32 (number.sub64 hi lo))
  clamped (l2 s) lo hi = l_infinity (to_f32 (number.sub64 hi lo))

  unfoldable pub f_clamp : PrivacyGuard F T → D → D → Outcome TchError (PrivacyGuard F T)
  unfolding defer clamped
  f_clamp self lo hi = defer self (tensor.clamp self.value lo hi) (clamped self.sensibility lo hi)

  unfoldable pub summed : Sensibility F → BatchDependence → ℕ → Sensibility F
  summed unknown batches numel = unknown
  summed (l_infinity s) dependent numel = l_infinity (mul (of_usize numel) s)
  summed (l_infinity s) (independent b) numel = l_infinity s
  summed (l2 s) batches numel = unknown

  unfoldable pub f_sum : PrivacyGuard F T → C → Outcome TchError (PrivacyGuard F T)
  unfolding defer summed
  f_sum self dtype =
      defer self (tensor.sum self.value dtype)
        (summed self.sensibility self.batch_dependence (tensor.numel self.value))

  unfoldable pub f_argmax : PrivacyGuard F T → ℤ → Bool → Outcome TchError (PrivacyGuard F T)
  unfolding defer dimension
  f_argmax self dim keepdim = do
    width ← unwrap (dimension dim (tensor.size self.value))
    defer self (tensor.argmax self.value dim keepdim) (l_infinity (of_usize width))

  unfoldable pub f_add_scalar : PrivacyGuard F T → D → Outcome TchError (PrivacyGuard F T)
  unfolding defer
  f_add_scalar self other = defer self (tensor.add_scalar self.value other) self.sensibility

  unfoldable pub f_sub_scalar : PrivacyGuard F T → D → Outcome TchError (PrivacyGuard F T)
  unfolding defer
  f_sub_scalar self other = defer self (tensor.sub_scalar self.value other) self.sensibility

  unfoldable pub scaled : Sensibility F → D → Sensibility F
  scaled unknown other = unknown
  scaled (l_infinity s) other = l_infinity (mul (to_f32 (abs64 other)) s)
  scaled (l2 s) other = l2 (mul (to_f32 (abs64 other)) s)

  unfoldable pub f_mul_scalar : PrivacyGuard F T → D → Outcome TchError (PrivacyGuard F T)
  unfolding defer scaled
  f_mul_scalar self other =
      defer self (tensor.mul_scalar self.value other) (scaled self.sensibility other)
