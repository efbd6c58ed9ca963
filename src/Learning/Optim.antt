-- ===== src/Learning/Optim.antt =====
-- server/bastionlab_learning/src/optim: what the optimizers save and load (mod.rs), and the update that
-- `SGD` makes of one parameter (sgd.rs). The parameters themselves are of another file of the crate.
use bastionlab.Prelude.{
  ℕ, String, Bool, false, not, Option, none, some, List, [], ◌∷◌, if◌then◌else◌, Outcome, ok, ◌>>=◌,
  unwrap, nat_eq, string_eq, list_eq, HashMap, lookup, insert,
}
use bastionlab.Common.Action.{Call}
use bastionlab.Common.Action
use bastionlab.Learning.Bytes.{TchError}
use bastionlab.Learning.Numbers.{Floats, Tensors}
use bastionlab.Learning.Loading.{Archive}

-- `HashMap<String, Option<Tensor>>`
abbrev pub Statistics : Type 0 → Type 0
Statistics T = HashMap String (Option T)

pub data OptimizerStateType : Type 0 where
  sgd_state : List ℕ → OptimizerStateType
  adam_state : List ℕ → List ℕ → List ℕ → ℕ → OptimizerStateType

unfoldable pub initialize_statistics : {T : Type 0} → Statistics T
initialize_statistics = []

-- The tensors that are there.
unfoldable pub present : {T : Type 0} → Statistics T → HashMap String T → HashMap String T
present [] stats = stats
present ((n, some v) ∷ named_stats) stats = present named_stats (insert n v stats)
present ((n, none) ∷ named_stats) stats = present named_stats stats

unfoldable pub named_statistics : {T : Type 0} → List (String × T) → Statistics T → Statistics T
named_statistics [] stats = stats
named_statistics ((k, v) ∷ output) stats = named_statistics output (insert k (some v) stats)

module _ {T : Type 0} (archive : Archive T) where
  unfoldable pub stats_to_bytes : Statistics T → Outcome TchError (List ℕ)
  unfolding present
  stats_to_bytes named_stats = archive.save_multi (present named_stats [])

  unfoldable pub bytes_to_stats : List ℕ → Outcome TchError (Statistics T)
  unfolding named_statistics
  bytes_to_stats bytes = do output ← archive.load_multi bytes; ok (named_statistics output [])

  -- The statistics that a checkpoint has for `SGD`.
  unfoldable pub restored : Option OptimizerStateType → Outcome TchError (Statistics T)
  unfolding bytes_to_stats initialize_statistics
  restored none = ok initialize_statistics
  restored (some (sgd_state statistics)) = bytes_to_stats statistics
  restored (some (adam_state m v v_hat_max t)) = ok initialize_statistics

  -- `<SGD as Optimizer>::get_state`
  unfoldable pub sgd_get_state : Statistics T → Outcome TchError OptimizerStateType
  unfolding stats_to_bytes
  sgd_get_state statistics = do bytes ← stats_to_bytes statistics; ok (sgd_state bytes)

-- The fields of `SGD` that its update reads.
pub record Sgd (D : Type 0) : Type 0 where
  pub learning_rate : D
  pub weight_decay : D
  pub momentum : D
  pub dampening : D
  pub nesterov : Bool

module _ {F D T R V C U : Type 0} (number : Floats F D) (tensor : Tensors T D R V C U) where
  -- `SGD::new`
  unfoldable pub new_sgd : D → Sgd D
  new_sgd learning_rate = record {
    learning_rate = learning_rate;
    weight_decay = number.literal64 0 0;
    momentum = number.literal64 0 0;
    dampening = number.literal64 0 0;
    nesterov = false;
  }

  abbrev is_set : D → Bool
  is_set x = not (number.eq64 x (number.literal64 0 0))

  unfoldable pub decayed : Sgd D → T → T → Outcome TchError T
  decayed self x grad =
      if is_set self.weight_decay
      then (do decay ← tensor.mul_scalar x self.weight_decay; tensor.add grad decay)
      else ok grad

  -- The new momentum of a parameter, from what there is under its name.
  unfoldable pub momentum_of : Sgd D → T → Option (Option T) → Outcome TchError (Option T)
  momentum_of self grad none = do copy ← tensor.detached_copy grad; ok (some copy)
  momentum_of self grad (some none) = ok none
  momentum_of self grad (some (some b)) = do
    kept ← tensor.mul_scalar b self.momentum
    added ← tensor.mul_scalar grad (number.sub64 (number.literal64 1 0) self.dampening)
    b' ← tensor.add kept added
    ok (some b')

  unfoldable pub directed : Sgd D → T → T → Outcome TchError T
  directed self b grad =
      if self.nesterov
      then (do other ← tensor.mul_scalar b self.momentum; tensor.add grad other)
      else tensor.detached_copy b

  -- The update of the parameter `x` with the gradient `grad`; the statistics change.
  unfoldable pub sgd_update : Sgd D → String → T → T → Call TchError (Statistics T) T
  unfolding directed momentum_of
  sgd_update self name x grad_ = Action.◌>>=◌ (Action.lift (decayed self x grad_)) (λ grad.
      if is_set self.momentum
      then Action.◌>>=◌ (λ stats. (momentum_of self grad (lookup name stats), stats))
          (λ b. Action.◌>>=◌ (Action.modify (insert name b)) (λ done.
            Action.◌>>=◌ (Action.lift (unwrap b)) (λ buffer.
              Action.◌>>=◌ (Action.lift (directed self buffer grad))
                (λ direction. Action.lift (tensor.mul_scalar direction self.learning_rate)))))
      else Action.lift (tensor.mul_scalar grad self.learning_rate))
