-- ===== src/Learning/CheckPoints.antt =====
-- server/bastionlab_learning/src/nn/module.rs: the checkpoints of a module, with the states `O` of its
-- optimizer.
use bastionlab.Prelude.{
  ℕ, Bool, Option, none, some, List, [], ◌∷◌, ◌++◌, last?, nat_eq, string_eq, list_eq,
}

pub record CheckPoint (O : Type 0) : Type 0 where
  pub data_ : List (List ℕ)
  pub private_ : Bool
  pub optimizer_state : List (Option O)

abbrev last_weights : Option (List ℕ) → List ℕ
last_weights none = []
last_weights (some weights) = weights

module _ {O : Type 0} where
  -- `CheckPoint::new`
  unfoldable pub new : Bool → CheckPoint O
  new is_private = record { data_ = []; private_ = is_private; optimizer_state = [] }

  unfoldable pub log_chkpt : CheckPoint O → List ℕ → O → CheckPoint O
  log_chkpt self chkpt_bytes optim_state = record self {
    data_ = self.data_ ++ (chkpt_bytes ∷ []);
    optimizer_state = self.optimizer_state ++ (some optim_state ∷ []);
  }

  abbrev last_state : Option (Option O) → Option O
  last_state none = none
  last_state (some state) = state

  unfoldable pub get_chkpt : CheckPoint O → Option O × List ℕ
  get_chkpt self = (last_state (last? self.optimizer_state), last_weights (last? self.data_))
