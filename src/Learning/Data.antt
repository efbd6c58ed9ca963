-- ===== src/Learning/Data.antt =====
-- server/bastionlab_learning/src/data/dataset.rs: the creation of datasets and of
-- their iterators.

use bastionlab.Prelude.{
  ℕ, zero, suc, List, [], ◌∷◌, ◌++◌, if◌then◌else◌, length, ok, nat_eq, string_eq, list_eq,
}
use bastionlab.Common.Action.{Call, pure, lift, gets, ◌>>=◌}
use bastionlab.Learning.Numbers.{Floats, Tensors}
use bastionlab.Learning.Privacy.{PrivacyBudget, not_private, private_, PrivacyContext, independent}
use bastionlab.Learning.Privacy
use bastionlab.Learning.Privacy.Guards.{World, write}
use bastionlab.Learning.Iterator.{Dataset, DatasetIter, lock, lines}

-- The tensors at their addresses, and the privacy contexts, of which those from `next_context` are
-- free.
pub record Memory (F T R : Type 0) : Type 0 where
  pub cells : List T
  pub world : World F R
  pub next_context : ℕ

unfoldable pub range_from : ℕ → ℕ → List ℕ
range_from start zero = []
range_from start (suc n) = start ∷ range_from (suc start) n

module _ {E F T R : Type 0} where
  -- `Arc::new(Mutex::new(tensor))`
  unfoldable pub allocate : T → Call E (Memory F T R) ℕ
  allocate t m = (ok (length m.cells), record m { cells = m.cells ++ (t ∷ []) })

  unfoldable pub new_context : PrivacyContext F → Call E (Memory F T R) ℕ
  unfolding write
  new_context context m = (
    ok m.next_context,
    record m {
      world = record m.world { contexts = write m.world.contexts m.next_context context };
      next_context = suc m.next_context;
    },
  )

  unfoldable pub read_cell : ℕ → Call E (Memory F T R) T
  unfolding lock
  read_cell address m = (lock m.cells [] address, m)

module _ {F D T R V C U : Type 0} (number : Floats F D) (tensor : Tensors T D R V C U) where
  unfoldable pub limit_of : D → PrivacyBudget F
  limit_of privacy_limit =
      if number.eq64 privacy_limit (number.neg64 (number.literal64 1 0))
      then not_private
      else private_ (number.to_f32 privacy_limit)

  -- `Dataset::new`
  unfoldable pub new : {E : Type 0} → List ℕ → ℕ → D → Call E (Memory F T R) Dataset
  unfolding limit_of
  new samples_inputs labels privacy_limit = do
    labels_tensor ← read_cell labels
    nb_samples ← lift (lines tensor labels_tensor)
    privacy_context ← new_context (Privacy.new number (limit_of privacy_limit) nb_samples)
    pure (record {
      samples_inputs = samples_inputs;
      labels = labels;
      privacy_context = privacy_context;
    })

  -- `Dataset::len`
  unfoldable pub len : {E : Type 0} → Dataset → Call E (Memory F T R) ℕ
  len self = do t ← read_cell self.labels; lift (lines tensor t)

  abbrev pub iterator : Dataset → List ℕ → ℕ → DatasetIter
  iterator dataset indexes batch_size = record {
    dataset = dataset;
    indexes = indexes;
    batch_size = batch_size;
    batch_id = 0;
  }

  -- `Dataset::iter`
  unfoldable pub iter : {E : Type 0} → Dataset → ℕ → Call E (Memory F T R) DatasetIter
  iter self batch_size = do n ← len self; pure (iterator self (range_from 0 n) batch_size)

  -- `Dataset::iter_shuffle`, with the permutation that `shuffle` makes of the indexes.
  unfoldable pub iter_shuffle :
      {E : Type 0} → (R → List ℕ → List ℕ) → Dataset → ℕ → Call E (Memory F T R) DatasetIter
  iter_shuffle shuffle self batch_size = do
    n ← len self
    rng ← gets (λ m. m.world.rng)
    pure (iterator self (shuffle rng (range_from 0 n)) batch_size)
