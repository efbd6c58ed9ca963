-- ===== src/Learning/Iterator/Tests.antt =====
-- Two tensors of five lines, read in batches of two.
use bastionlab.Prelude.{
  ℕ, zero, suc, ◌<◌, ◌≡◌, refl, Option, none, some, List, [], ◌∷◌, map, arith, length, get_elem?,
  ok, nat_eq, string_eq, list_eq, joined,
}
use bastionlab.Learning.Bytes.{TchError}
use bastionlab.Learning.Samples.{lists}
use bastionlab.Learning.Iterator.{DatasetIter, lock, lock_all, batches}
use bastionlab.Learning.Iterator.Rows.{Slicing, IsLoaded, rows_batches, full_chunks, batches-rows}

abbrev cells : List (List ℕ)
cells = (1 ∷ 2 ∷ 3 ∷ 4 ∷ 5 ∷ []) ∷ (6 ∷ 7 ∷ 8 ∷ 9 ∷ 10 ∷ []) ∷ []

abbrev shuffled : DatasetIter
shuffled = record {
  dataset = record { samples_inputs = 0 ∷ []; labels = 1; privacy_context = 0 };
  indexes = 4 ∷ 0 ∷ 3 ∷ 1 ∷ 2 ∷ [];
  batch_size = 2;
  batch_id = 0;
}

or_zero : Option ℕ → ℕ
or_zero none = 0
or_zero (some x) = x

abbrev row_of : List ℕ → ℕ → List ℕ
row_of t i = or_zero (get_elem? t i) ∷ []

some_row : (t : List ℕ) (i n : ℕ) → length t ≡ n → i < n → lists.select t i ≡ some (row_of t i)
unfolding or_zero
some_row [] i n e h = absurd (omega arith)
some_row (x ∷ t) zero n e h = refl
some_row (x ∷ t) (suc i) n e h = some_row t i (length t) refl (omega arith)

some_injective : {m n : ℕ} → some m ≡ some n → m ≡ n
some_injective h = cc

abbrev lists_slicing : Slicing lists
lists_slicing = record {
  row = row_of;
  stack_of = λ t indexes. joined (map (row_of t) indexes);
  selects = λ t i n e h. some_row t i n (some_injective e) h;
  stacks = λ t indexes n e h p. refl;
}

abbrev two_tensors :
    IsLoaded lists lists_slicing cells shuffled.dataset
      ((1 ∷ 2 ∷ 3 ∷ 4 ∷ 5 ∷ []) ∷ [])
      (6 ∷ 7 ∷ 8 ∷ 9 ∷ 10 ∷ [])
      5
two_tensors = record {
  inputs_found = unfold lock_all lock in refl;
  labels_found = unfold lock in refl;
  inputs_lines = (refl, tt);
  labels_lines = refl;
}

batches-rows_example :
    batches lists {E = TchError} {F = ℕ} 6 cells shuffled
    ≡ some (
        ok (
          rows_batches lists lists_slicing
            ((1 ∷ 2 ∷ 3 ∷ 4 ∷ 5 ∷ []) ∷ [])
            (6 ∷ 7 ∷ 8 ∷ 9 ∷ 10 ∷ [])
            0
            0
            (full_chunks 6 2 (4 ∷ 0 ∷ 3 ∷ 1 ∷ 2 ∷ []))))
batches-rows_example =
    batches-rows lists lists_slicing {F = ℕ} 6 shuffled two_tensors (omega arith) (omega arith)
      (omega arith)
