-- ===== src/Learning/Iterator/Rows.antt =====
-- What a dataset yields: the rows of its tensors, in batches of the size asked for.
use bastionlab.Prelude.{
  ℕ, zero, suc, ◌<◌, ◌≡◌, refl, ◌∙◌, inl, inr, true, false, none, some, List, [], ◌∷◌, ◌++◌, map,
  append-nil, append_assoc, arith, ltb, if◌then◌else◌, ltb→lt, Bool-cases, length, get_elem?, take,
  drop, take-append-drop, length-take, length-drop, All, ok, nat_eq, string_eq, list_eq, joined,
}
use mathlib.Core.List.{map-append}
use bastionlab.Learning.Bytes.{TchError}
use bastionlab.Learning.Numbers.{Tensors}
use bastionlab.Learning.Privacy.{independent}
use bastionlab.Learning.Privacy.Guards.{guard}
use bastionlab.Learning.Iterator.{
  Dataset, DatasetIter, Batch, lock, lock_all, push_each, guards_of, advanced, select_each, gather,
  stacked, stack_each, batch_of, next_batch, batches,
}

abbrev pub InRange : ℕ → List ℕ → Type 0
InRange n indexes = All (λ i. i < n) indexes

module _ {D T R V C U : Type 0} (tensor : Tensors T D R V C U) where
  abbrev pub HasLines : ℕ → T → Type 0
  HasLines n t = get_elem? (tensor.size t) 0 ≡ some n

  -- Indexing below the first dimension succeeds, and so does the stacking of rows of one tensor.
  pub record Slicing : Type 0 where
    pub row : T → ℕ → T
    pub stack_of : T → List ℕ → T
    pub selects : (t : T) (i n : ℕ) → HasLines n t → i < n → tensor.select t i ≡ some (row t i)
    pub stacks :
        (t : T) (indexes : List ℕ) (n : ℕ)
        → HasLines n t
        → InRange n indexes
        → 0 < length indexes
        → tensor.stack (map (row t) indexes) ≡ ok (stack_of t indexes)

module _ {D T R V C U : Type 0} (tensor : Tensors T D R V C U) (law : Slicing tensor) where
  open law use {row, stack_of}

  abbrev pub columns_of : List ℕ → List T → List (List T)
  columns_of indexes inputs = map (λ t. map (row t) indexes) inputs

  select_each-rows :
      {E : Type 0} (inputs : List T) (i n : ℕ)
      → All (HasLines tensor n) inputs
      → i < n
      → select_each tensor {E = E} inputs i ≡ ok (map (λ t. row t i) inputs)
  unfolding select_each
  select_each-rows {E} [] i n h p = refl
  select_each-rows {E} (t ∷ inputs) i n h p =
      rw (law.selects t i n h.0 p, select_each-rows {E = E} inputs i n h.1 p) refl

  push_each-columns :
      (indexes : List ℕ) (i : ℕ) (inputs : List T)
      → push_each (columns_of indexes inputs) (map (λ t. row t i) inputs)
        ≡ columns_of (indexes ++ (i ∷ [])) inputs
  unfolding push_each
  push_each-columns indexes i [] = refl
  push_each-columns indexes i (t ∷ inputs) =
      rw (push_each-columns indexes i inputs, map-append (row t) indexes (i ∷ [])) refl

  gather-rows :
      {E : Type 0} (inputs : List T) (labels : T) (before indexes : List ℕ) (n : ℕ)
      → All (HasLines tensor n) inputs
      → HasLines tensor n labels
      → InRange n indexes
      → gather tensor {E = E} inputs labels indexes
          (columns_of before inputs)
          (map (row labels) before)
        ≡ ok (columns_of (before ++ indexes) inputs, map (row labels) (before ++ indexes))
  unfolding gather
  gather-rows {E} inputs labels before [] n h l p = rw (append-nil before) refl
  gather-rows {E} inputs labels before (i ∷ indexes) n h l p =
      rw
        (
          select_each-rows {E = E} inputs i n h p.0,
          law.selects labels i n l p.0,
          push_each-columns before i inputs,
          ← map-append (row labels) before (i ∷ []),
        )
        (rw (← append_assoc before (i ∷ []) indexes)
          (gather-rows {E = E} inputs labels (before ++ (i ∷ [])) indexes n h l p.1))

  stacked-rows :
      {E : Type 0} (t : T) (indexes : List ℕ) (n : ℕ)
      → HasLines tensor n t
      → InRange n indexes
      → 0 < length indexes
      → stacked tensor {E = E} (map (row t) indexes) ≡ ok (stack_of t indexes)
  unfolding stacked
  stacked-rows t indexes n h p some_row = rw (stacked, law.stacks t indexes n h p some_row) refl

  stack_each-rows :
      {E : Type 0} (inputs : List T) (indexes : List ℕ) (n : ℕ)
      → All (HasLines tensor n) inputs
      → InRange n indexes
      → 0 < length indexes
      → stack_each tensor {E = E} (columns_of indexes inputs)
        ≡ ok (map (λ t. stack_of t indexes) inputs)
  unfolding stack_each
  stack_each-rows [] indexes n h p some_row = refl
  stack_each-rows {E} (t ∷ inputs) indexes n h p some_row =
      rw
        (
          stacked-rows {E = E} t indexes n h.0 p some_row,
          stack_each-rows {E = E} inputs indexes n h.1 p some_row,
        )
        refl

  -- The batch number `id` of the rows `indexes`.
  abbrev pub rows_batch : {F : Type 0} → List T → T → ℕ → ℕ → List ℕ → Batch F T
  rows_batch inputs labels context id indexes = record {
    inputs = guards_of id context (map (λ t. stack_of t indexes) inputs);
    labels = guard (stack_of labels indexes) (independent (id ∷ [])) context;
  }

  abbrev pub rows_batches : {F : Type 0} → List T → T → ℕ → ℕ → List (List ℕ) → List (Batch F T)
  rows_batches inputs labels context id [] = []
  rows_batches inputs labels context id (indexes ∷ more) =
      rows_batch inputs labels context id indexes ∷ rows_batches inputs labels context (suc id) more

All-take {ℓ κ} : {A : Type ℓ} (P : A → Type κ) (n : ℕ) (xs : List A) → All P xs → All P (take n xs)
All-take P zero xs h = tt
All-take P (suc n) [] h = tt
All-take P (suc n) (x ∷ xs) h = (h.0, All-take P n xs h.1)

All-drop {ℓ κ} : {A : Type ℓ} (P : A → Type κ) (n : ℕ) (xs : List A) → All P xs → All P (drop n xs)
All-drop P zero xs h = h
All-drop P (suc n) [] h = tt
All-drop P (suc n) (x ∷ xs) h = All-drop P n xs h.1

-- The full chunks of a list, with fuel.
abbrev pub full_chunks : ℕ → ℕ → List ℕ → List (List ℕ)
full_chunks zero size xs = []
full_chunks (suc fuel) size xs =
    let more = take size xs ∷ full_chunks fuel size (drop size xs) in
    if ltb (length xs) size then [] else more

module _ {D T R V C U : Type 0} (tensor : Tensors T D R V C U) (law : Slicing tensor) where
  -- A dataset at rest: its tensors are locked one after another, and have `n` lines each.
  pub record IsLoaded (cells : List T) (d : Dataset) (inputs : List T) (labels : T) (n : ℕ)
      : Type 0 where
    pub inputs_found : lock_all {E = TchError} cells [] d.samples_inputs ≡ ok inputs
    pub labels_found : lock {E = TchError} cells d.samples_inputs d.labels ≡ ok labels
    pub inputs_lines : All (HasLines tensor n) inputs
    pub labels_lines : HasLines tensor n labels

  batch_of-rows :
      {F : Type 0} {cells inputs : List T} {labels : T} {n : ℕ} (it : DatasetIter)
      → IsLoaded cells it.dataset inputs labels n
      → InRange n (take it.batch_size it.indexes)
      → 0 < length (take it.batch_size it.indexes)
      → batch_of tensor {E = TchError} {F = F} cells it
        ≡ ok (
            rows_batch tensor law inputs labels it.dataset.privacy_context it.batch_id
              (take it.batch_size it.indexes))
  unfolding batch_of
  batch_of-rows {F} {cells} {inputs} {labels} {n} it d p some_row =
      let now = take it.batch_size it.indexes in
      rw
        (
          d.inputs_found,
          d.labels_found,
          gather-rows tensor law {E = TchError} inputs labels [] now n d.inputs_lines d.labels_lines
              p,
          stack_each-rows tensor law {E = TchError} inputs now n d.inputs_lines p some_row,
          stacked-rows tensor law {E = TchError} labels now n d.labels_lines p some_row,
        )
        refl

  next_batch-rows :
      {F : Type 0} {cells inputs : List T} {labels : T} {n : ℕ} (it : DatasetIter)
      → IsLoaded cells it.dataset inputs labels n
      → InRange n it.indexes
      → 0 < it.batch_size
      → ltb (length it.indexes) it.batch_size ≡ false
      → next_batch tensor {E = TchError} {F = F} cells it
        ≡ ok (
          some (
              rows_batch tensor law inputs labels it.dataset.privacy_context it.batch_id
                (take it.batch_size it.indexes)),
          advanced it,
        )
  unfolding next_batch
  next_batch-rows {F} {cells} {inputs} {labels} {n} it d p positive enough =
      rw
        (
          enough,
          batch_of-rows {F = F} it d (All-take (λ i. i < n) it.batch_size it.indexes p)
              (ground (arith, length-take it.batch_size it.indexes)),
        )
        refl

  next_batch-over :
      {F : Type 0} (cells : List T) (it : DatasetIter)
      → ltb (length it.indexes) it.batch_size ≡ true
      → next_batch tensor {E = TchError} {F = F} cells it ≡ ok (none, it)
  unfolding next_batch
  next_batch-over cells it over = rw over refl

  -- A loaded dataset is read to its end: with more fuel than there are indexes, a positive batch size
  -- and indexes below the number of lines, the iterator yields one batch for each full chunk of the
  -- indexes, and stops without a panic. A batch holds the rows of its indexes, of every input and of
  -- the labels; it counts as independent under its own number, and has the context of the dataset.
  -- Indexing below the first dimension and stacking rows of one tensor are assumed to succeed.
  pub batches-rows :
      {F : Type 0} {cells inputs : List T} {labels : T} {n : ℕ} (fuel : ℕ) (it : DatasetIter)
      → IsLoaded cells it.dataset inputs labels n
      → InRange n it.indexes
      → 0 < it.batch_size
      → length it.indexes < fuel
      → batches tensor {E = TchError} {F = F} fuel cells it
        ≡ some (
            ok (
              rows_batches tensor law inputs labels it.dataset.privacy_context it.batch_id
                (full_chunks fuel it.batch_size it.indexes)))
  unfolding batches
  batches-rows zero it d p positive fuelled = absurd (omega arith)
  batches-rows {F} {cells} {inputs} {labels} {n} (suc fuel) it d p positive fuelled =
      elim (Bool-cases (ltb (length it.indexes) it.batch_size)) [
        | inl over ↦ rw (next_batch-over {F = F} cells it over, batches, over) refl
        | inr enough ↦
            rw
              (
                next_batch-rows {F = F} it d p positive enough,
                batches,
                batches-rows {F = F} fuel (advanced it) d
                    (All-drop (λ i. i < n) it.batch_size it.indexes p) positive
                    (ground (arith, length-drop it.batch_size it.indexes)),
                enough,
              )
              refl
      ]

-- The full chunks cover a list in order up to a rest that is shorter than a chunk.
pub full_chunks_cover :
    (fuel size : ℕ) (xs : List ℕ)
    → 0 < size
    → length xs < fuel
    → (rest : List ℕ) × (joined (full_chunks fuel size xs) ++ rest ≡ xs)
      × (length rest < size)
      × All (λ c. length c ≡ size) (full_chunks fuel size xs)
full_chunks_cover zero size xs p h = absurd (omega arith)
full_chunks_cover (suc fuel) size xs p h = elim (Bool-cases (ltb (length xs) size)) [
  | inl over ↦ rw over (xs, refl, ltb→lt _ _ over, tt)
  | inr enough ↦
      let (rest, cover, short, sized) =
        full_chunks_cover fuel size (drop size xs) p (ground (arith, length-drop size xs)) in
      rw enough (
        rest,
        append_assoc (take size xs) (joined (full_chunks fuel size (drop size xs))) rest
            ∙ (rw cover (take-append-drop size xs)),
        short,
        (ground (arith, length-take size xs), sized),
      )
]
