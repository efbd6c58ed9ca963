-- ===== src/Learning/Loading.antt =====
-- server/bastionlab_learning/src/data/dataset.rs: the named tensors of a dataset, read from the
-- objects of an upload and written to one object.
pub mod RoundTrip
mod Total
mod Tests
use bastionlab.Prelude.{
  ℕ, zero, suc, ◌+◌, ◌-◌, ◌*◌, ◌/◌, ◌%◌, ◌^◌, ◌≤◌, ◌<◌, min, max, String, ◌≡◌, refl, sym, ap, subst,
  ◌∙◌, ◌≢◌, ◌↔◌, ◌⊎◌, inl, inr, Bool, true, false, ◌&&◌, ◌||◌, not, Option, none, some, List, [],
  ◌∷◌, ◌++◌, map, append-nil, append_assoc, arith, ltb, leb, eqb, if◌then◌else◌, ltb→lt, lt→ltb,
  leb→le, le→leb, eqb_iff, tests, Bool-cases, Option-cases, length, get_elem?, take, drop, last?,
  length-append, take-append-drop, length-take, length-drop, take-length-append, drop-length-append,
  drop-eq-nil, length-map, All, All-append, ok_or_inv, ok_injective, Outcome, ok, err, panic, ◌>>=◌,
  ◌>>◌, ok_or, unwrap, ensure, map_err, >>=-eq-ok, Outcome-cases, PartialEq, ◌==◌, ==_iff, contains,
  nat_eq, string_eq, list_eq, paired, contains-append, lookup-insert_inv, chunks_on, chunks, joined,
  Sized, joined-chunks, HashMap, lookup, insert, erase, lookup-nil, lookup-insert, lookup-erase,
  lookup-append, or_else, beq_refl, map_laws, concat, decimal,
}
use bastionlab.Prelude.{codes, strip_prefix, parse_usize}
use bastionlab.Learning.Bytes.{
  SizedObjectsBytes, new, append_back, next, TchError, kind, file_format,
}
use bastionlab.Learning.Numbers.{Floats, Tensors}
use bastionlab.Learning.Privacy.{PrivacyBudget, not_private, private_}
use bastionlab.Learning.Iterator.{Dataset, lock, lock_all}

-- `Tensor::load_multi_from_stream_with_device` and `Tensor::save_multi_to_stream`
pub record Archive (T : Type 0) : Type 0 where
  pub load_multi : List ℕ → Outcome TchError (List (String × T))
  pub save_multi : List (String × T) → Outcome TchError (List ℕ)

-- What the loop over the objects has gathered.
pub record Gathered (F T : Type 0) : Type 0 where
  pub samples_inputs : List (Option T)
  pub labels : Option T
  pub privacy_limit : PrivacyBudget F

-- What a stream gives: the tensors of a dataset, and its limit.
pub record Loaded (F T : Type 0) : Type 0 where
  pub samples : List T
  pub labels : T
  pub nb_samples : ℕ
  pub limit : PrivacyBudget F

module _ {T : Type 0} where
  unfoldable pub push_none : ℕ → List (Option T) → List (Option T)
  push_none zero samples = samples
  push_none (suc n) samples = push_none n (samples ++ (none ∷ []))

  -- The vector is extended to the index `idx`.
  abbrev pub extended : List (Option T) → ℕ → List (Option T)
  extended samples idx = push_none (suc idx - length samples) samples

  abbrev pub set : List (Option T) → ℕ → Option T → List (Option T)
  set [] i v = []
  set (x ∷ xs) zero v = v ∷ xs
  set (x ∷ xs) (suc i) v = x ∷ set xs i v

  -- `opt.unwrap()`, for each.
  unfoldable pub unwrap_all {ℓ} : {E : Type ℓ} → List (Option T) → Outcome E (List T)
  unwrap_all [] = ok []
  unwrap_all (x ∷ xs) = do t ← unwrap x; ts ← unwrap_all xs; ok (t ∷ ts)

abbrev pub unknown_field : String → TchError
unknown_field s = file_format (concat ("Invalid data, unknown field " ∷ s ∷ "." ∷ []))

-- The index of a field `samples_<idx>`.
unfoldable pub sample_index : String → Outcome TchError ℕ
unfolding parse_usize
sample_index s = do
  digits ← ok_or (strip_prefix (codes "samples_") (codes s)) (unknown_field s)
  ok_or (parse_usize digits) (unknown_field s)

module _ {F D T R V C U : Type 0} (number : Floats F D) (tensor : Tensors T D R V C U) where
  -- A tensor under a name that was met before is appended to what it had.
  unfoldable pub joined_to : Option T → T → Outcome TchError (Option T)
  joined_to none t = ok (some t)
  joined_to (some before) t = do both ← tensor.cat before t; ok (some both)

  unfoldable pub limit_field : T → Outcome TchError (PrivacyBudget F)
  limit_field t = do
    x ← tensor.double_value t []
    let limit = number.to_f32 x
    ok (if number.lt limit (number.literal 0 0) then not_private else private_ limit)

  unfoldable pub sample_field : Gathered F T → String → T → Outcome TchError (Gathered F T)
  sample_field g s t = do
    idx ← sample_index s
    let samples = extended g.samples_inputs idx
    before ← unwrap (get_elem? samples idx)
    after ← joined_to before t
    ok (record g { samples_inputs = set samples idx after })

  -- The `match` on the name of a tensor.
  unfoldable pub take_field : Gathered F T → String × T → Outcome TchError (Gathered F T)
  take_field g (name, t) =
      if name == "labels"
      then (do labels ← joined_to g.labels t; ok (record g { labels = labels }))
      else if name == "privacy_limit"
      then (do limit ← limit_field t; ok (record g { privacy_limit = limit }))
      else sample_field g name t

  unfoldable pub take_fields : Gathered F T → List (String × T) → Outcome TchError (Gathered F T)
  take_fields g [] = ok g
  take_fields g (field ∷ fields) = do g' ← take_field g field; take_fields g' fields

  module _ (archive : Archive T) where
    -- The loop over the objects, with fuel; `none` means that the fuel ran out.
    unfoldable pub take_objects :
        ℕ → Gathered F T → SizedObjectsBytes → Option (Outcome TchError (Gathered F T))
    take_objects zero g value = none
    take_objects (suc fuel) g value = elim (next {E = TchError} value) [
      | ok (none, rest) ↦ some (ok g)
      | ok (some object, rest) ↦
          elim (archive.load_multi object >>= λ fields. take_fields g fields) [
            | ok g' ↦ take_objects fuel g' rest
            | err e ↦ some (err e)
            | panic ↦ some panic
          ]
      | err e ↦ some (err e)
      | panic ↦ some panic
    ]

  -- What follows the loop: an upload without labels, or with a gap in its samples, panics.
  unfoldable pub finish : Gathered F T → Outcome TchError (Loaded F T)
  finish g = do
    labels ← unwrap g.labels
    nb_samples ←
        ok_or (get_elem? (tensor.size labels) 0)
          (kind "Labels tensor has no dimmensions, cannot infer dataset size.")
    samples ← unwrap_all g.samples_inputs
    ok (record {
      samples = samples;
      labels = labels;
      nb_samples = nb_samples;
      limit = g.privacy_limit;
    })

  abbrev pub nothing_gathered : Gathered F T
  nothing_gathered = record {
    samples_inputs = [];
    labels = none;
    privacy_limit = private_ (number.literal 0 0);
  }

  abbrev pub finish_all :
      Option (Outcome TchError (Gathered F T)) → Option (Outcome TchError (Loaded F T))
  finish_all none = none
  finish_all (some (ok g)) = some (finish g)
  finish_all (some (err e)) = some (err e)
  finish_all (some panic) = some panic

  -- `TryFrom<SizedObjectsBytes> for Dataset`, with fuel for its loop.
  unfoldable pub load_dataset :
      Archive T → ℕ → SizedObjectsBytes → Option (Outcome TchError (Loaded F T))
  load_dataset archive fuel value = finish_all (take_objects archive fuel nothing_gathered value)

abbrev pub named_samples : {T : Type 0} → ℕ → List T → List (String × T)
named_samples i [] = []
named_samples i (t ∷ ts) = (concat ("samples_" ∷ decimal i ∷ []), t) ∷ named_samples (suc i) ts

abbrev pub named_tensors : {T : Type 0} → List T → T → List (String × T)
named_tensors samples labels = named_samples 0 samples ++ (("labels", labels) ∷ [])

-- `TryFrom<&Dataset> for SizedObjectsBytes`: the limit of the dataset is not among its tensors.
unfoldable pub save_dataset :
    {T : Type 0} → Archive T → List T → Dataset → Outcome TchError SizedObjectsBytes
save_dataset archive cells value = do
  samples ← lock_all cells [] value.samples_inputs
  labels ← lock cells value.samples_inputs value.labels
  buf ← archive.save_multi (named_tensors samples labels)
  ok (append_back new buf)

-- `TryFrom<&SizedObjectsBytes> for tch::Tensor`: the first tensor of the bytes, read as one archive.
unfoldable pub tensor_from :
    {T : Type 0} → Archive T → (T → T) → SizedObjectsBytes → Outcome TchError T
tensor_from archive detach value = do
  data_ ← archive.load_multi value.bytes
  first ← unwrap (get_elem? data_ 0)
  ok (detach first.1)
