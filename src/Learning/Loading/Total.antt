-- ===== src/Learning/Loading/Total.antt =====
-- The loading of a dataset ends on every stream of bytes.
use bastionlab.Prelude.{
  ℕ, zero, suc, ◌<◌, ◌≡◌, refl, ◌≢◌, inl, inr, Option, none, some, arith, length, Outcome, ok, err,
  panic, ◌>>=◌, Outcome-cases, nat_eq, string_eq, list_eq,
}
use bastionlab.Learning.Bytes.{SizedObjectsBytes, next, TchError}
use bastionlab.Learning.Bytes.RoundTrip.{length-next}
use bastionlab.Learning.Numbers.{Floats, Tensors}
use bastionlab.Learning.Loading.{
  Archive, Gathered, take_fields, take_objects, nothing_gathered, finish_all, load_dataset,
}

module _ {F D T R V C U : Type 0} (number : Floats F D) (tensor : Tensors T D R V C U)
    (archive : Archive T) where
  take_objects_total :
      (fuel : ℕ) (g : Gathered F T) (value : SizedObjectsBytes)
      → length value.bytes < fuel
      → take_objects number tensor archive fuel g value ≢ none
  unfolding take_objects
  take_objects_total zero g value h = absurd (omega arith)
  take_objects_total (suc fuel) g value h = elim (Outcome-cases (next {E = TchError} value)) [
    | inl ((none, rest), e) ↦ rw (e, take_objects) (λ x. cc)
    | inl ((some object, rest), e) ↦
        elim (Outcome-cases
          (archive.load_multi object >>= λ fields. take_fields number tensor g fields)) [
            | inl (g', f) ↦
                rw (e, take_objects, f)
                  (take_objects_total fuel g' rest
                    (omega (arith, length-next {E = TchError} value object rest e)))
            | inr (inl (x, f)) ↦ rw (e, take_objects, f) (λ x. cc)
            | inr (inr f) ↦ rw (e, take_objects, f) (λ x. cc)
          ]
    | inr (inl (x, e)) ↦ rw (e, take_objects) (λ x. cc)
    | inr (inr e) ↦ rw (e, take_objects) (λ x. cc)
  ]

  finish_all-none :
      (r : Option (Outcome TchError (Gathered F T))) → finish_all number tensor r ≡ none → r ≡ none
  finish_all-none none h = refl
  finish_all-none (some (ok g)) h = cc
  finish_all-none (some (err e)) h = cc
  finish_all-none (some panic) h = cc

  -- With more fuel than the stream has bytes, the loading of a dataset ends, in a dataset, an error or
  -- a panic, whatever the bytes are and whatever the archive makes of them.
  pub load_dataset_total :
      (fuel : ℕ) (value : SizedObjectsBytes)
      → length value.bytes < fuel
      → load_dataset number tensor archive fuel value ≢ none
  unfolding load_dataset
  load_dataset_total fuel value h e =
      take_objects_total fuel (nothing_gathered number tensor) value h (finish_all-none _ e)
