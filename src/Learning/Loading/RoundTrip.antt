-- ===== src/Learning/Loading/RoundTrip.antt =====
-- A dataset that is saved and loaded again.
use bastionlab.Prelude.{
  ℕ, suc, ◌+◌, ◌-◌, ◌^◌, ◌<◌, String, ◌≡◌, refl, sym, ap, subst, ◌∙◌, ◌≢◌, inl, inr, false, Option,
  none, some, List, [], ◌∷◌, ◌++◌, map, append-nil, append_assoc, arith, Bool-cases, length,
  get_elem?, length-append, ok, ◌==◌, ==_iff, nat_eq, string_eq, list_eq, concat, decimal,
}
use bastionlab.Prelude.{codes, codes-append, parse_usize-decimal}
use bastionlab.Learning.Bytes.{SizedObjectsBytes, new, append_back, next, TchError}
use bastionlab.Learning.Bytes.RoundTrip.{frame, next-frame}
use bastionlab.Learning.Numbers.{Floats, Tensors}
use bastionlab.Learning.Privacy.{private_}
use bastionlab.Learning.Iterator.{Dataset, lock, lock_all}
use bastionlab.Learning.Loading.{
  Archive, Gathered, push_none, extended, set, unwrap_all, sample_index, joined_to, sample_field,
  take_field, take_fields, take_objects, finish, nothing_gathered, load_dataset, named_samples,
  named_tensors, save_dataset,
}

abbrev sample_name : ℕ → String
sample_name i = concat ("samples_" ∷ decimal i ∷ [])

codes-sample_name : (i : ℕ) → codes (sample_name i) ≡ codes "samples_" ++ codes (decimal i)
codes-sample_name i =
    codes-append "samples_" (concat (decimal i ∷ []))
    ∙ ap (λ (s : List ℕ). codes "samples_" ++ s)
        (codes-append (decimal i) "" ∙ append-nil (codes (decimal i)))

sample_index-sample_name : (i : ℕ) → i < 2 ^ 64 → sample_index (sample_name i) ≡ ok i
unfolding sample_index
sample_index-sample_name i h = rw (codes-sample_name i) (rw (parse_usize-decimal i h) refl)

abbrev first : List ℕ → ℕ
first [] = 0
first (x ∷ xs) = x

-- The name of a sample begins with an `s`.
sample_name-other :
    (i : ℕ) (s : String) (c : ℕ) (rest : List ℕ)
    → codes s ≡ c ∷ rest
    → c ≢ 115
    → (sample_name i == s) ≡ false
sample_name-other i s c rest e d = elim (Bool-cases (sample_name i == s)) [
  | inl same ↦ absurd (
      d (
        sym (
          ap first
            (sym (codes-sample_name i) ∙ (ap codes ((==_iff (sample_name i) s).0 same) ∙ e)))))
  | inr other ↦ other
]

module _ {A : Type 0} where
  get_elem?-snoc : (xs : List A) (x : A) → get_elem? (xs ++ (x ∷ [])) (length xs) ≡ some x
  get_elem?-snoc [] x = refl
  get_elem?-snoc (y ∷ xs) x = get_elem?-snoc xs x

module _ {T : Type 0} where
  set-snoc :
      (xs : List (Option T)) (x v : Option T) → set (xs ++ (x ∷ [])) (length xs) v ≡ xs ++ (v ∷ [])
  set-snoc [] x v = refl
  set-snoc (y ∷ xs) x v = ap (λ (l : List (Option T)). y ∷ l) (set-snoc xs x v)

  extended-next : (xs : List (Option T)) → extended xs (length xs) ≡ xs ++ (none ∷ [])
  unfolding push_none
  extended-next xs = rw (the_one (length xs)) refl
    where
      the_one : (n : ℕ) → suc n - n ≡ 1
      the_one n = omega arith

  unwrap_all-some : {E : Type 0} (ts : List T) → unwrap_all {E = E} (map some ts) ≡ ok ts
  unfolding unwrap_all
  unwrap_all-some [] = refl
  unwrap_all-some {E} (t ∷ ts) = rw (unwrap_all-some {E = E} ts) refl

next-alone :
    (buf : List ℕ)
    → length buf < 2 ^ 64
    → next {E = TchError} (append_back new buf) ≡ ok (some buf, record { bytes = [] })
unfolding append_back new
next-alone buf h =
    subst
      (λ (bytes : List ℕ).
        next {E = TchError} (record { bytes = bytes }) ≡ ok (some buf, record { bytes = [] }))
      (append-nil (frame buf)) (next-frame {E = TchError} buf [] h)

next-empty : next {E = TchError} (record { bytes = [] }) ≡ ok (none, record { bytes = [] })
unfolding next
next-empty = refl

module _ {F D T R V C U : Type 0} (number : Floats F D) (tensor : Tensors T D R V C U) where
  abbrev with_samples : List (Option T) → Option T → Gathered F T
  with_samples xs labels = record {
    samples_inputs = xs;
    labels = labels;
    privacy_limit = private_ (number.literal 0 0);
  }

  take_field-sample :
      (xs : List (Option T)) (i : ℕ) (t : T)
      → length xs ≡ i
      → i < 2 ^ 64
      → take_field number tensor (with_samples xs none) (sample_name i, t)
        ≡ ok (with_samples (xs ++ (some t ∷ [])) none)
  unfolding take_field sample_field joined_to
  take_field-sample xs i t e h =
      rw
        (
          sample_name-other i "labels" 108 (codes "abels") refl (omega arith),
          sample_name-other i "privacy_limit" 112 (codes "rivacy_limit") refl (omega arith),
          sample_index-sample_name i h,
          ← e,
        )
        (rw (extended-next xs, get_elem?-snoc xs none, set-snoc xs none (some t)) refl)

  take_fields-samples :
      (ts : List T) (xs : List (Option T)) (i : ℕ) (fields : List (String × T))
      → length xs ≡ i
      → i + length ts < 2 ^ 64
      → take_fields number tensor (with_samples xs none) (named_samples i ts ++ fields)
        ≡ take_fields number tensor (with_samples (xs ++ map some ts) none) fields
  unfolding take_fields
  take_fields-samples [] xs i fields e h = rw (append-nil xs) refl
  take_fields-samples (t ∷ ts) xs i fields e h =
      rw (take_field-sample xs i t e (omega arith), ← append_assoc xs (some t ∷ []) (map some ts))
        (take_fields-samples ts (xs ++ (some t ∷ [])) (suc i) fields
          (omega (arith, length-append xs (some t ∷ []))) (omega arith))

  take_fields-named :
      (ts : List T) (labels : T)
      → length ts < 2 ^ 64
      → take_fields number tensor (nothing_gathered number tensor) (named_tensors ts labels)
        ≡ ok (with_samples (map some ts) (some labels))
  take_fields-named ts labels h =
      take_fields-samples ts [] 0 (("labels", labels) ∷ []) refl (omega arith)
      ∙ unfold take_fields take_field joined_to in refl

  take_objects-one :
      (archive : Archive T) (fuel : ℕ) (g g' : Gathered F T) (buf : List ℕ)
      (fields : List (String × T))
      → length buf < 2 ^ 64
      → archive.load_multi buf ≡ ok fields
      → take_fields number tensor g fields ≡ ok g'
      → take_objects number tensor archive (suc (suc fuel)) g (append_back new buf) ≡ some (ok g')
  unfolding take_objects
  take_objects-one archive fuel g g' buf fields fits l taken =
      rw (next-alone buf fits, take_objects, l, taken, next-empty) refl

  finish-samples :
      (samples : List T) (labels : T) (lines : List ℕ) (n : ℕ)
      → tensor.size labels ≡ n ∷ lines
      → finish number tensor (with_samples (map some samples) (some labels))
        ≡ ok (record {
          samples = samples;
          labels = labels;
          nb_samples = n;
          limit = private_ (number.literal 0 0);
        })
  unfolding finish
  finish-samples samples labels lines n size =
      rw (size, unwrap_all-some {E = TchError} samples) refl

  -- A dataset whose tensors are written to one object and read back has the same samples, in the
  -- same order, and the same labels; its privacy limit is not written, and is zero when it is read.
  -- The archive is assumed to give back the named tensors that it was given.
  pub load_dataset-save_dataset :
      (archive : Archive T) (cells : List T) (d : Dataset) (samples : List T) (labels : T)
      (lines : List ℕ) (n fuel : ℕ) (buf : List ℕ)
      → lock_all {E = TchError} cells [] d.samples_inputs ≡ ok samples
      → lock {E = TchError} cells d.samples_inputs d.labels ≡ ok labels
      → archive.save_multi (named_tensors samples labels) ≡ ok buf
      → archive.load_multi buf ≡ ok (named_tensors samples labels)
      → tensor.size labels ≡ n ∷ lines
      → length samples < 2 ^ 64
      → length buf < 2 ^ 64
      → (bytes : SizedObjectsBytes) × (save_dataset archive cells d ≡ ok bytes)
        × (load_dataset number tensor archive (suc (suc fuel)) bytes
            ≡ some (
                ok (record {
                  samples = samples;
                  labels = labels;
                  nb_samples = n;
                  limit = private_ (number.literal 0 0);
                })))
  unfolding save_dataset load_dataset
  load_dataset-save_dataset archive cells d samples labels lines n fuel buf p q s l size small
        fits =
      (
        append_back new buf,
        rw (p, q, s) refl,
        rw
            (
              take_objects-one archive fuel (nothing_gathered number tensor)
                  (with_samples (map some samples) (some labels)) buf (named_tensors samples labels)
                  fits l (take_fields-named samples labels small),
              finish-samples samples labels lines n size,
            )
            refl,
      )
