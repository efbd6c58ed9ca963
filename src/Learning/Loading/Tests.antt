-- ===== src/Learning/Loading/Tests.antt =====
-- A dataset of one input written and read, with an archive that knows one stream.
use bastionlab.Prelude.{ℕ, ◌≡◌, refl, some, List, [], ◌∷◌, arith, ok, nat_eq, string_eq, list_eq}
use bastionlab.Learning.Bytes.{SizedObjectsBytes}
use bastionlab.Learning.Samples.{naturals, lists}
use bastionlab.Learning.Privacy.{private_}
use bastionlab.Learning.Iterator.{Dataset, lock, lock_all}
use bastionlab.Learning.Loading.{Archive, load_dataset, save_dataset, named_tensors}
use bastionlab.Learning.Loading.RoundTrip.{load_dataset-save_dataset}

abbrev cells : List (List ℕ)
cells = (1 ∷ 2 ∷ []) ∷ (3 ∷ 4 ∷ []) ∷ []

abbrev pair : Dataset
pair = record { samples_inputs = 0 ∷ []; labels = 1; privacy_context = 0 }

-- A stream is the numbers of the samples, which come before the labels.
abbrev toy_archive : Archive (List ℕ)
toy_archive = record {
  load_multi = λ buf. ok (named_tensors ((1 ∷ 2 ∷ []) ∷ []) (3 ∷ 4 ∷ []));
  save_multi = λ fields. ok (1 ∷ 2 ∷ 3 ∷ 4 ∷ []);
}

load_dataset-save_dataset_example :
    (bytes : SizedObjectsBytes) × (save_dataset toy_archive cells pair ≡ ok bytes)
    × (load_dataset naturals lists toy_archive 2 bytes
        ≡ some (
            ok (record {
              samples = (1 ∷ 2 ∷ []) ∷ [];
              labels = 3 ∷ 4 ∷ [];
              nb_samples = 2;
              limit = private_ 0;
            })))
load_dataset-save_dataset_example =
    load_dataset-save_dataset naturals lists toy_archive cells pair ((1 ∷ 2 ∷ []) ∷ []) (3 ∷ 4 ∷ [])
      [] 2 0 (1 ∷ 2 ∷ 3 ∷ 4 ∷ []) (unfold lock_all lock in refl) (unfold lock in refl) refl refl
      refl (omega arith) (omega arith)
