-- ===== src/Torch/Tests.antt =====
-- A service with one module, one dataset and two tensors.
use bastionlab.Prelude.{
  ℕ, zero, suc, String, ◌≡◌, refl, ◌≢◌, true, false, none, some, List, [], ◌∷◌, ok, err, panic,
  nat_eq, string_eq, list_eq, lookup, insert, contains, ap, subst, Option,
}
use bastionlab.Common.Status.{status, out_of_range}
use bastionlab.Common.Session.{Request, get_token, get_client_info, access_token}
use bastionlab.Common.Session.Tests.{after, address}
use bastionlab.Learning.Bytes.{kind}
use bastionlab.Learning.Samples.{naturals, lists}
use bastionlab.Learning.Privacy.{PrivacyBudget, private_, not_private, within_bounds, is_within}
use bastionlab.Learning.Privacy
use bastionlab.Learning.Privacy.Guards.{write}
use bastionlab.Learning.Iterator.{Dataset, lines, lock}
use bastionlab.Learning.Data.{Memory, new_context, read_cell, limit_of}
use bastionlab.Learning.Data
use bastionlab.Torch.Stream.{Artifact}
use bastionlab.Torch.Names.{Reference, RemoteDatasetReference, cpu, parse_device, remote_dataset}
use bastionlab.Torch.State.{
  run_ok, pending, Server, Describing, new, new_uuid, insert_tensor, insert_samples, insert_dataset,
  lock_tensors, lock_tensor, get_tensor, get_tensors, convert_from_remote_dataset_to_dataset,
}
use bastionlab.Torch.Service.{
  TestConfig, Backend, TrainConfig, get_metric, train, test, start_run, client, find_dataset,
  new_checkpoint, run_reference, delete_binary,
}
use bastionlab.Torch.Transfers.{conv_to_dataset}
use bastionlab.Torch.Transfers.Limits.{conv_to_dataset-unlimited}
use bastionlab.Torch.Runs.{Item, test_items, metric_report, module_train}
use bastionlab.Torch.Runs.Reports.{train-get_metric, test_items-last}
use bastionlab.Torch.Histories.{deleting, here, Reach-test}

abbrev uuid : ℕ → String
uuid zero = "first"
uuid (suc n) = "later"

abbrev describing : Describing (List ℕ)
describing = record {
  kind_name = λ t. "Float";
  encode_meta = λ kinds dims. dims;
  to_dtype = λ t dtype. some t;
}

abbrev backend : Backend (List ℕ) (List ℕ) (List ℕ)
backend = record {
  hmac_key = λ bytes. bytes;
  display = λ e. "failed";
  parse_uuid = λ s. some s;
  archive = record { load_multi = λ bytes. ok []; save_multi = λ fields. ok [] };
  detach = λ t. t;
  load_data = ok;
  save_to_stream = ok;
  cuda_if_available = cpu;
}

abbrev store : Memory ℕ (List ℕ) ℕ
store = record {
  cells = (1 ∷ 2 ∷ []) ∷ (3 ∷ 4 ∷ []) ∷ [];
  world = record { contexts = λ a. Privacy.new naturals (private_ 5) 2; rng = 0 };
  next_context = 1;
}

abbrev artifact_of : {A : Type 0} → A → Artifact (List ℕ) A
artifact_of a = record {
  data_ = a;
  name = "net";
  description = "";
  secret = [];
  meta = [];
  client_info = none;
}

abbrev service : Server (List ℕ) ℕ (List ℕ) ℕ ℕ
service = record (new after store) {
  binaries = ("m", artifact_of (7 ∷ [])) ∷ [];
  datasets =
      ("d", artifact_of (record { samples_inputs = 0 ∷ []; labels = 1; privacy_context = 0 })) ∷ [];
  tensors = ("x", 0) ∷ ("y", 1) ∷ [];
}

abbrev reference : String → Reference
reference id = record { identifier = id; name = ""; description = ""; meta = [] }

abbrev asked : {A : Type 0} → A → Request A
asked message = record {
  metadata = record { binary = ("accesstoken-bin", some (5 ∷ 6 ∷ [])) ∷ [] };
  remote_addr = some address;
  message = message;
}

abbrev config : TrainConfig ℕ
config = record {
  model = some (reference "m");
  dataset = "d";
  device = "cpu";
  eps = 0;
  resume = false;
}

abbrev begun : Server (List ℕ) ℕ (List ℕ) ℕ ℕ
begun = (train naturals backend uuid (asked config) service).1

started : train naturals backend uuid (asked config) service ≡ (ok (run_reference "first"), begun)
unfolding train client find_dataset new_checkpoint start_run new_uuid parse_device get_token
    get_client_info access_token new lookup insert
started = refl

abbrev steps : List (Item ℕ)
steps = ok (0, 0, 8, 1) ∷ ok (0, 1, 9, 1) ∷ []

train-get_metric_example :
    ((get_metric backend (asked "first") begun).0
      ≡ err (status out_of_range "Run has not started."))
    × ((module_train naturals backend.display "first" (ok (1, 2, steps)) begun).0 ≡ ok tt)
    × ((get_metric backend
          (asked "first")
          (module_train naturals backend.display "first" (ok (1, 2, steps)) begun).1).0
        ≡ ok (record {
          value = 9;
          uncertainty = 2;
          batch = 1;
          epoch = 0;
          nb_epochs = 1;
          nb_batches = 2;
        }))
train-get_metric_example =
    train-get_metric naturals backend.display backend uuid (asked config) service begun
      (run_reference "first") (asked "first") 1 2 steps started refl (tt, (tt, tt))

test_items-last_example :
    test_items naturals backend.display 2 (err (kind "no lines") ∷ ok (1, 6, 0) ∷ []) pending
    ≡ run_ok (metric_report naturals backend.display 1 2 (0, 1, 6, 0))
test_items-last_example =
    test_items-last naturals backend.display 2 (err (kind "no lines") ∷ []) 1 6 0 pending (tt, tt)

abbrev remote : RemoteDatasetReference
remote = record { identifier = ""; inputs = reference "x" ∷ []; labels = some (reference "y") }

abbrev reply : RemoteDatasetReference
reply = record {
  identifier = "first";
  inputs = record (reference "later") { meta = 2 ∷ [] } ∷ [];
  labels = some (record (reference "later") { meta = 2 ∷ [] });
}

abbrev with_dataset : Server (List ℕ) ℕ (List ℕ) ℕ ℕ
with_dataset = (conv_to_dataset naturals lists describing backend uuid (asked remote) service).1

put_together :
    conv_to_dataset naturals lists describing backend uuid (asked remote) service
    ≡ (ok reply, with_dataset)
unfolding conv_to_dataset convert_from_remote_dataset_to_dataset remote_dataset get_tensors
    get_tensor lock_tensors lock_tensor Data.new read_cell lock lines new_context write limit_of
    insert_dataset insert_samples insert_tensor new_uuid lookup insert new Privacy.new
put_together = refl

conv_to_dataset-unlimited_example :
    (a : Artifact (List ℕ) Dataset) × (lookup "first" with_dataset.datasets ≡ some a)
    × ((with_dataset.memory.world.contexts a.data_.privacy_context).limit ≡ not_private)
    × (within_bounds naturals
          (with_dataset.memory.world.contexts a.data_.privacy_context)
          (private_ 100)
        ≡ true)
conv_to_dataset-unlimited_example =
    conv_to_dataset-unlimited naturals lists describing backend uuid (asked remote) service
      with_dataset reply (private_ 100) refl put_together

-- Another module is being deleted.
abbrev emptied : Server (List ℕ) ℕ (List ℕ) ℕ ℕ
emptied = (delete_binary "n" (new after store)).1

abbrev to_test : Request TestConfig
to_test = asked (record { model = some (reference "m"); dataset = "d"; device = "cpu" })

abbrev identifier_of : Option Reference → String
identifier_of none = ""
identifier_of (some model) = model.identifier

elsewhere :
    (model : Reference)
    → to_test.message.model ≡ some model
    → contains ("n" ∷ []) model.identifier ≡ false
elsewhere model e =
    subst (λ (id : String). contains ("n" ∷ []) id ≡ false) (ap identifier_of e) refl

Reach-test_example : (test naturals backend uuid to_test emptied).0 ≢ panic
Reach-test_example =
    Reach-test naturals lists describing backend uuid after store ("n" ∷ []) emptied to_test
      (deleting "n" here) elsewhere
