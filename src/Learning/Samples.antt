-- ===== src/Learning/Samples.antt =====
-- Small numbers and tensors to run the code of this crate on: natural numbers, and lists of them.
use bastionlab.Prelude.{
  ℕ, ◌+◌, ◌-◌, ◌*◌, ◌/◌, ◌^◌, min, max, Option, none, some, List, [], ◌∷◌, ◌++◌, map, ltb, leb, eqb,
  length, get_elem?, Outcome, ok, err, ◌>>=◌, nat_eq, string_eq, list_eq, joined,
}
use bastionlab.Learning.Bytes.{TchError, shape}
use bastionlab.Learning.Numbers.{Floats, Tensors}

abbrev pub naturals : Floats ℕ ℕ
naturals = record {
  literal = λ m k. m / (10 ^ k);
  add = λ a b. a + b;
  sub = λ a b. a - b;
  mul = λ a b. a * b;
  div = λ a b. a / b;
  max_of = max;
  min_of = min;
  sqrt = λ a. a;
  ln = λ a. a;
  lt = ltb;
  le = leb;
  of_usize = λ n. n;
  to_f64 = λ a. a;
  to_f32 = λ a. a;
  literal64 = λ m k. m / (10 ^ k);
  neg64 = λ a. 0;
  abs64 = λ a. a;
  max64 = max;
  sub64 = λ a b. a - b;
  mul64 = λ a b. a * b;
  div64 = λ a b. a / b;
  lt64 = ltb;
  eq64 = eqb;
  usize_to_f64 = λ n. n;
}

abbrev pub add_lists : List ℕ → List ℕ → Outcome TchError (List ℕ)
add_lists [] [] = ok []
add_lists [] (y ∷ ys) = err (shape "The sizes differ.")
add_lists (x ∷ xs) [] = err (shape "The sizes differ.")
add_lists (x ∷ xs) (y ∷ ys) = do zs ← add_lists xs ys; ok ((x + y) ∷ zs)

abbrev pub total : List ℕ → ℕ
total [] = 0
total (x ∷ xs) = x + total xs

abbrev pub singleton : Option ℕ → Option (List ℕ)
singleton none = none
singleton (some x) = some (x ∷ [])

-- A device, a kind and a reduction are numbers here; the random generator counts its draws.
abbrev pub lists : Tensors (List ℕ) ℕ ℕ ℕ ℕ ℕ
lists = record {
  size = λ t. length t ∷ [];
  numel = length;
  select = λ t i. singleton (get_elem? t i);
  stack = λ ts. ok (joined ts);
  cat = λ t u. ok (t ++ u);
  zeros_like = map (λ (x : ℕ). 0);
  normal = λ t std rng. (ok (map (λ (x : ℕ). x + rng) t), rng + 1);
  add_ = λ t u. t;
  div_ = λ t x. t;
  add = add_lists;
  sub = add_lists;
  abs = ok;
  to_device = λ t device. ok t;
  view = λ t s. ok t;
  double_value = λ t idx. ok (total t);
  clamp = λ t lo hi. ok (map (λ (x : ℕ). min x hi) t);
  sum = λ t dtype. ok (total t ∷ []);
  sum_lines = λ t. ok (total t ∷ []);
  argmax = λ t dim keepdim. ok t;
  add_scalar = λ t x. ok (map (λ (y : ℕ). y + x) t);
  sub_scalar = λ t x. ok (map (λ (y : ℕ). y - x) t);
  mul_scalar = λ t x. ok (map (λ (y : ℕ). y * x) t);
  repeated = λ t n. ok (t ++ t);
  detached_copy = ok;
  mse_loss = λ t u reduction. add_lists t u;
  cross_entropy_loss = λ t u weight reduction index smoothing. add_lists t u;
}
