-- ===== src/Learning/Numbers.antt =====
-- What `tch` and Rust's floating-point numbers give: `f32`, `f64`, tensors. They are parameters.
use bastionlab.Prelude.{ℕ, Bool, Option, List, Outcome, nat_eq, string_eq, list_eq}
use bastionlab.Learning.Bytes.{TchError}

-- An `i64`, where a sign matters.
pub data ℤ : Type 0 where
  pos negsuc : ℕ → ℤ

-- The numbers `f32`, of type `F`, and `f64`, of type `D`. The literal `125, 2` is 1.25.
pub record Floats (F D : Type 0) : Type 0 where
  pub literal : ℕ → ℕ → F
  pub add : F → F → F
  pub sub : F → F → F
  pub mul : F → F → F
  pub div : F → F → F
  pub max_of : F → F → F
  pub min_of : F → F → F
  pub sqrt : F → F
  pub ln : F → F
  pub lt : F → F → Bool
  pub le : F → F → Bool
  pub of_usize : ℕ → F
  pub to_f64 : F → D
  pub to_f32 : D → F
  pub literal64 : ℕ → ℕ → D
  pub neg64 : D → D
  pub abs64 : D → D
  pub max64 : D → D → D
  pub sub64 : D → D → D
  pub mul64 : D → D → D
  pub div64 : D → D → D
  pub lt64 : D → D → Bool
  pub eq64 : D → D → Bool
  pub usize_to_f64 : ℕ → D

-- `tch::Tensor`, of type `T`; `R` is the state of the random generator, `V` a device, `C` a kind
-- and `U` a reduction. What `add_` and `div_` leave in their first argument is their result, also
-- when they fail.
pub record Tensors (T D R V C U : Type 0) : Type 0 where
  pub size : T → List ℕ
  pub numel : T → ℕ
  pub select : T → ℕ → Option T
  pub stack : List T → Outcome TchError T
  pub cat : T → T → Outcome TchError T
  pub zeros_like : T → T
  pub normal : T → D → R → Outcome TchError T × R
  pub add_ : T → T → T
  pub div_ : T → D → T
  pub add : T → T → Outcome TchError T
  pub sub : T → T → Outcome TchError T
  pub abs : T → Outcome TchError T
  pub to_device : T → V → Outcome TchError T
  pub view : T → List ℤ → Outcome TchError T
  pub double_value : T → List ℤ → Outcome TchError D
  pub clamp : T → D → D → Outcome TchError T
  pub sum : T → C → Outcome TchError T
  pub sum_lines : T → Outcome TchError T
  pub argmax : T → ℤ → Bool → Outcome TchError T
  pub add_scalar : T → D → Outcome TchError T
  pub sub_scalar : T → D → Outcome TchError T
  pub mul_scalar : T → D → Outcome TchError T
  pub repeated : T → List ℕ → Outcome TchError T
  pub detached_copy : T → Outcome TchError T
  pub mse_loss : T → T → U → Outcome TchError T
  pub cross_entropy_loss : T → T → Option T → U → ℤ → D → Outcome TchError T
