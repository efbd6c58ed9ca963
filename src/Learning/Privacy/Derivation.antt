-- ===== src/Learning/Privacy/Derivation.antt =====
-- What can be computed from guarded tensors by the operations on them.
use bastionlab.Prelude.{
  ℕ, ◌≡◌, Bool, true, false, ◌||◌, List, [], ◌∷◌, ◌++◌, All, Outcome, ok, contains, nat_eq,
  string_eq, list_eq,
}
use bastionlab.Learning.Bytes.{TchError}
use bastionlab.Learning.Numbers.{Floats, Tensors, ℤ}
use bastionlab.Learning.Privacy.{BatchDependence, dependent, independent}
use bastionlab.Learning.Privacy.Guards.{PrivacyGuard}
use bastionlab.Learning.Privacy.Operations.{
  apply_forward, expand_batch_dim, f_clone, f_to, f_view, f_abs, f_clamp, f_sum, f_argmax,
  f_add_scalar, f_sub_scalar, f_mul_scalar,
}
use bastionlab.Learning.Privacy.Binary.{f_add, f_sub, defer_loss}

-- The operations on one guarded tensor.
pub data Operation (D V C : Type 0) : Type 0 where
  clone absolute : Operation D V C
  move_to : V → Operation D V C
  reshape : List ℤ → Operation D V C
  clip : D → D → Operation D V C
  total : C → Operation D V C
  best : ℤ → Bool → Operation D V C
  shift_up shift_down stretch : D → Operation D V C
  expand : ℕ → Operation D V C

-- No batch is listed twice.
abbrev pub IsDistinct : List ℕ → Type 0
IsDistinct [] = Unit {0}
IsDistinct (x ∷ xs) = (contains xs x ≡ false) × IsDistinct xs

abbrev pub is_expansion : {D V C : Type 0} → Operation D V C → Bool
is_expansion (expand n) = true
is_expansion clone = false
is_expansion absolute = false
is_expansion (move_to device) = false
is_expansion (reshape s) = false
is_expansion (clip lo hi) = false
is_expansion (total dtype) = false
is_expansion (best dim keepdim) = false
is_expansion (shift_up x) = false
is_expansion (shift_down x) = false
is_expansion (stretch x) = false

module _ {F D T R V C U : Type 0} (number : Floats F D) (tensor : Tensors T D R V C U) where
  unfoldable pub perform : Operation D V C → PrivacyGuard F T → Outcome TchError (PrivacyGuard F T)
  unfolding f_clone f_abs f_to f_view f_clamp f_sum f_argmax f_add_scalar f_sub_scalar f_mul_scalar
      expand_batch_dim
  perform clone g = f_clone number tensor g
  perform absolute g = f_abs number tensor g
  perform (move_to device) g = f_to number tensor g device
  perform (reshape s) g = f_view number tensor g s
  perform (clip lo hi) g = f_clamp number tensor g lo hi
  perform (total dtype) g = f_sum number tensor g dtype
  perform (best dim keepdim) g = f_argmax number tensor g dim keepdim
  perform (shift_up x) g = f_add_scalar number tensor g x
  perform (shift_down x) g = f_sub_scalar number tensor g x
  perform (stretch x) g = f_mul_scalar number tensor g x
  perform (expand n) g = expand_batch_dim number tensor g n

  -- The guards that can be computed, with the sources that each computation read, in their order, and
  -- whether it repeated lines on its way. A list of guards stands for several computations.
  pub data Derived : List (PrivacyGuard F T) → List (PrivacyGuard F T) → Bool → Type 0 where
    nothing : Derived [] [] false
    besides :
        {g : PrivacyGuard F T} {gs ss ss' : List (PrivacyGuard F T)} {r r' : Bool}
        → Derived (g ∷ []) ss r
        → Derived gs ss' r'
        → Derived (g ∷ gs) (ss ++ ss') (r || r')
    source : (g : PrivacyGuard F T) → Derived (g ∷ []) (g ∷ []) false
    by_operation :
        {g h : PrivacyGuard F T} {ss : List (PrivacyGuard F T)} {r : Bool} (op : Operation D V C)
        → Derived (g ∷ []) ss r
        → perform op g ≡ ok h
        → Derived (h ∷ []) ss (is_expansion op || r)
    by_sum :
        {g g' h : PrivacyGuard F T} {ss : List (PrivacyGuard F T)} {r : Bool}
        → Derived (g ∷ g' ∷ []) ss r
        → f_add number tensor g g' ≡ ok h
        → Derived (h ∷ []) ss r
    by_difference :
        {g g' h : PrivacyGuard F T} {ss : List (PrivacyGuard F T)} {r : Bool}
        → Derived (g ∷ g' ∷ []) ss r
        → f_sub number tensor g g' ≡ ok h
        → Derived (h ∷ []) ss r
    by_loss :
        {g g' h h' : PrivacyGuard F T} {ss : List (PrivacyGuard F T)} {r : Bool}
        (operation : T → T → Outcome TchError T) (clipping : D × D)
        → Derived (g ∷ g' ∷ []) ss r
        → defer_loss number tensor operation g g' clipping ≡ ok (h, h')
        → Derived (h ∷ []) ss r
    by_clipped_loss :
        {g g' h h' : PrivacyGuard F T} {ss : List (PrivacyGuard F T)} {r : Bool}
        (operation : T → T → Outcome TchError T) (clipping : D × D)
        → Derived (g ∷ g' ∷ []) ss r
        → defer_loss number tensor operation g g' clipping ≡ ok (h, h')
        → Derived (h' ∷ []) ss r
    by_model :
        {g h : PrivacyGuard F T} {gs ss : List (PrivacyGuard F T)} {r : Bool}
        (forward_inner : List T → Outcome TchError T)
        → Derived (g ∷ gs) ss r
        → apply_forward forward_inner (g ∷ gs) ≡ ok h
        → Derived (h ∷ []) ss r

-- The batches of a source are among `bs`, and it has not lost count of them.
abbrev pub IsPartOf : List ℕ → BatchDependence → Type 0
IsPartOf bs dependent = ⊥
IsPartOf bs (independent batches) = All (λ x. contains bs x ≡ true) batches

abbrev pub names : ℕ → BatchDependence → Bool
names x dependent = false
names x (independent batches) = contains batches x

abbrev pub HasDistinct : BatchDependence → Type 0
HasDistinct dependent = Unit {0}
HasDistinct (independent batches) = IsDistinct batches

module _ {F T : Type 0} where
  abbrev pub some_names : ℕ → List (PrivacyGuard F T) → Bool
  some_names x [] = false
  some_names x (s ∷ ss) = names x s.batch_dependence || some_names x ss

  -- What counts as independent is so: no lines were repeated, and it lists the batches of each of its
  -- sources.
  abbrev pub Counts : BatchDependence → List (PrivacyGuard F T) → Bool → Type 0
  Counts dependent ss r = Unit {0}
  Counts (independent bs) ss r =
      (r ≡ false) × All (λ (s : PrivacyGuard F T). IsPartOf bs s.batch_dependence) ss

  -- It lists no other batches, and none twice unless a source does.
  abbrev pub Lists : BatchDependence → List (PrivacyGuard F T) → Type 0
  Lists dependent ss = Unit {0}
  Lists (independent bs) ss =
      ((x : ℕ) → contains bs x ≡ true → some_names x ss ≡ true)
      × (All (λ (s : PrivacyGuard F T). HasDistinct s.batch_dependence) ss → IsDistinct bs)

  pub record IsTraced (g : PrivacyGuard F T) (ss : List (PrivacyGuard F T)) (r : Bool)
      : Type 0 where
    pub in_context : All (λ (s : PrivacyGuard F T). s.context ≡ g.context) ss
    pub counts : Counts g.batch_dependence ss r
    pub lists : Lists g.batch_dependence ss
