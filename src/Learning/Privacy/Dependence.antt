-- ===== src/Learning/Privacy/Dependence.antt =====
-- The sum of two dependences: a check for common batches, and the order of the operands.
use bastionlab.Prelude.{
  ℕ, ◌≡◌, refl, sym, ap, subst, ◌↔◌, inl, inr, true, false, ◌&&◌, not, Option, none, some, List, [],
  ◌∷◌, ◌++◌, append_assoc, arith, Bool-cases, All, ◌==◌, ==_iff, contains, nat_eq, string_eq,
  list_eq, contains-append,
}
use mathlib.Core.List.{perm_append_comm}
use mathlib.Core.Quot.{sound}
use mathlib.Mathlib.Data.Multiset.Defs.{Multiset, of_list}
use bastionlab.Learning.Privacy.{
  BatchDependence, dependent, independent, independent_so_far, independence_check,
}
use bastionlab.Learning.Privacy

-- No element of `b` is in `a`.
abbrev pub AreDisjoint : List ℕ → List ℕ → Type 0
AreDisjoint a b = All (λ x. contains a x ≡ false) b

independent_so_far-false : (a b : List ℕ) → independent_so_far a b false ≡ false
unfolding independent_so_far
independent_so_far-false a [] = refl
independent_so_far-false a (x ∷ b) = independent_so_far-false a b

pub independence_check_iff : (a b : List ℕ) → (independence_check a b ≡ true) ↔ AreDisjoint a b
unfolding independence_check independent_so_far
independence_check_iff a [] = (λ _. tt, λ _. refl)
independence_check_iff a (x ∷ b) = elim (Bool-cases (contains a x)) [
  | inl common ↦ rw (common, independent_so_far-false a b) (λ h. cc, λ h. cc)
  | inr apart ↦
      rw apart
        (λ h. (refl, (independence_check_iff a b).0 h), λ h. (independence_check_iff a b).1 h.1)
]

check-cons :
    (a : List ℕ) (x : ℕ) (b : List ℕ)
    → independence_check a (x ∷ b) ≡ (not (contains a x) && independence_check a b)
unfolding independence_check independent_so_far
check-cons a x b = elim (Bool-cases (contains a x)) [
  | inl common ↦ rw (common, independent_so_far-false a b) refl
  | inr apart ↦ rw apart refl
]

check-append_left :
    (a b c : List ℕ)
    → independence_check (a ++ b) c ≡ (independence_check a c && independence_check b c)
check-append_left a b [] = unfold independence_check independent_so_far in refl
check-append_left a b (x ∷ c) = ground (
  arith,
  check-cons (a ++ b) x c,
  check-cons a x c,
  check-cons b x c,
  contains-append a b x,
  check-append_left a b c,
)

check-append_right :
    (a b c : List ℕ)
    → independence_check a (b ++ c) ≡ (independence_check a b && independence_check a c)
check-append_right a [] c = unfold independence_check independent_so_far in refl
check-append_right a (x ∷ b) c =
    ground (arith, check-cons a x (b ++ c), check-cons a x b, check-append_right a b c)

-- The sum of dependences is associative, order of the batches included.
pub add_assoc :
    (d e f : BatchDependence) → Privacy.add (Privacy.add d e) f ≡ Privacy.add d (Privacy.add e f)
unfolding Privacy.add
add_assoc dependent e f = refl
add_assoc (independent a) dependent f = refl
add_assoc (independent a) (independent b) dependent = ground arith
add_assoc (independent a) (independent b) (independent c) =
    ground (arith, check-append_left a b c, check-append_right a b c, append_assoc a b c)

common_at : (a b : List ℕ) (x : ℕ) → AreDisjoint a b → contains b x ≡ true → contains a x ≡ false
common_at a [] x h m = cc
common_at a (y ∷ b) x h m = elim (Bool-cases (y == x)) [
  | inl e ↦ subst (λ (z : ℕ). contains a z ≡ false) ((==_iff y x).0 e) h.0
  | inr e ↦ common_at a b x h.1 (rw (e, contains) at m)
]

apart_everywhere :
    (a b : List ℕ) → ((x : ℕ) → contains b x ≡ true → contains a x ≡ false) → AreDisjoint a b
apart_everywhere a [] f = tt
apart_everywhere a (x ∷ b) f = (
  f x (rw ((==_iff x x).1 refl, contains) refl),
  apart_everywhere a b (λ y h. f y (ground arith)),
)

pub AreDisjoint-sym : (a b : List ℕ) → AreDisjoint a b → AreDisjoint b a
AreDisjoint-sym a b h = apart_everywhere b a (λ x m. elim (Bool-cases (contains b x)) [
  | inl both ↦ cc (common_at a b x h both)
  | inr apart ↦ apart
])

check_sym : (a b : List ℕ) → independence_check a b ≡ independence_check b a
check_sym a b = elim (Bool-cases (independence_check a b)) [
  | inl t ↦ rw t (
      sym ((independence_check_iff b a).1 (AreDisjoint-sym a b ((independence_check_iff a b).0 t))))
  | inr f ↦ elim (Bool-cases (independence_check b a)) [
    | inl t ↦
        cc ((independence_check_iff a b).1 (AreDisjoint-sym b a ((independence_check_iff b a).0 t)))
    | inr g ↦ rw (f, g) refl
  ]
]

-- The batches of a dependence, whatever their order.
abbrev pub batches : BatchDependence → Option (Multiset ℕ)
batches dependent = none
batches (independent a) = some (of_list a)

add_comm : (d e : BatchDependence) → batches (Privacy.add d e) ≡ batches (Privacy.add e d)
unfolding Privacy.add
add_comm dependent dependent = refl
add_comm dependent (independent b) = refl
add_comm (independent a) dependent = refl
add_comm (independent a) (independent b) = elim (Bool-cases (independence_check a b)) [
  | inl t ↦ rw (t, ← check_sym a b, t) (ap some (sound (perm_append_comm a b)))
  | inr f ↦ rw (f, ← check_sym a b, f) refl
]

independent_injective : {a b : List ℕ} → independent a ≡ independent b → a ≡ b
independent_injective h = cc

add-independent :
    (d e : BatchDependence) (c : List ℕ)
    → Privacy.add d e ≡ independent c
    → (a : List ℕ) × (b : List ℕ) × (d ≡ independent a)
      × (e ≡ independent b)
      × AreDisjoint a b
      × (c ≡ a ++ b)
unfolding Privacy.add
add-independent dependent e c h = cc
add-independent (independent a) dependent c h = cc
add-independent (independent a) (independent b) c h = elim (Bool-cases (independence_check a b)) [
  | inl t ↦
      (a, b, refl, refl, (independence_check_iff a b).0 t, sym (independent_injective (rw t at h)))
  | inr f ↦ absurd (cc (rw f at h))
]

-- The sum of two dependences is independent exactly when both operands are and no batch is common
-- to them; it then has the batches of both. The order of the operands changes the order of the
-- batches at most, and sums of three may be bracketed either way.
pub add_laws :
    (d e f : BatchDependence) (c : List ℕ)
    → ((Privacy.add d e ≡ independent c) ↔ (
        (a : List ℕ) × (b : List ℕ) × (d ≡ independent a)
        × (e ≡ independent b)
        × AreDisjoint a b
        × (c ≡ a ++ b)))
      × (batches (Privacy.add d e) ≡ batches (Privacy.add e d))
      × (Privacy.add (Privacy.add d e) f ≡ Privacy.add d (Privacy.add e f))
add_laws d e f c = (
  (
    add-independent d e c,
    λ (a, b, p, q, apart, r).
        rw (p, q, r) (unfold Privacy.add in rw ((independence_check_iff a b).1 apart) refl),
  ),
  add_comm d e,
  add_assoc d e f,
)
