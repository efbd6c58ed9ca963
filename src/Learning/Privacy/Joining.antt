-- ===== src/Learning/Privacy/Joining.antt =====
-- The batches of several sources together.
use bastionlab.Prelude.{
  ℕ, ◌≡◌, refl, inl, inr, arith, Bool, true, false, ◌||◌, All, List, [], ◌∷◌, ◌++◌, Bool-cases,
  All-append, beq_refl, nat_eq, string_eq, list_eq, contains, contains-append,
}
use bastionlab.Learning.Privacy.{
  Sensibility, unknown, l2, l_infinity, BatchDependence, dependent, independent, independence_check,
}
use bastionlab.Learning.Privacy
use bastionlab.Learning.Privacy.Dependence.{AreDisjoint, independence_check_iff, AreDisjoint-sym}
use bastionlab.Learning.Privacy.Guards.{PrivacyGuard}
use bastionlab.Learning.Privacy.Derivation.{
  IsDistinct, IsPartOf, HasDistinct, some_names, Counts, Lists,
}

IsDistinct-append :
    (a b : List ℕ) → IsDistinct a → IsDistinct b → AreDisjoint b a → IsDistinct (a ++ b)
IsDistinct-append [] b da db apart = db
IsDistinct-append (x ∷ a) b da db apart =
    (rw (contains-append a b x, da.0, apart.0) refl, IsDistinct-append a b da.1 db apart.1)

apart : {r r' : Bool} → r ≡ false → r' ≡ false → (r || r') ≡ false
apart {r} {r'} e e' = rw (e, e') refl

IsPartOf-weaken :
    (bs bs' : List ℕ) (d : BatchDependence)
    → ((x : ℕ) → contains bs x ≡ true → contains bs' x ≡ true)
    → IsPartOf bs d
    → IsPartOf bs' d
IsPartOf-weaken bs bs' dependent more p = absurd p
IsPartOf-weaken bs bs' (independent batches) more p = every batches p
  where
    every : (xs : List ℕ) → All (λ x. contains bs x ≡ true) xs → All (λ x. contains bs' x ≡ true) xs
    every [] p = tt
    every (x ∷ xs) p = (more x p.0, every xs p.1)

contains-left : (a b : List ℕ) (x : ℕ) → contains a x ≡ true → contains (a ++ b) x ≡ true
contains-left a b x h = rw (contains-append a b x, h) refl

contains-right : (a b : List ℕ) (x : ℕ) → contains b x ≡ true → contains (a ++ b) x ≡ true
contains-right a b x h = rw (contains-append a b x, h) (ground arith)

module _ {F T : Type 0} where
  AllParts-weaken :
      (bs bs' : List ℕ) (ss : List (PrivacyGuard F T))
      → ((x : ℕ) → contains bs x ≡ true → contains bs' x ≡ true)
      → All (λ (s : PrivacyGuard F T). IsPartOf bs s.batch_dependence) ss
      → All (λ (s : PrivacyGuard F T). IsPartOf bs' s.batch_dependence) ss
  AllParts-weaken bs bs' [] more p = tt
  AllParts-weaken bs bs' (s ∷ ss) more p =
      (IsPartOf-weaken bs bs' s.batch_dependence more p.0, AllParts-weaken bs bs' ss more p.1)

  some_names-append :
      (x : ℕ) (ss ss' : List (PrivacyGuard F T))
      → some_names x (ss ++ ss') ≡ (some_names x ss || some_names x ss')
  some_names-append x [] ss' = refl
  some_names-append x (s ∷ ss) ss' = ground (arith, some_names-append x ss ss')

  pub All-split :
      (P : PrivacyGuard F T → Type 0) (ss ss' : List (PrivacyGuard F T))
      → All P (ss ++ ss')
      → All P ss × All P ss'
  All-split P [] ss' p = (tt, p)
  All-split P (s ∷ ss) ss' p = let (here, there) = All-split P ss ss' p.1 in ((p.0, here), there)

  pub Counts-append :
      (d : BatchDependence) (ss ss' : List (PrivacyGuard F T)) (r r' : Bool)
      → Counts d ss r
      → Counts d ss' r'
      → Counts d (ss ++ ss') (r || r')
  Counts-append dependent ss ss' r r' p q = tt
  Counts-append (independent bs) ss ss' r r' p q = (
    apart p.0 q.0,
    All-append (λ (s : PrivacyGuard F T). IsPartOf bs s.batch_dependence) ss ss' p.1 q.1,
  )

  pub Lists-append :
      (d : BatchDependence) (ss ss' : List (PrivacyGuard F T)) → Lists d ss → Lists d (ss ++ ss')
  Lists-append dependent ss ss' p = tt
  Lists-append (independent bs) ss ss' p = (
    λ x h. rw (some_names-append x ss ss', p.0 x h) refl,
    λ q. p.1 (All-split (λ (s : PrivacyGuard F T). HasDistinct s.batch_dependence) ss ss' q).0,
  )

  pub Counts-add :
      (d e : BatchDependence) (ss ss' : List (PrivacyGuard F T)) (r r' : Bool)
      → Counts d ss r
      → Counts e ss' r'
      → Counts (Privacy.add d e) (ss ++ ss') (r || r')
  unfolding Privacy.add
  Counts-add dependent e ss ss' r r' p q = tt
  Counts-add (independent a) dependent ss ss' r r' p q = tt
  Counts-add (independent a) (independent b) ss ss' r r' p q =
      elim (Bool-cases (independence_check a b)) [
        | inl t ↦ rw t (
          apart p.0 q.0,
          All-append (λ (s : PrivacyGuard F T). IsPartOf (a ++ b) s.batch_dependence) ss ss'
              (AllParts-weaken a (a ++ b) ss (contains-left a b) p.1)
              (AllParts-weaken b (a ++ b) ss' (contains-right a b) q.1),
        )
        | inr f ↦ rw f tt
      ]

  pub Lists-add :
      (d e : BatchDependence) (ss ss' : List (PrivacyGuard F T))
      → Lists d ss
      → Lists e ss'
      → Lists (Privacy.add d e) (ss ++ ss')
  unfolding Privacy.add
  Lists-add dependent e ss ss' p q = tt
  Lists-add (independent a) dependent ss ss' p q = tt
  Lists-add (independent a) (independent b) ss ss' p q =
      elim (Bool-cases (independence_check a b)) [
        | inl t ↦ rw t (
          λ x h. rw (some_names-append x ss ss') (either x (rw (contains-append a b x) at h)),
          λ own.
              let (here, there) =
                All-split (λ (s : PrivacyGuard F T). HasDistinct s.batch_dependence) ss ss' own in
              IsDistinct-append a b (p.1 here) (q.1 there)
                (AreDisjoint-sym a b ((independence_check_iff a b).0 t)),
        )
        | inr f ↦ rw f tt
      ]
    where
      either :
          (x : ℕ)
          → (contains a x || contains b x) ≡ true
          → (some_names x ss || some_names x ss') ≡ true
      either x h = elim (Bool-cases (contains a x)) [
        | inl found ↦ rw (p.0 x found) refl
        | inr missing ↦ rw (q.0 x (rw missing at h)) (ground arith)
      ]

pub own_batches : (bs : List ℕ) → All (λ x. contains bs x ≡ true) bs
own_batches [] = tt
own_batches (x ∷ bs) = (rw (beq_refl x, contains) refl, weaker bs (own_batches bs))
  where
    weaker :
        (xs : List ℕ)
        → All (λ y. contains bs y ≡ true) xs
        → All (λ y. contains (x ∷ bs) y ≡ true) xs
    weaker [] p = tt
    weaker (y ∷ ys) p = (ground (arith, p.0), weaker ys p.1)
