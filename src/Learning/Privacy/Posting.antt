-- ===== src/Learning/Privacy/Posting.antt =====
-- The calls that read guarded values post to the ledgers, and change nothing else in the contexts.
use bastionlab.Prelude.{
  ℕ, zero, suc, ◌≡◌, refl, ap, ◌∙◌, subst, inl, inr, Bool, true, false, List, [], ◌∷◌, arith, eqb,
  if◌then◌else◌, eqb_iff, Bool-cases, Outcome-cases, nat_eq, string_eq, list_eq,
}
use bastionlab.Learning.Numbers.{Floats, Tensors}
use bastionlab.Learning.Privacy.{
  PrivacyBudget, not_private, private_, PrivacyContext, compute_sigma, is_within, within_bounds,
  spend, update_budget,
}
use bastionlab.Learning.Privacy.Guards.{
  PrivacyGuard, World, write, spend_private, ensure_known, noise_rounds, generate_noise_like,
  l2_sensibility_of, get_private_with_std, get_private,
}
use bastionlab.Learning.Privacy.Ledger.{
  Query, of_tensor, of_marker, context_asked, is_ok, Fits, Allows, sum_of, charged, Posts, balanced,
  post, granted_to, ask, audit, Effect, grants, refuses,
}

module _ {F D T R V C U : Type 0} (number : Floats F D) (tensor : Tensors T D R V C U) where
  pub noise_rounds-contexts :
      (n : ℕ) (t : T) (std : D) (sum : T) (w : World F R)
      → (noise_rounds number tensor n t std sum w).1.contexts ≡ w.contexts
  unfolding noise_rounds
  noise_rounds-contexts zero t std sum w = refl
  noise_rounds-contexts (suc n) t std sum w =
      elim (Outcome-cases (tensor.normal (tensor.zeros_like t) std w.rng).0) [
        | inl (draw, e) ↦ rw e (
            noise_rounds-contexts n t std (tensor.add_ sum draw)
              (record w { rng = (tensor.normal (tensor.zeros_like t) std w.rng).1 }))
        | inr (inl (x, e)) ↦ rw e refl
        | inr (inr e) ↦ rw e refl
      ]

  pub generate_noise_like-contexts :
      (t : T) (std : D) (w : World F R)
      → (generate_noise_like number tensor t std w).1.contexts ≡ w.contexts
  unfolding generate_noise_like
  generate_noise_like-contexts t std w =
      ground (arith, noise_rounds-contexts 4 t std (tensor.zeros_like t) w)

  -- The program's account is the ledger's.
  spend-sum_of : (e b : PrivacyBudget F) → spend number e b ≡ sum_of number e b
  unfolding spend
  spend-sum_of not_private b = refl
  spend-sum_of (private_ e) not_private = refl
  spend-sum_of (private_ e) (private_ eps) = refl

  update_budget-charged :
      (c : PrivacyContext F) (b : PrivacyBudget F) → update_budget number c b ≡ charged number c b
  unfolding update_budget
  update_budget-charged c b =
      ap (λ (e : PrivacyBudget F). record c { expended = e }) (spend-sum_of c.expended b)

  is_within-Fits :
      (l e : PrivacyBudget F) (eps : F)
      → is_within number l e (private_ eps) ≡ true
      → Fits number l e (private_ eps)
  unfolding is_within
  is_within-Fits not_private e eps h = tt
  is_within-Fits (private_ l) not_private eps h = absurd (cc h)
  is_within-Fits (private_ l) (private_ e) eps h = h

  granted :
      (q : Query F T) (eps : F) (w w' : World F R)
      → within_bounds number (w.contexts (context_asked q)) (private_ eps) ≡ true
      → w'.contexts
        ≡ write w.contexts
            (context_asked q)
            (update_budget number (w.contexts (context_asked q)) (private_ eps))
      → Effect number tensor q (private_ eps) w w' true
  unfolding within_bounds
  granted q eps w w' enough e =
      let c = w.contexts (context_asked q) in
      grants (is_within-Fits c.limit c.expended eps enough)
        (e ∙ ap (write w.contexts (context_asked q)) (update_budget-charged c (private_ eps)))

  raw-Effect :
      (q : Query F T) (w : World F R)
      → Effect number tensor q not_private w
          (record w {
            contexts =
                write w.contexts
                  (context_asked q)
                  (record (w.contexts (context_asked q)) { expended = not_private });
          })
          true
  raw-Effect q w =
      let c = w.contexts (context_asked q) in
      grants tt (
        ap (λ (e : PrivacyBudget F). write w.contexts (context_asked q) (record c { expended = e }))
          (all_spent c.expended))
    where
      all_spent : (e : PrivacyBudget F) → not_private ≡ sum_of number e not_private
      all_spent not_private = refl
      all_spent (private_ e) = refl

  get_private-Effect :
      (g : PrivacyGuard F T) (b : PrivacyBudget F) (w : World F R)
      → Effect number tensor
          (of_tensor g)
          b
          w
          (get_private number tensor g b w).1
          (is_ok (get_private number tensor g b w).0)
  unfolding get_private get_private_with_std
  get_private-Effect g not_private w = raw-Effect (of_tensor g) w
  get_private-Effect g (private_ eps) w = elim (Outcome-cases (l2_sensibility_of number tensor g)) [
    | inr (inl (x, e)) ↦ rw e (refuses refl)
    | inr (inr e) ↦ rw e (refuses refl)
    | inl (s, e) ↦
        rw e (elim (Bool-cases (within_bounds number (w.contexts g.context) (private_ eps))) [
          | inr no_more ↦ rw no_more (refuses refl)
          | inl enough ↦ rw enough (
              let std = number.to_f64 (compute_sigma number eps (w.contexts g.context).delta s) in
              elim (Outcome-cases (generate_noise_like number tensor g.value std w).0) [
                | inr (inl (x, n)) ↦ rw n (refuses (generate_noise_like-contexts g.value std w))
                | inr (inr n) ↦ rw n (refuses (generate_noise_like-contexts g.value std w))
                | inl (noise, n) ↦ rw n (elim (Outcome-cases (tensor.add g.value noise)) [
                  | inr (inl (x, a)) ↦ rw a (refuses (generate_noise_like-contexts g.value std w))
                  | inr (inr a) ↦ rw a (refuses (generate_noise_like-contexts g.value std w))
                  | inl (res, a) ↦ rw a (
                      granted (of_tensor g) eps w _ enough (
                        ap
                          (λ (f : ℕ → PrivacyContext F).
                            write f g.context
                              (update_budget number (w.contexts g.context) (private_ eps)))
                          (generate_noise_like-contexts g.value std w)))
                ])
              ])
        ])
  ]

  spend_private-Effect :
      (g : PrivacyGuard F (Unit {0})) (b : PrivacyBudget F) (w : World F R)
      → Effect number tensor
          (of_marker g)
          b
          w
          (spend_private number g b w).1
          (is_ok (spend_private number g b w).0)
  unfolding spend_private
  spend_private-Effect g not_private w = raw-Effect (of_marker g) w
  spend_private-Effect g (private_ eps) w =
      elim (Outcome-cases (ensure_known number g.sensibility)) [
        | inr (inl (x, e)) ↦ rw e (refuses refl)
        | inr (inr e) ↦ rw e (refuses refl)
        | inl (known, e) ↦
            rw e (elim (Bool-cases (within_bounds number (w.contexts g.context) (private_ eps))) [
              | inr no_more ↦ rw no_more (refuses refl)
              | inl enough ↦ rw enough (granted (of_marker g) eps w _ enough refl)
            ])
      ]

  pub ask-Effect :
      (q : Query F T) (b : PrivacyBudget F) (w : World F R)
      → Effect number tensor q b w (ask number tensor q b w).1 (ask number tensor q b w).0
  unfolding ask
  ask-Effect (of_tensor g) b w = get_private-Effect g b w
  ask-Effect (of_marker g) b w = spend_private-Effect g b w

  credit :
      (x a : ℕ) (contexts : ℕ → PrivacyContext F) (b : PrivacyBudget F)
      (bs : List (PrivacyBudget F)) {c : PrivacyContext F}
      → Allows number (contexts x) b
      → Posts number (write contexts x (charged number (contexts x) b) a) bs c
      → Posts number (contexts a) (if eqb x a then b ∷ bs else bs) c
  unfolding write
  credit x a contexts b bs {c} allowed rest = elim (Bool-cases (eqb x a)) [
    | inl t ↦ rw t (
        subst (λ (y : ℕ). Posts number (contexts y) (b ∷ bs) c) ((eqb_iff x a).0 t)
          (post allowed (rw t at rest)))
    | inr f ↦ rw f (rw f at rest)
  ]

  -- One posting, or none, in the ledger of the context `a`.
  posted :
      (a : ℕ) (q : Query F T) (b : PrivacyBudget F) (w w' : World F R) (is_granted : Bool)
      (log : List (ℕ × PrivacyBudget F)) (c : PrivacyContext F)
      → Effect number tensor q b w w' is_granted
      → Posts number (w'.contexts a) (granted_to a log) c
      → Posts number
          (w.contexts a)
          (granted_to a (if is_granted then (context_asked q, b) ∷ log else log))
          c
  posted a q b w w' true log c (grants allowed e) rest =
      credit (context_asked q) a w.contexts b (granted_to a log) allowed
        (subst (λ (f : ℕ → PrivacyContext F). Posts number (f a) (granted_to a log) c) e rest)
  posted a q b w w' false log c (refuses e) rest =
      subst (λ (f : ℕ → PrivacyContext F). Posts number (f a) (granted_to a log) c) e rest

  -- Requests for guarded values, made one after another, refine a ledger: the expended budget of
  -- every context changes by exactly the budgets that were granted on it, in their order, each of
  -- which was within the bounds of the context when it was granted, or was a request without
  -- privacy; a refused request leaves every context as it was.
  pub audit-Posts :
      (requests : List (Query F T × PrivacyBudget F)) (w : World F R) (a : ℕ)
      → Posts number
          (w.contexts a)
          (granted_to a (audit number tensor requests w).0)
          ((audit number tensor requests w).1.contexts a)
  unfolding audit
  audit-Posts [] w a = balanced
  audit-Posts ((q, b) ∷ requests) w a =
      let w' = (ask number tensor q b w).1 in
      posted a q b w w' (ask number tensor q b w).0 (audit number tensor requests w').0
        ((audit number tensor requests w').1.contexts a) (ask-Effect q b w)
        (audit-Posts requests w' a)
