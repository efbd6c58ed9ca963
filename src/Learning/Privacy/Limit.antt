-- ===== src/Learning/Privacy/Limit.antt =====
-- The limit of a context, and what reads with a private budget and without one do to it.
use bastionlab.Prelude.{
  Outcome-cases, subst, ℕ, ◌≡◌, refl, ◌⊎◌, inl, inr, Bool, true, false, List, [], ◌∷◌, arith, eqb,
  eqb_iff, Bool-cases, All, ok, nat_eq, string_eq, list_eq,
}
use bastionlab.Learning.Numbers.{Floats, Tensors}
use bastionlab.Learning.Privacy.{
  PrivacyBudget, not_private, private_, PrivacyContext, is_within, within_bounds, new,
}
use bastionlab.Learning.Privacy.Guards.{
  PrivacyGuard, World, write, get_private, get_private_with_std,
}
use bastionlab.Learning.Privacy.Ledger.{
  Query, of_tensor, context_asked, Posts, balanced, post, granted_to, Fits, sum_of, ask, audit,
  Effect, grants, refuses,
}
use bastionlab.Learning.Privacy.Posting.{ask-Effect, audit-Posts}

abbrev pub IsPrivate : {F : Type 0} → PrivacyBudget F → Type 0
IsPrivate not_private = ⊥
IsPrivate (private_ eps) = Unit {0}

module _ {F D : Type 0} (number : Floats F D) where
  -- Nothing was spent, or less than the limit.
  abbrev pub IsBelow : PrivacyBudget F → PrivacyBudget F → Type 0
  IsBelow not_private expended = Unit {0}
  IsBelow (private_ l) not_private = ⊥
  IsBelow (private_ l) (private_ e) = (e ≡ number.literal 0 0) ⊎ (number.lt e l ≡ true)

  -- Addition of floating-point numbers is commutative.
  abbrev pub AddCommutes : Type 0
  AddCommutes = (x y : F) → number.add x y ≡ number.add y x

  Fits-IsBelow :
      (l e b : PrivacyBudget F)
      → AddCommutes
      → IsPrivate b
      → Fits number l e b
      → IsBelow l (sum_of number e b)
  Fits-IsBelow not_private e b comm p h = tt
  Fits-IsBelow (private_ l) e not_private comm p h = absurd p
  Fits-IsBelow (private_ l) not_private (private_ eps) comm p h = absurd h
  Fits-IsBelow (private_ l) (private_ e) (private_ eps) comm p h = inr (rw (comm e eps) h)

  Fits-is_within :
      (l e : PrivacyBudget F) (eps : F)
      → Fits number l e (private_ eps)
      → is_within number l e (private_ eps) ≡ true
  unfolding is_within
  Fits-is_within not_private e eps h = refl
  Fits-is_within (private_ l) not_private eps h = absurd h
  Fits-is_within (private_ l) (private_ e) eps h = h

  abbrev pub KeepsLimit : PrivacyContext F → PrivacyContext F → Type 0
  KeepsLimit c c' = (c'.limit ≡ c.limit) × IsBelow c'.limit c'.expended

  Posts-KeepsLimit :
      {c c' : PrivacyContext F} {bs : List (PrivacyBudget F)}
      → AddCommutes
      → Posts number c bs c'
      → All IsPrivate bs
      → IsBelow c.limit c.expended
      → KeepsLimit c c'
  Posts-KeepsLimit comm balanced p h = (refl, h)
  Posts-KeepsLimit {c} comm (post {b = not_private} allowed rest) p h = elim p.0 [ ]
  Posts-KeepsLimit {c} comm (post {b = private_ eps} allowed rest) p h =
      Posts-KeepsLimit comm rest p.1
        (Fits-IsBelow c.limit c.expended (private_ eps) comm p.0 allowed)

  pub new-IsBelow :
      (limit : PrivacyBudget F) (nb_samples : ℕ)
      → IsBelow (new number limit nb_samples).limit (new number limit nb_samples).expended
  unfolding new
  new-IsBelow not_private n = tt
  new-IsBelow (private_ l) n = inl refl

module _ {F D T R V C U : Type 0} (number : Floats F D) (tensor : Tensors T D R V C U) where
  granted-IsPrivate :
      (requests : List (Query F T × PrivacyBudget F)) (w : World F R) (a : ℕ)
      → All (λ r. IsPrivate r.1) requests
      → All IsPrivate (granted_to a (audit number tensor requests w).0)
  unfolding audit
  granted-IsPrivate [] w a p = tt
  granted-IsPrivate ((q, b) ∷ requests) w a p =
      let rest = granted-IsPrivate requests (ask number tensor q b w).1 a p.1 in
      elim (Bool-cases (ask number tensor q b w).0) [
        | inr no_grant ↦ rw no_grant rest
        | inl grant ↦ rw grant (elim (Bool-cases (eqb (context_asked q) a)) [
          | inl here ↦ rw here (p.0, rest)
          | inr there ↦ rw there rest
        ])
      ]

  -- However many requests with private budgets are made, through whichever guards of a context, in
  -- whichever order and with whichever outcomes, the context keeps its limit, and what it counts as
  -- spent stays below that limit (or is still zero), if it was so before. The addition of
  -- floating-point numbers is assumed to be commutative.
  pub audit-KeepsLimit :
      (requests : List (Query F T × PrivacyBudget F)) (w : World F R) (a : ℕ)
      → AddCommutes number
      → All (λ r. IsPrivate r.1) requests
      → IsBelow number (w.contexts a).limit (w.contexts a).expended
      → KeepsLimit number (w.contexts a) ((audit number tensor requests w).1.contexts a)
  audit-KeepsLimit requests w a comm p h =
      Posts-KeepsLimit number comm (audit-Posts number tensor requests w a)
        (granted-IsPrivate requests w a p) h

  get_private-state :
      (g : PrivacyGuard F T) (b : PrivacyBudget F) (w : World F R)
      → (get_private number tensor g b w).1 ≡ (get_private_with_std number tensor g b w).1
  unfolding get_private
  get_private-state g b w = elim (Outcome-cases (get_private_with_std number tensor g b w).0) [
    | inl (r, e) ↦ rw e refl
    | inr (inl (x, e)) ↦ rw e refl
    | inr (inr e) ↦ rw e refl
  ]

  pub get_private_with_std-KeepsLimit :
      (g : PrivacyGuard F T) (eps : F) (w : World F R) (a : ℕ)
      → AddCommutes number
      → IsBelow number (w.contexts a).limit (w.contexts a).expended
      → KeepsLimit number
          (w.contexts a)
          ((get_private_with_std number tensor g (private_ eps) w).1.contexts a)
  unfolding audit ask
  get_private_with_std-KeepsLimit g eps w a comm h =
      subst (λ (w' : World F R). KeepsLimit number (w.contexts a) (w'.contexts a))
        (get_private-state g (private_ eps) w)
        (audit-KeepsLimit ((of_tensor g, private_ eps) ∷ []) w a comm (tt, tt) h)

  Effect-refused :
      (q : Query F T) (eps : F) (w w' : World F R) (is_granted : Bool)
      → Effect number tensor q (private_ eps) w w' is_granted
      → within_bounds number (w.contexts (context_asked q)) (private_ eps) ≡ false
      → (is_granted ≡ false) × (w'.contexts ≡ w.contexts)
  unfolding within_bounds
  Effect-refused q eps w w' true (grants allowed e) h =
      let c = w.contexts (context_asked q) in
      let within = Fits-is_within number c.limit c.expended eps allowed in cc
  Effect-refused q eps w w' false (refuses e) h = (refl, e)

  -- The world that a read without privacy leaves.
  abbrev pub after_raw : PrivacyGuard F T → World F R → World F R
  after_raw g w = (get_private_with_std number tensor g not_private w).1

  after_raw-contexts :
      (g : PrivacyGuard F T) (w : World F R)
      → (after_raw g w).contexts g.context
        ≡ record (w.contexts g.context) { expended = not_private }
  unfolding get_private_with_std write
  after_raw-contexts g w = ground (arith, (eqb_iff g.context g.context).1 refl)

  -- A read with the budget `NotPrivate` returns the guarded value itself, with a deviation of zero,
  -- whatever limit the context has; where the context has a private limit, every later request
  -- with a private budget, through any guard of the context, is then refused and changes no context.
  pub raw-refuses_later :
      (g : PrivacyGuard F T) (w : World F R) (l eps : F) (q : Query F T)
      → context_asked q ≡ g.context
      → (w.contexts g.context).limit ≡ private_ l
      → ((get_private_with_std number tensor g not_private w).0 ≡ ok (g.value, number.literal 0 0))
        × ((ask number tensor q (private_ eps) (after_raw g w)).0 ≡ false)
        × ((ask number tensor q (private_ eps) (after_raw g w)).1.contexts
            ≡ (after_raw g w).contexts)
  unfolding get_private_with_std within_bounds is_within
  raw-refuses_later g w l eps q same limited =
      let w' = after_raw g w in
      let (denied, kept) =
        Effect-refused q eps w' (ask number tensor q (private_ eps) w').1
          (ask number tensor q (private_ eps) w').0 (ask-Effect number tensor q (private_ eps) w')
          (rw (same, after_raw-contexts g w, limited) refl) in
      (refl, denied, kept)
