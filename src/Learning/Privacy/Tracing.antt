-- ===== src/Learning/Privacy/Tracing.antt =====
-- What the operations on guarded tensors pass on: the privacy context and the batches.
use bastionlab.Prelude.{
  ℕ, ◌≡◌, refl, sym, ap, subst, ◌⊎◌, inl, inr, Bool, true, false, ◌||◌, ◌&&◌, All, append-nil,
  eqb_iff, ==_iff, List, [], ◌∷◌, ◌++◌, map, eqb, Bool-cases, All-append, ok_injective, Outcome, ok,
  err, panic, ◌>>=◌, unwrap, ensure, >>=-eq-ok, ◌==◌, nat_eq, string_eq, list_eq,
}
use bastionlab.Learning.Bytes.{TchError}
use bastionlab.Learning.Numbers.{Floats, Tensors}
use bastionlab.Learning.Privacy.{Sensibility, l_infinity, BatchDependence, dependent, independent}
use bastionlab.Learning.Privacy.Guards.{PrivacyGuard}
use bastionlab.Learning.Privacy.Operations.{
  defer, apply_forward, batch_size, all_in_context, all_from_batch, is_same, expand_batch_dim,
  f_clone, f_to, f_view, f_abs, f_clamp, f_sum, f_argmax, f_add_scalar, f_sub_scalar, f_mul_scalar,
  dimension, repeats,
}
use bastionlab.Learning.Privacy.Binary.{defer_binary, f_add, f_sub, loss_bound, defer_loss}
use bastionlab.Learning.Privacy.Derivation.{
  Operation, clone, absolute, move_to, reshape, clip, total, best, shift_up, shift_down, stretch,
  expand, is_expansion, perform, Derived, nothing, besides, source, by_operation, by_sum,
  by_difference, by_loss, by_clipped_loss, by_model, HasDistinct, Counts, Lists, IsTraced,
}
use bastionlab.Learning.Privacy.Joining.{
  Counts-append, Lists-append, Counts-add, Lists-add, own_batches,
}

is_same_inv : (d e : BatchDependence) → is_same d e ≡ true → d ≡ e
unfolding is_same
is_same_inv dependent dependent h = refl
is_same_inv dependent (independent b) h = cc
is_same_inv (independent a) dependent h = cc
is_same_inv (independent a) (independent b) h = ap independent ((==_iff a b).0 h)

both : (a b : Bool) → (a && b) ≡ true → (a ≡ true) × (b ≡ true)
both true true h = (refl, refl)
both true false h = cc
both false b h = cc

or_false : (r : Bool) → (r || false) ≡ r
or_false true = refl
or_false false = refl

ensured : (b : Bool) (e : TchError) {done : Unit {0}} → ensure b e ≡ ok done → b ≡ true
ensured true e h = refl
ensured false e h = cc

module _ {F T : Type 0} where
  all_in_context_inv :
      (c : ℕ) (gs : List (PrivacyGuard F T)) (acc : Bool)
      → all_in_context c gs acc ≡ true
      → (acc ≡ true) × All (λ (g : PrivacyGuard F T). g.context ≡ c) gs
  unfolding all_in_context
  all_in_context_inv c [] acc h = (h, tt)
  all_in_context_inv c (g ∷ gs) acc h =
      let (first, later) = all_in_context_inv c gs (eqb g.context c && acc) h in
      let (same, before) = both _ acc first in (before, ((eqb_iff g.context c).0 same, later))

  all_from_batch_inv :
      (d : BatchDependence) (gs : List (PrivacyGuard F T)) (acc : Bool)
      → all_from_batch d gs acc ≡ true
      → (acc ≡ true) × All (λ (g : PrivacyGuard F T). g.batch_dependence ≡ d) gs
  unfolding all_from_batch
  all_from_batch_inv d [] acc h = (h, tt)
  all_from_batch_inv d (g ∷ gs) acc h =
      let (first, later) = all_from_batch_inv d gs (is_same g.batch_dependence d && acc) h in
      let (same, before) = both _ acc first in
      (before, (is_same_inv g.batch_dependence d same, later))

  in_other :
      (c c' : ℕ) (ss : List (PrivacyGuard F T))
      → c ≡ c'
      → All (λ (s : PrivacyGuard F T). s.context ≡ c) ss
      → All (λ (s : PrivacyGuard F T). s.context ≡ c') ss
  in_other c c' ss e = subst (λ (x : ℕ). All (λ (s : PrivacyGuard F T). s.context ≡ x) ss) e

  -- Several computations, each traced to its part of the sources.
  data TracedEach : List (PrivacyGuard F T) → List (PrivacyGuard F T) → Bool → Type 0 where
    none_left : TracedEach [] [] false
    traced :
        {g : PrivacyGuard F T} {gs ss ss' : List (PrivacyGuard F T)} {r r' : Bool}
        → IsTraced g ss r
        → TracedEach gs ss' r'
        → TracedEach (g ∷ gs) (ss ++ ss') (r || r')

  alone :
      {g : PrivacyGuard F T} {ss : List (PrivacyGuard F T)} {r : Bool}
      → IsTraced g ss r
      → TracedEach (g ∷ []) ss r
  alone {g} {ss} {r} t =
      subst (λ (x : List (PrivacyGuard F T)). TracedEach (g ∷ []) x r) (append-nil ss)
        (subst (λ (b : Bool). TracedEach (g ∷ []) (ss ++ []) b) (or_false r) (traced t none_left))

  only :
      {g : PrivacyGuard F T} {ss : List (PrivacyGuard F T)} {r : Bool}
      → TracedEach (g ∷ []) ss r
      → IsTraced g ss r
  only {g} (traced {ss = ss} {r = r} t none_left) =
      subst (λ (x : List (PrivacyGuard F T)). IsTraced g x (r || false)) (sym (append-nil ss))
        (subst (λ (b : Bool). IsTraced g ss b) (sym (or_false r)) t)

  -- Computations in one context, from one batch.
  together :
      {gs ss : List (PrivacyGuard F T)} {r : Bool} (c : ℕ) (d : BatchDependence)
      → TracedEach gs ss r
      → All (λ (g : PrivacyGuard F T). g.context ≡ c) gs
      → All (λ (g : PrivacyGuard F T). g.batch_dependence ≡ d) gs
      → All (λ (s : PrivacyGuard F T). s.context ≡ c) ss × Counts d ss r
  together c dependent none_left p q = (tt, tt)
  together c (independent bs) none_left p q = (tt, (refl, tt))
  together c d (traced {g = g} {ss = ss} {ss' = ss'} {r = r} {r' = r'} t ts) p q =
      let (later, counts) = together c d ts p.1 q.1 in
      (
        All-append (λ (s : PrivacyGuard F T). s.context ≡ c) ss ss'
            (in_other g.context c ss p.0 t.in_context) later,
        Counts-append d ss ss' r r' (subst (λ (x : BatchDependence). Counts x ss r) q.0 t.counts)
            counts,
      )

module _ {F D T R V C U : Type 0} (number : Floats F D) (tensor : Tensors T D R V C U) where
  defer-IsTraced :
      {g h : PrivacyGuard F T} {ss : List (PrivacyGuard F T)} {b : Bool} (r : Outcome TchError T)
      (s : Sensibility F)
      → IsTraced g ss b
      → defer g r s ≡ ok h
      → IsTraced h ss b
  unfolding defer
  defer-IsTraced {g} {h} {ss} {b} (ok v) s t e =
      subst (λ (x : PrivacyGuard F T). IsTraced x ss b) (ok_injective e)
        (record { in_context = t.in_context; counts = t.counts; lists = t.lists })
  defer-IsTraced (err x) s t e = cc
  defer-IsTraced panic s t e = cc

  perform-IsTraced :
      {g h : PrivacyGuard F T} {ss : List (PrivacyGuard F T)} {b : Bool} (op : Operation D V C)
      → IsTraced g ss b
      → perform number tensor op g ≡ ok h
      → IsTraced h ss (is_expansion op || b)
  unfolding perform f_clone f_abs f_to f_view f_clamp f_sum f_add_scalar f_sub_scalar f_mul_scalar
      f_argmax expand_batch_dim
  perform-IsTraced {g} clone t e = defer-IsTraced _ _ t e
  perform-IsTraced {g} absolute t e = defer-IsTraced _ _ t e
  perform-IsTraced {g} (move_to device) t e = defer-IsTraced _ _ t e
  perform-IsTraced {g} (reshape s) t e = defer-IsTraced _ _ t e
  perform-IsTraced {g} (clip lo hi) t e = defer-IsTraced _ _ t e
  perform-IsTraced {g} (total dtype) t e = defer-IsTraced _ _ t e
  perform-IsTraced {g} (best dim keepdim) t e =
      let (width, found, made) = >>=-eq-ok (unwrap (dimension dim (tensor.size g.value))) _ e in
      defer-IsTraced _ _ t made
  perform-IsTraced {g} (shift_up x) t e = defer-IsTraced _ _ t e
  perform-IsTraced {g} (shift_down x) t e = defer-IsTraced _ _ t e
  perform-IsTraced {g} (stretch x) t e = defer-IsTraced _ _ t e
  perform-IsTraced {g} {h} {ss} {b} (expand n) t e =
      let (times, sized, tiled) = >>=-eq-ok (repeats n (tensor.size g.value)) _ e in
      let (v, repeated, made) = >>=-eq-ok (tensor.repeated g.value times) _ tiled in
      subst (λ (x : PrivacyGuard F T). IsTraced x ss true) (ok_injective made)
        (record { in_context = t.in_context; counts = tt; lists = tt })

  both_contexts :
      (c c' : ℕ) (ss ss' : List (PrivacyGuard F T))
      → eqb c c' ≡ true
      → All (λ (s : PrivacyGuard F T). s.context ≡ c) ss
      → All (λ (s : PrivacyGuard F T). s.context ≡ c') ss'
      → All (λ (s : PrivacyGuard F T). s.context ≡ c) (ss ++ ss')
  both_contexts c c' ss ss' same p q =
      All-append (λ (s : PrivacyGuard F T). s.context ≡ c) ss ss' p
        (in_other c' c ss' (sym ((eqb_iff c c').0 same)) q)

  defer_binary-IsTraced :
      {g g' h : PrivacyGuard F T} {ss ss' : List (PrivacyGuard F T)} {b b' : Bool}
      (operation : T → T → Outcome TchError T)
      → IsTraced g ss b
      → IsTraced g' ss' b'
      → defer_binary number tensor operation g g' ≡ ok h
      → IsTraced h (ss ++ ss') (b || b')
  unfolding defer_binary
  defer_binary-IsTraced {g} {g'} {h} {ss} {ss'} {b} {b'} operation t t' e =
      let (shared, same, rest) = >>=-eq-ok (ensure (eqb g.context g'.context) _) _ e in
      let (v, computed, made) = >>=-eq-ok (operation g.value g'.value) _ rest in
      subst (λ (x : PrivacyGuard F T). IsTraced x (ss ++ ss') (b || b')) (ok_injective made)
        (record {
          in_context =
              both_contexts g.context g'.context ss ss' (ensured _ _ same) t.in_context
                t'.in_context;
          counts = Counts-add g.batch_dependence g'.batch_dependence ss ss' b b' t.counts t'.counts;
          lists = Lists-add g.batch_dependence g'.batch_dependence ss ss' t.lists t'.lists;
        })

  whole_batch :
      (lines : Outcome TchError ℕ) (max_norm : F) {r : BatchDependence × Sensibility F}
      → (lines >>= λ n. ok (dependent, l_infinity (number.mul (number.of_usize n) max_norm))) ≡ ok r
      → r.0 ≡ dependent
  whole_batch lines max_norm h =
      let (n, counted, made) = >>=-eq-ok lines _ h in
      ap (λ (x : BatchDependence × Sensibility F). x.0) (sym (ok_injective made))

  -- The loss of two tensors is dependent, or both have the same batches.
  loss_bound-cases :
      (d e : BatchDependence) (lines : Outcome TchError ℕ) (max_norm : F)
      {r : BatchDependence × Sensibility F}
      → loss_bound number tensor d e lines max_norm ≡ ok r
      → (r.0 ≡ dependent) ⊎ ((d ≡ r.0) × (e ≡ d))
  unfolding loss_bound
  loss_bound-cases (independent a) (independent b) lines max_norm h = elim (Bool-cases (a == b)) [
    | inl t ↦ inr (
      ap (λ (x : BatchDependence × Sensibility F). x.0) (ok_injective (rw t at h)),
      ap independent (sym ((==_iff a b).0 t)),
    )
    | inr f ↦ inl (whole_batch lines max_norm (rw f at h))
  ]
  loss_bound-cases (independent a) dependent lines max_norm h = inl (whole_batch lines max_norm h)
  loss_bound-cases dependent e lines max_norm h = inl (whole_batch lines max_norm h)

  loss-traced :
      (d e bound : BatchDependence) (ss ss' : List (PrivacyGuard F T)) (b b' : Bool)
      → (bound ≡ dependent) ⊎ ((d ≡ bound) × (e ≡ d))
      → Counts d ss b
      → Lists d ss
      → Counts e ss' b'
      → Counts bound (ss ++ ss') (b || b') × Lists bound (ss ++ ss')
  loss-traced d e bound ss ss' b b' (inl whole) p l q = rw whole (tt, tt)
  loss-traced d e bound ss ss' b b' (inr (kept, same)) p l q =
      subst (λ (x : BatchDependence). Counts x (ss ++ ss') (b || b') × Lists x (ss ++ ss')) kept
        (
          Counts-append d ss ss' b b' p (subst (λ (x : BatchDependence). Counts x ss' b') same q),
          Lists-append d ss ss' l,
        )

  defer_loss-IsTraced :
      {g g' h h' : PrivacyGuard F T} {ss ss' : List (PrivacyGuard F T)} {b b' : Bool}
      (operation : T → T → Outcome TchError T) (clipping : D × D)
      → IsTraced g ss b
      → IsTraced g' ss' b'
      → defer_loss number tensor operation g g' clipping ≡ ok (h, h')
      → IsTraced h (ss ++ ss') (b || b') × IsTraced h' (ss ++ ss') (b || b')
  unfolding defer_loss
  defer_loss-IsTraced {g} {g'} {h} {h'} {ss} {ss'} {b} {b'} operation clipping t t' e =
      let (shared, same, e1) = >>=-eq-ok (ensure (eqb g.context g'.context) _) _ e in
      let (unreduced, computed, e2) = >>=-eq-ok (operation g.value g'.value) _ e1 in
      let (clipped, bounded, e3) = >>=-eq-ok (tensor.clamp unreduced clipping.0 clipping.1) _ e2 in
      let (bound, found, e4) =
        >>=-eq-ok
          (loss_bound number tensor g.batch_dependence g'.batch_dependence
            (batch_size number tensor g) _)
          _ e3 in
      let (whole, summed, e5) = >>=-eq-ok (tensor.sum_lines unreduced) _ e4 in
      let (within, clip_summed, made) = >>=-eq-ok (tensor.sum_lines clipped) _ e5 in
      let shared_context =
        both_contexts g.context g'.context ss ss' (ensured _ _ same) t.in_context t'.in_context in
      let (counts, lists) =
        loss-traced g.batch_dependence g'.batch_dependence bound.0 ss ss' b b'
          (loss_bound-cases g.batch_dependence g'.batch_dependence _ _ found) t.counts t.lists
          t'.counts in
      subst
        (λ (r : PrivacyGuard F T × PrivacyGuard F T).
          IsTraced r.0 (ss ++ ss') (b || b') × IsTraced r.1 (ss ++ ss') (b || b'))
        (ok_injective made)
        (
          record { in_context = shared_context; counts = counts; lists = lists },
          record { in_context = shared_context; counts = counts; lists = lists },
        )

  apply_forward-IsTraced :
      {g h : PrivacyGuard F T} {gs ss ss' : List (PrivacyGuard F T)} {b b' : Bool}
      (forward_inner : List T → Outcome TchError T)
      → IsTraced g ss b
      → TracedEach gs ss' b'
      → apply_forward forward_inner (g ∷ gs) ≡ ok h
      → IsTraced h (ss ++ ss') (b || b')
  unfolding apply_forward
  apply_forward-IsTraced {g} {h} {gs} {ss} {ss'} {b} {b'} forward_inner t ts e =
      let (shared, same, e1) = >>=-eq-ok (ensure (all_in_context g.context gs true) _) _ e in
      let (alike, equal, e2) =
        >>=-eq-ok (ensure (all_from_batch g.batch_dependence gs true) _) _ e1 in
      let (v, computed, made) =
        >>=-eq-ok (forward_inner (map (λ (x : PrivacyGuard F T). x.value) (g ∷ gs))) _ e2 in
      let (contexts, counts) =
        together g.context g.batch_dependence ts
          (all_in_context_inv g.context gs true (ensured _ _ same)).1
          (all_from_batch_inv g.batch_dependence gs true (ensured _ _ equal)).1 in
      subst (λ (x : PrivacyGuard F T). IsTraced x (ss ++ ss') (b || b')) (ok_injective made)
        (record {
          in_context =
              All-append (λ (s : PrivacyGuard F T). s.context ≡ g.context) ss ss' t.in_context
                contexts;
          counts = Counts-append g.batch_dependence ss ss' b b' t.counts counts;
          lists = Lists-append g.batch_dependence ss ss' t.lists;
        })

  by_two :
      {g g' : PrivacyGuard F T} {h : PrivacyGuard F T} {us : List (PrivacyGuard F T)} {r : Bool}
      → TracedEach (g ∷ g' ∷ []) us r
      → ((ss ss' : List (PrivacyGuard F T)) (b b' : Bool)
          → IsTraced g ss b
          → IsTraced g' ss' b'
          → IsTraced h (ss ++ ss') (b || b'))
      → IsTraced h us r
  by_two (traced {ss = ss} {ss' = ss'} {r = b} {r' = b'} t ts) join = join ss ss' b b' t (only ts)

  by_each :
      {g h : PrivacyGuard F T} {gs us : List (PrivacyGuard F T)} {r : Bool}
      (forward_inner : List T → Outcome TchError T)
      → TracedEach (g ∷ gs) us r
      → apply_forward forward_inner (g ∷ gs) ≡ ok h
      → IsTraced h us r
  by_each forward_inner (traced t ts) e = apply_forward-IsTraced forward_inner t ts e

  source-IsTraced : (g : PrivacyGuard F T) → IsTraced g (g ∷ []) false
  source-IsTraced g =
      let (counts, lists) = own g.batch_dependence refl in
      record { in_context = (refl, tt); counts = counts; lists = lists }
    where
      own :
          (d : BatchDependence)
          → g.batch_dependence ≡ d
          → Counts d (g ∷ []) false × Lists d (g ∷ [])
      own dependent e = (tt, tt)
      own (independent bs) e = (
        (refl, (rw e (own_batches bs), tt)),
        (λ x h. rw e (rw h refl), λ p. subst HasDistinct e p.0),
      )

  Derived-TracedEach :
      {gs ss : List (PrivacyGuard F T)} {r : Bool}
      → Derived number tensor gs ss r
      → TracedEach gs ss r
  Derived-TracedEach nothing = none_left
  Derived-TracedEach (besides d ds) = traced (only (Derived-TracedEach d)) (Derived-TracedEach ds)
  Derived-TracedEach (source g) = alone (source-IsTraced g)
  Derived-TracedEach (by_operation op d e) =
      alone (perform-IsTraced op (only (Derived-TracedEach d)) e)
  Derived-TracedEach (by_sum d e) = alone (
      by_two (Derived-TracedEach d)
        (λ ss ss' b b' t t'. defer_binary-IsTraced tensor.add t t' (unfold f_add in e)))
  Derived-TracedEach (by_difference d e) = alone (
      by_two (Derived-TracedEach d)
        (λ ss ss' b b' t t'. defer_binary-IsTraced tensor.sub t t' (unfold f_sub in e)))
  Derived-TracedEach (by_loss operation clipping d e) = alone (
      by_two (Derived-TracedEach d)
        (λ ss ss' b b' t t'. (defer_loss-IsTraced operation clipping t t' e).0))
  Derived-TracedEach (by_clipped_loss operation clipping d e) = alone (
      by_two (Derived-TracedEach d)
        (λ ss ss' b b' t t'. (defer_loss-IsTraced operation clipping t t' e).1))
  Derived-TracedEach (by_model forward_inner d e) =
      alone (by_each forward_inner (Derived-TracedEach d) e)

  -- Whatever is computed by any of the operations, sums, losses and models, every source that it was
  -- computed from has its privacy context. Where it counts as independent, no lines were repeated on
  -- the way, no source counts as dependent, and its batches are those of its sources, all of them and
  -- no others; none is listed twice, if no source lists one twice.
  pub Derived-IsTraced :
      {g : PrivacyGuard F T} {ss : List (PrivacyGuard F T)} {r : Bool}
      → Derived number tensor (g ∷ []) ss r
      → IsTraced g ss r
  Derived-IsTraced d = only (Derived-TracedEach d)
