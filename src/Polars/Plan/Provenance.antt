-- ===== src/Polars/Plan/Provenance.antt =====
-- Where the statistics of a plan come from: no uploaded frame that goes into it is lost.
use bastionlab.Prelude.{
  ℕ, ◌+◌, String, ◌≡◌, ap, ◌∙◌, inl, inr, Bool, true, false, ◌||◌, Option, none, some, List, [],
  ◌∷◌, arith, length, ok, err, panic, Outcome-cases, nat_eq, string_eq, list_eq, paired, lookup,
}
use bastionlab.Common.Status.{Fallible}
use bastionlab.Common.Action.{Action, pure, lift, ◌>>=◌, ◌>>◌, >>=-eq-ok}
use bastionlab.Polars.AccessControl.{StatsEntry, usize_max}
use bastionlab.Polars.AggCheck.{Expr, exprs_agg_check}
use bastionlab.Polars.Stats.{DataFrameStats, update_agg_size, update_join_scaling, merge}
use bastionlab.Polars.Stats.Merge.{lookup-merge, lookup-update_agg_size, lookup-update_join_scaling}
use bastionlab.Polars.Plan.{
  JoinType, left, inner, outer, cross, as_of, anti, semi, LogicalPlan, data_frame_scan,
  pass_through, projection, local_projection, aggregate, join, unsupported, Engine, visit_mut,
  StackFrame, Stacks, usize_item, scale_join, scale_both, scale_if, plan_step, take_stats,
  initialize_plan,
}

abbrev is_entry : Option StatsEntry → Bool
is_entry none = false
is_entry (some entry) = true

-- Whether a table has an entry for a frame.
unfoldable pub has : String → DataFrameStats → Bool
has k stats = is_entry (lookup k stats)

abbrev pub in_tables : String → List DataFrameStats → Bool
in_tables k [] = false
in_tables k (t ∷ ts) = has k t || in_tables k ts

-- Whether some frame of the stack comes from the uploaded frame `k`.
abbrev pub in_frames {ℓ} : {D : Type ℓ} → String → List (StackFrame D) → Bool
in_frames k [] = false
in_frames k (frame ∷ rest) = has k frame.stats || in_frames k rest

abbrev pub known {ℓ} : {D : Type ℓ} → String → Stacks D → Bool
known k s = in_frames k s.main || in_tables k s.stats

pub has-merge : (k : String) (a b : DataFrameStats) → has k (merge a b) ≡ (has k a || has k b)
unfolding has
has-merge k a b = ground (arith, lookup-merge k a b)

pub has-update_agg_size :
    (k : String) (n : ℕ) (stats : DataFrameStats) → has k (update_agg_size n stats) ≡ has k stats
unfolding has
has-update_agg_size k n stats = ground (arith, lookup-update_agg_size k n stats)

pub has-update_join_scaling :
    (k : String) (n : ℕ) (stats : DataFrameStats)
    → has k (update_join_scaling n stats) ≡ has k stats
unfolding has
has-update_join_scaling k n stats = ground (arith, lookup-update_join_scaling k n stats)

module _ {ℓ} {D : Type ℓ} where
  -- An action that takes `pops` tables and leaves `pushes` in their place, and loses no frame.
  pub record Moves {κ} {A : Type κ} (k : String) (pops pushes : ℕ) (m : Action (Stacks D) A)
      : Type (ℓ ⊔ κ) where
    pub moved :
        (s : Stacks D) {a : A} {s' : Stacks D}
        → m s ≡ (ok a, s')
        → (known k s' ≡ known k s) × (length s'.stats + pops ≡ length s.stats + pushes)

  Moves-bind {κ μ} :
      {A : Type κ} {B : Type μ} {k : String} {p q p' q' : ℕ} {m : Action (Stacks D) A}
      {f : A → Action (Stacks D) B}
      → Moves k p q m
      → ((a : A) → Moves k p' q' (f a))
      → Moves k (p + p') (q + q') (m >>= f)
  Moves-bind {m} {f} first second = record {
    moved = λ s h.
        let (a, t, e, e') = >>=-eq-ok m f s h in
        let (same, size) = first.moved s e in
        let (same', size') = (second a).moved t e' in (same' ∙ same, omega arith);
  }

  Moves-cancel {κ} :
      {A : Type κ} {k : String} {m : Action (Stacks D) A} → Moves k 2 3 m → Moves k 0 1 m
  Moves-cancel net = record {
    moved = λ s h. let (same, size) = net.moved s h in (same, omega arith);
  }

  Moves-pure {κ} : {A : Type κ} {k : String} (a : A) → Moves k 0 0 (pure a)
  Moves-pure a = record { moved = λ s h. ground arith }

  lift-Moves {κ} : {A : Type κ} {k : String} (r : Fallible A) → Moves k 0 0 (lift r)
  lift-Moves r = record { moved = λ s h. ground arith }

  module _ (engine : Engine D) (k : String) (fuel : ℕ) where
    has-scale_both :
        (x y : Fallible ℕ) (lefts rights lefts' rights' : DataFrameStats)
        → scale_both x y (lefts, rights) ≡ ok (lefts', rights')
        → (has k lefts' ≡ has k lefts) × (has k rights' ≡ has k rights)
    has-scale_both (ok n) (ok m) lefts rights lefts' rights' h =
        ground (arith, has-update_join_scaling k n lefts, has-update_join_scaling k m rights)
    has-scale_both (ok n) (err e) lefts rights lefts' rights' h = cc
    has-scale_both (ok n) panic lefts rights lefts' rights' h = cc
    has-scale_both (err e) y lefts rights lefts' rights' h = cc
    has-scale_both panic y lefts rights lefts' rights' h = cc

    has-scale_join :
        (l r : LogicalPlan D) (left_on right_on : List Expr) (how : JoinType)
        (lefts rights lefts' rights' : DataFrameStats)
        → scale_join engine l r left_on right_on how (lefts, rights) ≡ ok (lefts', rights')
        → (has k lefts' ≡ has k lefts) × (has k rights' ≡ has k rights)
    unfolding scale_join
    has-scale_join l r left_on right_on anti lefts rights lefts' rights' h =
        ground (arith, has-update_join_scaling k 0 rights)
    has-scale_join l r left_on right_on semi lefts rights lefts' rights' h =
        ground (arith, has-update_join_scaling k 0 rights)
    has-scale_join l r left_on right_on left lefts rights lefts' rights' h =
        has-scale_both _ _ lefts rights lefts' rights' h
    has-scale_join l r left_on right_on inner lefts rights lefts' rights' h =
        has-scale_both _ _ lefts rights lefts' rights' h
    has-scale_join l r left_on right_on outer lefts rights lefts' rights' h =
        has-scale_both _ _ lefts rights lefts' rights' h
    has-scale_join l r left_on right_on cross lefts rights lefts' rights' h =
        has-scale_both _ _ lefts rights lefts' rights' h
    has-scale_join l r left_on right_on as_of lefts rights lefts' rights' h =
        has-scale_both _ _ lefts rights lefts' rights' h

    scale_if-Moves :
        (check : Fallible Bool) (n : ℕ) (plan : LogicalPlan D)
        → Moves k 0 0 (scale_if check n >> pure plan)
    scale_if-Moves check n plan = record { moved = λ s h. by_stats check s.main s.stats h }
      where
        by_stats :
            (check : Fallible Bool) (main : List (StackFrame D)) (stats : List DataFrameStats)
            {a : LogicalPlan D} {s' : Stacks D}
            → (scale_if check n >> pure plan) (record { main = main; stats = stats }) ≡ (ok a, s')
            → (in_frames k s'.main || in_tables k s'.stats ≡ in_frames k main || in_tables k stats)
              × (length s'.stats + 0 ≡ length stats + 0)
        by_stats (ok true) main [] h = cc
        by_stats (ok true) main (t ∷ ts) h = ground (arith, has-update_agg_size k n t)
        by_stats (ok false) main stats h = ground arith
        by_stats (err e) main stats h = cc
        by_stats panic main stats h = cc

    step_scan-Moves : (df : D) → Moves k 0 1 (plan_step engine fuel (data_frame_scan df))
    unfolding plan_step
    step_scan-Moves df = record { moved = λ s h. by_main s.main s.stats h }
      where
        by_main :
            (main : List (StackFrame D)) (stats : List DataFrameStats) {a : LogicalPlan D}
            {s' : Stacks D}
            → plan_step engine fuel (data_frame_scan df) (record { main = main; stats = stats })
              ≡ (ok a, s')
            → (in_frames k s'.main || in_tables k s'.stats ≡ in_frames k main || in_tables k stats)
              × (length s'.stats + 0 ≡ length stats + 1)
        by_main [] stats h = cc
        by_main (f ∷ rest) stats h = ground arith

    step_join-Moves :
        (l r : LogicalPlan D) (left_on right_on : List Expr) (how : JoinType)
        → Moves k 2 1 (plan_step engine fuel (join l r left_on right_on how))
    unfolding plan_step
    step_join-Moves l r left_on right_on how = record { moved = λ s h. by_stats s.main s.stats h }
      where
        by_stats :
            (main : List (StackFrame D)) (stats : List DataFrameStats) {a : LogicalPlan D}
            {s' : Stacks D}
            → plan_step engine fuel
                (join l r left_on right_on how)
                (record { main = main; stats = stats })
              ≡ (ok a, s')
            → (in_frames k s'.main || in_tables k s'.stats ≡ in_frames k main || in_tables k stats)
              × (length s'.stats + 2 ≡ length stats + 1)
        by_stats main [] h = cc
        by_stats main (t ∷ []) h = cc
        by_stats main (rights ∷ lefts ∷ ts) h =
            elim (Outcome-cases (scale_join engine l r left_on right_on how (lefts, rights))) [
              | inl ((lefts', rights'), e) ↦ ground (
                arith,
                has-merge k lefts' rights',
                has-scale_join l r left_on right_on how lefts rights lefts' rights' e,
              )
              | inr (inl (x, e)) ↦ ground arith
              | inr (inr e) ↦ ground arith
            ]

    step_aggregate-Moves :
        (input : LogicalPlan D) (keys aggs : List Expr)
        → Moves k 0 0 (plan_step engine fuel (aggregate input keys aggs))
    unfolding plan_step
    step_aggregate-Moves input keys aggs =
        Moves-bind (lift-Moves (usize_item (engine.min_group_size input keys)))
          (λ n. scale_if-Moves (exprs_agg_check fuel aggs) n (aggregate input keys aggs))

    -- The traversal of a plan leaves one table more.
    visit_mut-Moves : (plan : LogicalPlan D) → Moves k 0 1 (visit_mut (plan_step engine fuel) plan)
    unfolding visit_mut plan_step
    visit_mut-Moves (data_frame_scan df) = step_scan-Moves df
    visit_mut-Moves (pass_through op input) =
        Moves-bind (visit_mut-Moves input) (λ input'. Moves-pure (pass_through op input'))
    visit_mut-Moves (projection es input) =
        Moves-bind (visit_mut-Moves input)
          (λ input'. scale_if-Moves (exprs_agg_check fuel es) usize_max (projection es input'))
    visit_mut-Moves (local_projection es input) =
        Moves-bind (visit_mut-Moves input) (λ input'.
          scale_if-Moves (exprs_agg_check fuel es) usize_max (local_projection es input'))
    visit_mut-Moves (aggregate input keys aggs) =
        Moves-bind (visit_mut-Moves input) (λ input'. step_aggregate-Moves input' keys aggs)
    visit_mut-Moves (join l r left_on right_on how) = Moves-cancel (
        Moves-bind (visit_mut-Moves l)
          (λ l'. Moves-bind (visit_mut-Moves r) (λ r'. step_join-Moves l' r' left_on right_on how)))
    visit_mut-Moves (unsupported text) = record { moved = λ s h. ground arith }

    -- The frames that the plan's table knows, with those still on the stack, are the frames that the
    -- stack knew before: none is lost, and none is made up.
    pub in_frames-initialize_plan :
        (plan plan' : LogicalPlan D) (main main' : List (StackFrame D)) (stats : DataFrameStats)
        → initialize_plan engine fuel plan main ≡ (ok (plan', stats), main')
        → in_frames k main ≡ (has k stats || in_frames k main')
    unfolding initialize_plan
    in_frames-initialize_plan plan plan' main main' stats h =
        let start : Stacks D = record { main = main; stats = [] } in
        let (p, t, e, e') =
          >>=-eq-ok (visit_mut (plan_step engine fuel) plan) take_stats start
            (paired (ap (λ r. r.0) h)) in
        let (same, size) = (visit_mut-Moves plan).moved start e in
        one_table p t.main t.stats same (omega arith) e' (ap (λ r. r.1) h)
      where
        one_table :
            (p : LogicalPlan D) (kept : List (StackFrame D)) (tables : List DataFrameStats)
            {u : Stacks D}
            → (in_frames k kept || in_tables k tables) ≡ (in_frames k main || false)
            → length tables ≡ 1
            → take_stats p (record { main = kept; stats = tables }) ≡ (ok (plan', stats), u)
            → u.main ≡ main'
            → in_frames k main ≡ (has k stats || in_frames k main')
        one_table p kept [] same size e f = absurd (omega arith)
        one_table p kept (x ∷ []) same size e f = ground arith
        one_table p kept (x ∷ y ∷ ts) same size e f = absurd (omega arith)
