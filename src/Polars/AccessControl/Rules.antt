-- ===== src/Polars/AccessControl/Rules.antt =====
-- When a rule matches: `verify_rule` against a reading of the rules with no loop and no message.
use bastionlab.Prelude.{
  ℕ, ◌+◌, ◌*◌, String, ◌≡◌, refl, subst, ◌↔◌, ◌⊎◌, inl, inr, Bool, true, false, ◌&&◌, not, arith,
  leb, Bool-cases, Outcome, ok, ◌==◌, nat_eq, string_eq, list_eq,
}
use native.Mathlib.Nat.{zero-add}
use bastionlab.Common.Status.{Status}
use bastionlab.Polars.AccessControl.{
  Rule, SubRules, at_least_n_of, user_id, aggregation, true_rule, false_rule, end, rule, Context,
  RuleMatch, matched, mismatch, verify_rule, verify_sub_rules, wrap, reason_agg, counted, noted,
  Policy, verify, merge_policy, safe, unsafe,
}

abbrev is_empty : SubRules → Bool
is_empty end = true
is_empty (rule r rs) = false

abbrev one_if : Bool → ℕ
one_if true = 1
one_if false = 0

-- Whether the rules allow the access that the context describes.
mutual
  pub allows : Rule → Context → Bool
  allows (at_least_n_of n rs) ctx = not (is_empty rs) && leb n (matching rs ctx)
  allows (user_id u) ctx = u == ctx.user_id
  allows (aggregation k) ctx = leb (wrap (k * ctx.stats.join_scaling)) ctx.stats.agg_size
  allows true_rule ctx = true
  allows false_rule ctx = false

  pub matching : SubRules → Context → ℕ
  matching end ctx = 0
  matching (rule r rs) ctx = one_if (allows r ctx) + matching rs ctx

abbrev is_match : RuleMatch → Bool
is_match matched = true
is_match (mismatch reason) = false

-- A rule's verdict: some match, which holds as `b` says.
abbrev Decides : Outcome Status RuleMatch → Bool → Type 0
Decides r b = (m : RuleMatch) × (r ≡ ok m) × (is_match m ≡ b)

matched_now :
    (n m k : ℕ) (res : RuleMatch) (b : Bool)
    → is_match res ≡ b
    → leb n (counted res m) ≡ true
    → true ≡ leb n (m + (one_if b + k))
matched_now n m k matched true d enough = ground arith
matched_now n m k matched false d enough = cc
matched_now n m k (mismatch reason) true d enough = cc
matched_now n m k (mismatch reason) false d enough = ground arith

-- The verdict of the rest of the loop is that of the whole, where the count does not suffice yet.
matched_later :
    (n m : ℕ) (rs : SubRules) (ctx : Context) (res : RuleMatch) (b verdict : Bool)
    → is_match res ≡ b
    → leb n (counted res m) ≡ false
    → verdict ≡ (not (is_empty rs) && leb n (counted res m + matching rs ctx))
    → verdict ≡ leb n (m + (one_if b + matching rs ctx))
unfolding allows
matched_later n m end ctx matched b verdict d few g = ground arith
matched_later n m end ctx (mismatch reason) b verdict d few g = ground arith
matched_later n m (rule r rs) ctx matched b verdict d few g = ground arith
matched_later n m (rule r rs) ctx (mismatch reason) b verdict d few g = ground arith

mutual
  unfolding verify_rule allows

  verify_rule-Decides : (r : Rule) (ctx : Context) → Decides (verify_rule r ctx) (allows r ctx)
  verify_rule-Decides (at_least_n_of n rs) ctx =
      subst (λ k. Decides (verify_sub_rules rs n ctx 0 0 "") (not (is_empty rs) && leb n k))
        (zero-add (matching rs ctx)) (verify_sub_rules-Decides rs n ctx 0 0 "")
  verify_rule-Decides (user_id u) ctx = elim (Bool-cases (u == ctx.user_id)) [
    | inl e ↦ (matched, rw e, rw e)
    | inr e ↦ (mismatch "UserId mismatch", rw e, rw e)
  ]
  verify_rule-Decides (aggregation k) ctx =
      elim (Bool-cases (leb (wrap (k * ctx.stats.join_scaling)) ctx.stats.agg_size)) [
        | inl e ↦ (matched, rw e, rw e)
        | inr e ↦ (
          mismatch (reason_agg (wrap (k * ctx.stats.join_scaling)) ctx.df_identifier),
          rw e,
          rw e,
        )
      ]
  verify_rule-Decides true_rule ctx = (matched, refl, refl)
  verify_rule-Decides false_rule ctx = (mismatch _, refl, refl)

  verify_sub_rules-Decides :
      (rs : SubRules) (n : ℕ) (ctx : Context) (i m : ℕ) (failed : String)
      → Decides
          (verify_sub_rules rs n ctx i m failed)
          (not (is_empty rs) && leb n (m + matching rs ctx))
  verify_sub_rules-Decides end n ctx i m failed = (mismatch _, refl, refl)
  verify_sub_rules-Decides (rule r rs) n ctx i m failed =
      let (res, e, d) = verify_rule-Decides r ctx in
      let (last, f, g) =
        verify_sub_rules-Decides rs n ctx (i + 1) (counted res m) (noted res i failed) in
      elim (Bool-cases (leb n (counted res m))) [
        | inl enough ↦ (
          matched,
          rw (e, verify_sub_rules) (rw enough),
          matched_now n m (matching rs ctx) res (allows r ctx) d enough,
        )
        | inr few ↦ (
          last,
          rw (e, verify_sub_rules) (rw (few, f)),
          matched_later n m rs ctx res (allows r ctx) (is_match last) d few g,
        )
      ]

-- Every rule is decided, with no error, and it matches exactly when it allows the access: an
-- `AtLeastNOf` when it has a sub-rule and at least `n` of its sub-rules do, an `Aggregation` when the
-- frame aggregates `min_agg_size` rows, scaled by the join factor as a machine word.
pub verify_rule-allows :
    (r : Rule) (ctx : Context)
    → (m : RuleMatch) × (verify_rule r ctx ≡ ok m) × ((m ≡ matched) ↔ (allows r ctx ≡ true))
verify_rule-allows r ctx =
    let (m, e, d) = verify_rule-Decides r ctx in (m, e, match_iff m (allows r ctx) d)
  where
    match_iff : (m : RuleMatch) (b : Bool) → is_match m ≡ b → (m ≡ matched) ↔ (b ≡ true)
    match_iff matched b d = ground arith
    match_iff (mismatch reason) b d = ground arith

verify_cases :
    (p : Policy) (ctx : Context)
    → ((allows p.safe_zone ctx ≡ true) × (verify p ctx ≡ ok safe))
      ⊎ ((allows p.safe_zone ctx ≡ false)
          × ((reason : String) × (verify p ctx ≡ ok (unsafe p.unsafe_handling reason))))
unfolding verify
verify_cases p ctx =
    let (m, e, d) = verify_rule-Decides p.safe_zone ctx in by_match m (allows p.safe_zone ctx) e d
  where
    by_match :
        (m : RuleMatch) (b : Bool)
        → verify_rule p.safe_zone ctx ≡ ok m
        → is_match m ≡ b
        → ((b ≡ true) × (verify p ctx ≡ ok safe))
          ⊎ ((b ≡ false)
              × ((reason : String) × (verify p ctx ≡ ok (unsafe p.unsafe_handling reason))))
    by_match matched b e d = inl (cc, rw (e, verify))
    by_match (mismatch reason) b e d = inr (cc, (reason, rw (e, verify)))

-- A policy is safe for an access exactly when its safe zone allows it; otherwise the result carries
-- the policy's own handling.
pub verify-safe_iff :
    (p : Policy) (ctx : Context) → (verify p ctx ≡ ok safe) ↔ (allows p.safe_zone ctx ≡ true)
verify-safe_iff p ctx = elim (verify_cases p ctx) [
  | inl (a, e) ↦ (λ _. a, λ _. e)
  | inr (a, (reason, e)) ↦ (λ h. cc, λ h. cc)
]

allows-merge_policy :
    (p q : Policy) (ctx : Context)
    → allows (merge_policy p q).safe_zone ctx ≡ (allows p.safe_zone ctx && allows q.safe_zone ctx)
unfolding merge_policy allows
allows-merge_policy p q ctx = ground arith

-- Two merged policies are safe for an access exactly when both are.
pub merge_policy-safe_iff :
    (p q : Policy) (ctx : Context)
    → (verify (merge_policy p q) ctx ≡ ok safe)
      ↔ ((verify p ctx ≡ ok safe) × (verify q ctx ≡ ok safe))
merge_policy-safe_iff p q ctx = ground (
  arith,
  allows-merge_policy p q ctx,
  verify-safe_iff (merge_policy p q) ctx,
  verify-safe_iff p ctx,
  verify-safe_iff q ctx,
)
