-- ===== src/Polars/AccessControl/Tests.antt =====
-- A policy that asks for ten rows, unless the user is the owner.
use bastionlab.Prelude.{◌≡◌, ◌↔◌, true, false, ok, nat_eq, string_eq, list_eq}
use bastionlab.Polars.AccessControl.{
  Context, Rule, at_least_n_of, user_id, aggregation, end, rule, RuleMatch, matched, verify_rule,
  review, reject, safe, Policy, verify, merge_policy,
}
use bastionlab.Polars.AccessControl.Rules.{allows, verify_rule-allows, merge_policy-safe_iff}

abbrev either : Rule
either = at_least_n_of 1 (rule (user_id "owner") (rule (aggregation 10) end))

abbrev context : Context
context = record {
  stats = record { agg_size = 30; join_scaling = 2 };
  user_id = "guest";
  df_identifier = "id";
}

verify_rule-allows_example :
    (m : RuleMatch) × (verify_rule either context ≡ ok m)
    × ((m ≡ matched) ↔ (allows either context ≡ true))
verify_rule-allows_example = verify_rule-allows either context

abbrev guarded : Policy
guarded = record { safe_zone = either; unsafe_handling = review; savable = true }

abbrev owned : Policy
owned = record { safe_zone = user_id "owner"; unsafe_handling = reject; savable = false }

merge_policy-safe_iff_example :
    (verify (merge_policy guarded owned) context ≡ ok safe)
    ↔ ((verify guarded context ≡ ok safe) × (verify owned context ≡ ok safe))
merge_policy-safe_iff_example = merge_policy-safe_iff guarded owned context
