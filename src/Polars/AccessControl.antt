-- ===== src/Polars/AccessControl.antt =====
-- server/bastionlab_polars/src/access_control.rs: the data owner's policies.
pub mod Rules
pub mod Actions
mod Tests
use bastionlab.Prelude.{
  ◌>>=◌, ℕ, ◌+◌, ◌-◌, ◌*◌, ◌%◌, ◌^◌, String, Bool, true, false, ◌&&◌, not, [], ◌∷◌, leb,
  if◌then◌else◌, ok, ◌==◌, nat_eq, string_eq, list_eq, concat, decimal,
}
use bastionlab.Common.Status.{Status, Fallible}

-- `usize` products of the release build wrap.
abbrev pub wrap : ℕ → ℕ
wrap n = n % 2 ^ 64

abbrev pub usize_max : ℕ
usize_max = 2 ^ 64 - 1

-- composite_plan.rs: what is known of a frame with regard to one uploaded frame.
pub record StatsEntry : Type 0 where
  pub agg_size : ℕ
  pub join_scaling : ℕ

pub record Context : Type 0 where
  pub stats : StatsEntry
  pub user_id : String
  pub df_identifier : String

mutual
  pub data Rule : Type 0 where
    at_least_n_of : ℕ → SubRules → Rule
    user_id : String → Rule
    aggregation : ℕ → Rule
    true_rule : Rule
    false_rule : Rule

  -- The `Vec<Rule>` of a rule.
  pub data SubRules : Type 0 where
    end : SubRules
    rule : Rule → SubRules → SubRules

pub data RuleMatch : Type 0 where
  matched : RuleMatch
  mismatch : String → RuleMatch

abbrev reason_n_of : ℕ → ℕ → String → String
reason_n_of m n failed = concat (
    "Only "
    ∷ decimal m
    ∷ " subrules matched but at least "
    ∷ decimal n
    ∷ " are required.\nFailed sub rules are:"
    ∷ failed
    ∷ [])

abbrev reason_agg : ℕ → String → String
reason_agg size df = concat (
    "Cannot fetch a result DataFrame that does not aggregate at least "
    ∷ decimal size
    ∷ " rows of DataFrame "
    ∷ df
    ∷ "."
    ∷ [])

-- One round of the loop over the sub-rules: the count of matches and the reasons so far.
abbrev counted : RuleMatch → ℕ → ℕ
counted matched m = m + 1
counted (mismatch reason) m = m

abbrev noted : RuleMatch → ℕ → String → String
noted matched i failed = failed
noted (mismatch reason) i failed = concat (failed ∷ "\nRule #" ∷ decimal i ∷ ": " ∷ reason ∷ [])

unfoldable mutual
  -- `Rule::verify`
  pub verify_rule : Rule → Context → Fallible RuleMatch
  verify_rule (at_least_n_of n sub_rules) ctx = verify_sub_rules sub_rules n ctx 0 0 ""
  verify_rule (user_id expected) ctx =
      if expected == ctx.user_id then ok matched else ok (mismatch "UserId mismatch")
  verify_rule (aggregation min_agg_size) ctx =
      let min_allowed = wrap (min_agg_size * ctx.stats.join_scaling) in
      if leb min_allowed ctx.stats.agg_size
      then ok matched
      else ok (mismatch (reason_agg min_allowed ctx.df_identifier))
  verify_rule true_rule ctx = ok matched
  verify_rule false_rule ctx = ok (mismatch "Operation denied by the data owner's policy.")

  -- The loop of `AtLeastNOf` from sub-rule `i` on: `m` matched so far.
  pub verify_sub_rules : SubRules → ℕ → Context → ℕ → ℕ → String → Fallible RuleMatch
  verify_sub_rules end n ctx i m failed = ok (mismatch (reason_n_of m n failed))
  verify_sub_rules (rule r rs) n ctx i m failed = do
    res ← verify_rule r ctx
    let rest = verify_sub_rules rs n ctx (i + 1) (counted res m) (noted res i failed)
    if leb n (counted res m) then ok matched else rest

pub data UnsafeAction : Type 0 where
  log review reject : UnsafeAction

pub data VerificationResult : Type 0 where
  safe : VerificationResult
  unsafe : UnsafeAction → String → VerificationResult

pub record Policy : Type 0 where
  pub safe_zone : Rule
  pub unsafe_handling : UnsafeAction
  pub savable : Bool

abbrev judged : UnsafeAction → RuleMatch → VerificationResult
judged action matched = safe
judged action (mismatch reason) = unsafe action reason

-- `Policy::verify`
unfoldable pub verify : Policy → Context → Fallible VerificationResult
verify p ctx = do m ← verify_rule p.safe_zone ctx; ok (judged p.unsafe_handling m)

abbrev pub action_beq : UnsafeAction → UnsafeAction → Bool
action_beq log log = true
action_beq review review = true
action_beq reject reject = true
action_beq _ _ = false

-- `UnsafeAction::merge`
unfoldable pub merge_action : UnsafeAction → UnsafeAction → UnsafeAction
merge_action log other = other
merge_action review other = if action_beq other log then review else other
merge_action reject other = reject

-- `Policy::merge`
unfoldable pub merge_policy : Policy → Policy → Policy
unfolding merge_action
merge_policy p other = record {
  safe_zone = at_least_n_of 2 (rule p.safe_zone (rule other.safe_zone end));
  unsafe_handling = merge_action p.unsafe_handling other.unsafe_handling;
  savable = p.savable && other.savable;
}

unfoldable pub allow_by_default : Policy
allow_by_default = record { safe_zone = true_rule; unsafe_handling = log; savable = true }

unfoldable pub check_savable : Policy → Bool
check_savable p = p.savable

-- `VerificationResult::merge`
unfoldable pub merge_result : VerificationResult → VerificationResult → VerificationResult
unfolding merge_action
merge_result (unsafe left_action left_reason) (unsafe right_action right_reason) =
    let merged = merge_action left_action right_action in
    unsafe merged (if action_beq merged right_action then right_reason else left_reason)
merge_result safe y = y
merge_result (unsafe left_action left_reason) safe = unsafe left_action left_reason
