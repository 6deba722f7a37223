-- ===== src/Rules/RuleSet.antt =====
-- src/rules/mod.rs: the rules that a policy compiles to.
pub mod Compiled
pub mod Membership
pub mod Configured
pub mod Preserving
pub mod Readers
use riskr_rs.Base.{
  Bool, true, false, Option, none, some, List, [], ◌∷◌, ◌++◌, map, Text, codes, text_eq,
  to_uppercase, collect_set, ℕ,
}
use riskr_rs.Crates.{Crates}
use riskr_rs.Domain.Policy.{
  Policy, RuleDef, RuleType, RuleParams, ofac_addr, jurisdiction_block, kyc_tier_tx_cap,
  daily_usd_volume, structuring_small_tx,
}
use riskr_rs.Rules.Traits.{InlineRule, StreamingRule}
use riskr_rs.Rules.Ofac
use riskr_rs.Rules.Jurisdiction
use riskr_rs.Rules.KycCap
use riskr_rs.Rules.DailyVolume
use riskr_rs.Rules.Structuring

pub record RuleSet (X : Crates) (S : Type 0) : Type 0 where
  pub inline : List (InlineRule X)
  pub streaming : List (StreamingRule X S)
  pub policy_version : Text

module _ (X : Crates) {S : Type 0} where
  unfoldable pub empty : RuleSet X S
  empty = record { inline = []; streaming = []; policy_version = codes "0.0.0" }

  abbrev push_inline : InlineRule X → RuleSet X S → RuleSet X S
  push_inline r set = record set { inline = set.inline ++ r ∷ [] }

  abbrev push_streaming : StreamingRule X S → RuleSet X S → RuleSet X S
  push_streaming r set = record set { streaming = set.streaming ++ r ∷ [] }

  -- A daily limit is compiled only if the limit is configured.
  push_daily : RuleDef → Option X.Decimal → RuleSet X S → RuleSet X S
  push_daily def none set = set
  push_daily def (some limit) set =
      push_streaming
        (DailyVolume.as_streaming X (record { id = def.id; action = def.action; limit = limit }))
        set

  -- Structuring detection is compiled only if both thresholds are configured.
  push_structuring : RuleDef → Option X.Decimal → Option ℕ → RuleSet X S → RuleSet X S
  push_structuring def (some threshold) (some count) set =
      push_streaming
        (Structuring.as_streaming X (record {
          id = def.id;
          action = def.action;
          amount_threshold = threshold;
          count_threshold = count;
        }))
        set
  push_structuring def _ _ set = set

  -- The `match` on the rule's type.
  add_typed : RuleParams X → List Text → RuleDef → RuleType → RuleSet X S → RuleSet X S
  unfolding push_daily push_structuring
  add_typed params sanctions def ofac_addr set =
      push_inline (Ofac.as_inline X (Ofac.new X def.id def.action sanctions)) set
  add_typed params sanctions def jurisdiction_block set =
      let blocked = collect_set (map to_uppercase def.blocked_countries) in
      push_inline (Jurisdiction.as_inline X (Jurisdiction.new def.id def.action blocked)) set
  add_typed params sanctions def kyc_tier_tx_cap set =
      push_inline
        (KycCap.as_inline X
          (record { id = def.id; action = def.action; caps = params.kyc_tier_caps_usd }))
        set
  add_typed params sanctions def daily_usd_volume set =
      push_daily def params.daily_volume_limit_usd set
  add_typed params sanctions def structuring_small_tx set =
      push_structuring def params.structuring_small_usd params.structuring_small_count set

  -- The loop over `policy.rules`.
  add_rules : RuleParams X → List Text → List RuleDef → RuleSet X S → RuleSet X S
  unfolding add_typed
  add_rules params sanctions [] set = set
  add_rules params sanctions (def ∷ defs) set =
      add_rules params sanctions defs (add_typed params sanctions def def.rule_type set)

  unfoldable pub from_policy : Policy X → List Text → RuleSet X S
  unfolding add_rules
  from_policy policy sanctions =
      add_rules policy.params sanctions policy.rules
        (record { inline = []; streaming = []; policy_version = policy.version })
