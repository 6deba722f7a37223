-- ===== src/Rules/RuleSet/Preserving.antt =====
-- What the queries of a storage keep, every streaming rule of a policy keeps.
use riskr_rs.Base.{
  ◌≡◌, subst, Option, none, some, ℕ, List, [], ◌∷◌, Text, Result, done, All, All-append,
}
use riskr_rs.Crates.{Crates}
use riskr_rs.Domain.Evidence.{RuleResult}
use riskr_rs.Domain.Event.{TxEvent}
use riskr_rs.Domain.Policy.{
  Policy, RuleDef, RuleType, RuleParams, ofac_addr, jurisdiction_block, kyc_tier_tx_cap,
  daily_usd_volume, structuring_small_tx,
}
use riskr_rs.Rules.Traits.{StreamingRule}
use riskr_rs.Rules.DailyVolume
use riskr_rs.Rules.DailyVolume.{DailyVolumeRule}
use riskr_rs.Rules.DailyVolume.Limit.{evaluate-volume_state}
use riskr_rs.Rules.Structuring
use riskr_rs.Rules.Structuring.{StructuringRule}
use riskr_rs.Rules.Structuring.Counting.{evaluate-count_state}
use riskr_rs.Rules.RuleSet.{
  RuleSet, push_daily, push_structuring, add_typed, add_rules, from_policy,
}
use riskr_rs.Storage.{Storage}

module _ (X : Crates) {S : Type 0} (storage : Storage X S) (R : S → S → Type 0) where
  -- The states before and after an evaluation that ends are so related.
  abbrev pub Preserves : StreamingRule X S → Type 0
  Preserves rule =
      (event : TxEvent X) (subject_id : X.Uuid) (s s' : S) (r : Result RuleResult)
      → rule.evaluate storage event subject_id s ≡ done (r, s')
      → R s s'

  -- The queries of the rules.
  pub record QueriesPreserve : Type 0 where
    pub volume : (id : X.Uuid) (window : ℕ) (s : S) → R s (storage.get_rolling_volume id window s).1
    pub count :
        (id : X.Uuid) (window : ℕ) (threshold : X.Decimal) (s : S)
        → R s (storage.get_small_tx_count id window threshold s).1

  module _ (queries : QueriesPreserve) where
    DailyVolume-Preserves : (rule : DailyVolumeRule X) → Preserves (DailyVolume.as_streaming X rule)
    DailyVolume-Preserves rule event subject_id s s' r e =
        subst (R s) (evaluate-volume_state X rule storage event subject_id s s' r e)
          (queries.volume subject_id _ s)

    Structuring-Preserves : (rule : StructuringRule X) → Preserves (Structuring.as_streaming X rule)
    Structuring-Preserves rule event subject_id s s' r e =
        subst (R s) (evaluate-count_state X rule storage event subject_id s s' r e)
          (queries.count subject_id _ rule.amount_threshold s)

    abbrev pub Preserve : RuleSet X S → Type 0
    Preserve set = All Preserves set.streaming

    module _ (params : RuleParams X) (sanctions : List Text) where
      push_daily-Preserve :
          (def : RuleDef) (limit : Option X.Decimal) (set : RuleSet X S)
          → Preserve set
          → Preserve (push_daily X def limit set)
      unfolding push_daily
      push_daily-Preserve def none set h = h
      push_daily-Preserve def (some limit) set h =
          All-append _ set.streaming _ h (DailyVolume-Preserves _, tt)

      push_structuring-Preserve :
          (def : RuleDef) (threshold : Option X.Decimal) (count : Option ℕ) (set : RuleSet X S)
          → Preserve set
          → Preserve (push_structuring X def threshold count set)
      unfolding push_structuring
      push_structuring-Preserve def none count set h = h
      push_structuring-Preserve def (some threshold) none set h = h
      push_structuring-Preserve def (some threshold) (some count) set h =
          All-append _ set.streaming _ h (Structuring-Preserves _, tt)

      add_typed-Preserve :
          (def : RuleDef) (t : RuleType) (set : RuleSet X S)
          → Preserve set
          → Preserve (add_typed X params sanctions def t set)
      unfolding add_typed
      add_typed-Preserve def ofac_addr set h = h
      add_typed-Preserve def jurisdiction_block set h = h
      add_typed-Preserve def kyc_tier_tx_cap set h = h
      add_typed-Preserve def daily_usd_volume set h = push_daily-Preserve def _ set h
      add_typed-Preserve def structuring_small_tx set h = push_structuring-Preserve def _ _ set h

      add_rules-Preserve :
          (defs : List RuleDef) (set : RuleSet X S)
          → Preserve set
          → Preserve (add_rules X params sanctions defs set)
      unfolding add_rules
      add_rules-Preserve [] set h = h
      add_rules-Preserve (def ∷ defs) set h =
          add_rules-Preserve defs _ (add_typed-Preserve def def.rule_type set h)

    pub from_policy-Preserve :
        (policy : Policy X) (sanctions : List Text)
        → All Preserves (from_policy X policy sanctions).streaming
    unfolding from_policy
    from_policy-Preserve policy sanctions =
        add_rules-Preserve policy.params sanctions policy.rules _ tt
