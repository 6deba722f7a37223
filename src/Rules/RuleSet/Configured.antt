-- ===== src/Rules/RuleSet/Configured.antt =====
-- Every daily limit of a policy is among the compiled streaming rules.
use riskr_rs.Base.{
  ◌≡◌, refl, sym, subst, Option, none, some, ℕ, List, [], ◌∷◌, Text, In, here, there,
  Any-append_left, Any-append_right,
}
use riskr_rs.Crates.{Crates}
use riskr_rs.Domain.Policy.{
  Policy, RuleDef, RuleType, RuleParams, ofac_addr, jurisdiction_block, kyc_tier_tx_cap,
  daily_usd_volume, structuring_small_tx,
}
use riskr_rs.Rules.Traits.{StreamingRule}
use riskr_rs.Rules.DailyVolume
use riskr_rs.Rules.DailyVolume.{DailyVolumeRule}
use riskr_rs.Rules.RuleSet.{
  RuleSet, push_daily, push_structuring, add_typed, add_rules, from_policy,
}

module _ (X : Crates) (S : Type 0) (params : RuleParams X) (sanctions : List Text)
    (rule : StreamingRule X S) where
  abbrev Holds : RuleSet X S → Type 0
  Holds set = In rule set.streaming

  Holds-push_daily :
      (def : RuleDef) (limit : Option X.Decimal) (set : RuleSet X S)
      → Holds set
      → Holds (push_daily X def limit set)
  unfolding push_daily
  Holds-push_daily def none set m = m
  Holds-push_daily def (some _) set m = Any-append_left set.streaming _ m

  Holds-push_structuring :
      (def : RuleDef) (threshold : Option X.Decimal) (count : Option ℕ) (set : RuleSet X S)
      → Holds set
      → Holds (push_structuring X def threshold count set)
  unfolding push_structuring
  Holds-push_structuring def none count set m = m
  Holds-push_structuring def (some _) none set m = m
  Holds-push_structuring def (some _) (some _) set m = Any-append_left set.streaming _ m

  Holds-add_typed :
      (def : RuleDef) (t : RuleType) (set : RuleSet X S)
      → Holds set
      → Holds (add_typed X params sanctions def t set)
  unfolding add_typed
  Holds-add_typed def ofac_addr set m = m
  Holds-add_typed def jurisdiction_block set m = m
  Holds-add_typed def kyc_tier_tx_cap set m = m
  Holds-add_typed def daily_usd_volume set m = Holds-push_daily def _ set m
  Holds-add_typed def structuring_small_tx set m = Holds-push_structuring def _ _ set m

  Holds-add_rules :
      (defs : List RuleDef) (set : RuleSet X S)
      → Holds set
      → Holds (add_rules X params sanctions defs set)
  unfolding add_rules
  Holds-add_rules [] set m = m
  Holds-add_rules (def ∷ defs) set m =
      Holds-add_rules defs _ (Holds-add_typed def def.rule_type set m)

  abbrev Compiles : RuleDef → Type 0
  Compiles def = (set : RuleSet X S) → Holds (add_typed X params sanctions def def.rule_type set)

  Holds-add_rules_of_def :
      (def : RuleDef) (defs : List RuleDef) (set : RuleSet X S)
      → In def defs
      → Compiles def
      → Holds (add_rules X params sanctions defs set)
  unfolding add_rules
  Holds-add_rules_of_def def [] set m c = elim m [ ]
  Holds-add_rules_of_def def (d ∷ defs) set (here e) c =
      Holds-add_rules defs _ (subst Compiles (sym e) c set)
  Holds-add_rules_of_def def (d ∷ defs) set (there m) c = Holds-add_rules_of_def def defs _ m c

module _ (X : Crates) (S : Type 0) (policy : Policy X) (sanctions : List Text) (def : RuleDef)
    (limit : X.Decimal) where
  abbrev pub volume_rule : DailyVolumeRule X
  volume_rule = record { id = def.id; action = def.action; limit = limit }

  pub volume-In :
      In def policy.rules
      → def.rule_type ≡ daily_usd_volume
      → policy.params.daily_volume_limit_usd ≡ some limit
      → In
          (DailyVolume.as_streaming X volume_rule)
          (from_policy X {S = S} policy sanctions).streaming
  unfolding from_policy add_typed push_daily
  volume-In listed e configured =
      Holds-add_rules_of_def X S policy.params sanctions (DailyVolume.as_streaming X volume_rule)
        def policy.rules _ listed
        (λ set. rw e (rw configured (Any-append_right set.streaming _ (here refl))))
