-- ===== src/Rules/RuleSet/Membership.antt =====
-- Every inline rule of a policy is among the compiled ones.
use riskr_rs.Base.{
  ◌≡◌, refl, sym, subst, Option, none, some, ℕ, List, [], ◌∷◌, map, Text, text_eq, to_uppercase,
  collect_set, In, here, there, Any-append_left, Any-append_right,
}
use riskr_rs.Crates.{Crates}
use riskr_rs.Domain.Policy.{
  Policy, RuleDef, RuleType, RuleParams, ofac_addr, jurisdiction_block, kyc_tier_tx_cap,
  daily_usd_volume, structuring_small_tx,
}
use riskr_rs.Rules.Traits.{InlineRule}
use riskr_rs.Rules.Ofac
use riskr_rs.Rules.Jurisdiction
use riskr_rs.Rules.RuleSet.{
  RuleSet, push_daily, push_structuring, add_typed, add_rules, from_policy,
}

module _ (X : Crates) (S : Type 0) (params : RuleParams X) (sanctions : List Text)
    (rule : InlineRule X) where
  In-push_daily :
      (def : RuleDef) (limit : Option X.Decimal) (set : RuleSet X S)
      → In rule set.inline
      → In rule (push_daily X def limit set).inline
  unfolding push_daily
  In-push_daily def none set m = m
  In-push_daily def (some _) set m = m

  In-push_structuring :
      (def : RuleDef) (threshold : Option X.Decimal) (count : Option ℕ) (set : RuleSet X S)
      → In rule set.inline
      → In rule (push_structuring X def threshold count set).inline
  unfolding push_structuring
  In-push_structuring def none count set m = m
  In-push_structuring def (some _) none set m = m
  In-push_structuring def (some _) (some _) set m = m

  In-add_typed :
      (def : RuleDef) (t : RuleType) (set : RuleSet X S)
      → In rule set.inline
      → In rule (add_typed X params sanctions def t set).inline
  unfolding add_typed
  In-add_typed def ofac_addr set m = Any-append_left set.inline _ m
  In-add_typed def jurisdiction_block set m = Any-append_left set.inline _ m
  In-add_typed def kyc_tier_tx_cap set m = Any-append_left set.inline _ m
  In-add_typed def daily_usd_volume set m = In-push_daily def _ set m
  In-add_typed def structuring_small_tx set m = In-push_structuring def _ _ set m

  In-add_rules :
      (defs : List RuleDef) (set : RuleSet X S)
      → In rule set.inline
      → In rule (add_rules X params sanctions defs set).inline
  unfolding add_rules
  In-add_rules [] set m = m
  In-add_rules (def ∷ defs) set m = In-add_rules defs _ (In-add_typed def def.rule_type set m)

  -- `def` compiles to `rule`, whatever was compiled before.
  abbrev Compiles : RuleDef → Type 0
  Compiles def =
      (set : RuleSet X S) → In rule (add_typed X params sanctions def def.rule_type set).inline

  In-add_rules_of_def :
      (def : RuleDef) (defs : List RuleDef) (set : RuleSet X S)
      → In def defs
      → Compiles def
      → In rule (add_rules X params sanctions defs set).inline
  unfolding add_rules
  In-add_rules_of_def def [] set m c = elim m [ ]
  In-add_rules_of_def def (d ∷ defs) set (here e) c =
      In-add_rules defs _ (subst Compiles (sym e) c set)
  In-add_rules_of_def def (d ∷ defs) set (there m) c = In-add_rules_of_def def defs _ m c

module _ (X : Crates) (S : Type 0) (policy : Policy X) (sanctions : List Text) (def : RuleDef) where
  abbrev pub ofac_rule : InlineRule X
  ofac_rule = Ofac.as_inline X (Ofac.new X def.id def.action sanctions)

  pub ofac-In :
      In def policy.rules
      → def.rule_type ≡ ofac_addr
      → In ofac_rule (from_policy X {S = S} policy sanctions).inline
  unfolding from_policy add_typed
  ofac-In listed e =
      In-add_rules_of_def X S policy.params sanctions ofac_rule def policy.rules _ listed
        (λ set. rw e (Any-append_right set.inline _ (here refl)))

  abbrev pub jurisdiction_rule : InlineRule X
  jurisdiction_rule =
      Jurisdiction.as_inline X
        (Jurisdiction.new def.id def.action (collect_set (map to_uppercase def.blocked_countries)))

  pub jurisdiction-In :
      In def policy.rules
      → def.rule_type ≡ jurisdiction_block
      → In jurisdiction_rule (from_policy X {S = S} policy sanctions).inline
  unfolding from_policy add_typed
  jurisdiction-In listed e =
      In-add_rules_of_def X S policy.params sanctions jurisdiction_rule def policy.rules _ listed
        (λ set. rw e (Any-append_right set.inline _ (here refl)))
