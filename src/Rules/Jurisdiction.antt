-- ===== src/Rules/Jurisdiction.antt =====
-- src/rules/inline/jurisdiction.rs: transactions from blocked countries.
pub mod Blocking
use riskr_rs.Base.{
  Bool, List, map, Text, codes, text_eq, to_uppercase, contains, collect_set, if◌then◌else◌,
}
use riskr_rs.Crates.{Crates}
use riskr_rs.Domain.Decision.{Decision}
use riskr_rs.Domain.Evidence
use riskr_rs.Domain.Evidence.{RuleResult, pass, trigger}
use riskr_rs.Domain.Event.{TxEvent}
use riskr_rs.Rules.Traits.{InlineRule}

pub record JurisdictionRule : Type 0 where
  pub id : Text
  pub action : Decision
  pub blocked : List Text

unfoldable pub new : Text → Decision → List Text → JurisdictionRule
new id action blocked_countries = record {
  id = id;
  action = action;
  blocked = collect_set (map to_uppercase blocked_countries);
}

unfoldable pub is_blocked : JurisdictionRule → Text → Bool
is_blocked rule country_code = contains rule.blocked (to_uppercase country_code)

module _ (X : Crates) where
  unfoldable pub evaluate : JurisdictionRule → TxEvent X → RuleResult
  unfolding is_blocked pass trigger Evidence.new
  evaluate rule event =
      let country = event.subject.geo_iso.value in
      if is_blocked rule country
      then trigger rule.action (Evidence.new rule.id (codes "geo_iso") country)
      else pass

  -- `impl InlineRule for JurisdictionRule`
  abbrev pub as_inline : JurisdictionRule → InlineRule X
  as_inline rule = record { id = rule.id; evaluate = evaluate rule }
