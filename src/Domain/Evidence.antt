-- ===== src/Domain/Evidence.antt =====
-- src/domain/evidence.rs: what a rule reports.
use riskr_rs.Base.{Bool, true, false, Option, some, none, Text, if◌then◌else◌}
use riskr_rs.Domain.Decision.{Decision, allow, gt}

pub record Evidence : Type 0 where
  pub rule_id : Text
  pub key : Text
  pub value : Text
  pub limit : Option Text

unfoldable pub new : Text → Text → Text → Evidence
new rule_id key value = record { rule_id = rule_id; key = key; value = value; limit = none }

unfoldable pub with_limit : Text → Text → Text → Text → Evidence
with_limit rule_id key value limit = record {
  rule_id = rule_id;
  key = key;
  value = value;
  limit = some limit;
}

pub record RuleResult : Type 0 where
  pub hit : Bool
  pub decision : Decision
  pub evidence : Option Evidence

-- `RuleResult::allow`
unfoldable pub pass : RuleResult
pass = record { hit = false; decision = allow; evidence = none }

unfoldable pub trigger : Decision → Evidence → RuleResult
trigger decision evidence = record { hit = true; decision = decision; evidence = some evidence }

unfoldable pub combine : RuleResult → RuleResult → RuleResult
unfolding gt
combine self other = if gt other.decision self.decision then other else self
