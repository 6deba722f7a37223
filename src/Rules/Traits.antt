-- ===== src/Rules/Traits.antt =====
-- src/rules/traits.rs: a trait object is its identifier and its method.
use riskr_rs.Base.{Text, Outcome, Result}
use riskr_rs.Crates.{Crates}
use riskr_rs.Domain.Evidence.{RuleResult}
use riskr_rs.Domain.Event.{TxEvent}
use riskr_rs.Storage.{Storage}

-- A stateless rule.
pub record InlineRule (X : Crates) : Type 0 where
  pub id : Text
  pub evaluate : TxEvent X → RuleResult

-- A rule that asks the storage. It may fail or panic, and the storage may change.
pub record StreamingRule (X : Crates) (S : Type 0) : Type 0 where
  pub id : Text
  pub evaluate : Storage X S → TxEvent X → X.Uuid → S → Outcome (Result RuleResult × S)
