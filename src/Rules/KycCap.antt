-- ===== src/Rules/KycCap.antt =====
-- src/rules/inline/kyc_cap.rs: the cap on one transaction by KYC tier.
pub mod Caps
use riskr_rs.Base.{Option, none, some, List, Text, codes, text_eq, get, if◌then◌else◌}
use riskr_rs.Crates.{Crates}
use riskr_rs.Domain.Decision.{Decision}
use riskr_rs.Domain.Evidence
use riskr_rs.Domain.Evidence.{RuleResult, pass, trigger}
use riskr_rs.Domain.Subject.{as_str}
use riskr_rs.Domain.Event.{TxEvent}
use riskr_rs.Rules.Traits.{InlineRule}

pub record KycCapRule (X : Crates) : Type 0 where
  pub id : Text
  pub action : Decision
  pub caps : List (Text × X.Decimal)

module _ (X : Crates) where
  unfoldable pub get_cap : KycCapRule X → Text → Option X.Decimal
  get_cap rule tier = get rule.caps tier

  -- `Some(c) if c > Decimal::ZERO => c`; every other case allows.
  unfoldable pub positive_cap : Option X.Decimal → Option X.Decimal
  positive_cap none = none
  positive_cap (some c) = if X.decimal_lt X.decimal_zero c then some c else none

  check_cap : KycCapRule X → X.Decimal → Option X.Decimal → RuleResult
  unfolding pass trigger Evidence.with_limit
  check_cap rule usd_value none = pass
  check_cap rule usd_value (some cap) =
      if X.decimal_lt cap usd_value
      then trigger rule.action (
          Evidence.with_limit rule.id (codes "usd_value") (X.decimal_to_string usd_value)
            (X.decimal_to_string cap))
      else pass

  unfoldable pub evaluate : KycCapRule X → TxEvent X → RuleResult
  unfolding get_cap positive_cap check_cap
  evaluate rule event =
      let tier = as_str event.subject.kyc_tier in
      check_cap rule event.usd_value (positive_cap (get_cap rule tier))

  -- `impl InlineRule for KycCapRule`
  abbrev pub as_inline : KycCapRule X → InlineRule X
  as_inline rule = record { id = rule.id; evaluate = evaluate rule }
