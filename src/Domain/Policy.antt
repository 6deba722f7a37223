-- ===== src/Domain/Policy.antt =====
-- src/domain/policy.rs: the configuration of the engine.
use riskr_rs.Base.{ℕ, Bool, true, false, Option, none, List, [], Text, codes, text_eq, get}
use riskr_rs.Crates.{Crates}
use riskr_rs.Domain.Decision.{Decision}

pub data RuleType : Type 0 where
  ofac_addr jurisdiction_block kyc_tier_tx_cap daily_usd_volume structuring_small_tx : RuleType

pub record RuleDef : Type 0 where
  pub id : Text
  pub rule_type : RuleType
  pub action : Decision
  pub blocked_countries : List Text

abbrev pub is_inline_type : RuleType → Bool
is_inline_type ofac_addr = true
is_inline_type jurisdiction_block = true
is_inline_type kyc_tier_tx_cap = true
is_inline_type _ = false

abbrev pub is_streaming_type : RuleType → Bool
is_streaming_type daily_usd_volume = true
is_streaming_type structuring_small_tx = true
is_streaming_type _ = false

unfoldable pub is_inline : RuleDef → Bool
is_inline def = is_inline_type def.rule_type

unfoldable pub is_streaming : RuleDef → Bool
is_streaming def = is_streaming_type def.rule_type

pub record RuleParams (X : Crates) : Type 0 where
  pub kyc_tier_caps_usd : List (Text × X.Decimal)
  pub daily_volume_limit_usd : Option X.Decimal
  pub structuring_small_usd : Option X.Decimal
  pub structuring_small_count : Option ℕ

pub record Policy (X : Crates) : Type 0 where
  pub version : Text
  pub params : RuleParams X
  pub rules : List RuleDef
  pub signature : Text

module _ (X : Crates) where
  unfoldable pub kyc_cap : RuleParams X → Text → Option X.Decimal
  kyc_cap params tier = get params.kyc_tier_caps_usd tier

  -- `Default`
  abbrev pub default_params : RuleParams X
  default_params = record {
    kyc_tier_caps_usd = [];
    daily_volume_limit_usd = none;
    structuring_small_usd = none;
    structuring_small_count = none;
  }

  unfoldable pub empty : Policy X
  empty = record { version = codes "0.0.0"; params = default_params; rules = []; signature = [] }
