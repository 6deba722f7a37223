-- ===== src/Rules/Structuring.antt =====
-- src/rules/streaming/structuring.rs: many small transactions within 24 hours.
pub mod Counting
use riskr_rs.Base.{
  ℕ, ◌+◌, ◌%◌, ◌^◌, Text, codes, Result, ok, err, Outcome, done, ltb, if◌then◌else◌, decimal_digits,
}
use riskr_rs.Crates.{Crates}
use riskr_rs.Domain.Decision.{Decision}
use riskr_rs.Domain.Evidence
use riskr_rs.Domain.Evidence.{RuleResult, pass, trigger}
use riskr_rs.Domain.Event.{TxEvent}
use riskr_rs.Rules.Traits.{StreamingRule}
use riskr_rs.Storage.{Storage, hours}

pub record StructuringRule (X : Crates) : Type 0 where
  pub id : Text
  pub action : Decision
  pub amount_threshold : X.Decimal
  pub count_threshold : ℕ

module _ (X : Crates) where
  -- `u32` addition; the release profile leaves overflow checks off, so that it wraps.
  unfoldable pub total_count : StructuringRule X → X.Decimal → ℕ → ℕ
  total_count rule usd_value small_count =
      if X.decimal_lt usd_value rule.amount_threshold
      then (small_count + 1) % 2 ^ 32
      else small_count

  judge : StructuringRule X → ℕ → RuleResult
  unfolding pass trigger Evidence.with_limit
  judge rule total =
      if ltb rule.count_threshold total
      then trigger rule.action (
          Evidence.with_limit rule.id (codes "small_cnt_24h") (decimal_digits total)
            (decimal_digits rule.count_threshold))
      else pass

  judge_count :
      {S : Type 0} → StructuringRule X → X.Decimal → Result ℕ × S → Outcome (Result RuleResult × S)
  unfolding judge total_count
  judge_count rule usd_value (err message, s) = done (err message, s)
  judge_count rule usd_value (ok small_count, s) =
      done (ok (judge rule (total_count rule usd_value small_count)), s)

  unfoldable pub evaluate :
      {S : Type 0}
      → StructuringRule X
      → Storage X S
      → TxEvent X
      → X.Uuid
      → S
      → Outcome (Result RuleResult × S)
  unfolding judge_count
  evaluate rule storage event subject_id s =
      judge_count rule event.usd_value
        (storage.get_small_tx_count subject_id (hours 24) rule.amount_threshold s)

  -- `impl StreamingRule for StructuringRule`
  abbrev pub as_streaming : {S : Type 0} → StructuringRule X → StreamingRule X S
  as_streaming rule = record { id = rule.id; evaluate = evaluate rule }
