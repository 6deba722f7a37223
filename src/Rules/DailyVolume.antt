-- ===== src/Rules/DailyVolume.antt =====
-- src/rules/streaming/daily_volume.rs: the volume of the last 24 hours.
pub mod Limit
use riskr_rs.Base.{Text, codes, Result, ok, err, Outcome, done, expect, ◌>>=◌, if◌then◌else◌}
use riskr_rs.Crates.{Crates}
use riskr_rs.Domain.Decision.{Decision}
use riskr_rs.Domain.Evidence
use riskr_rs.Domain.Evidence.{RuleResult, pass, trigger}
use riskr_rs.Domain.Event.{TxEvent}
use riskr_rs.Rules.Traits.{StreamingRule}
use riskr_rs.Storage.{Storage, hours}

pub record DailyVolumeRule (X : Crates) : Type 0 where
  pub id : Text
  pub action : Decision
  pub limit : X.Decimal

module _ (X : Crates) where
  -- The comparison with the limit, once the new volume is known.
  judge : DailyVolumeRule X → X.Decimal → RuleResult
  unfolding pass trigger Evidence.with_limit
  judge rule new_volume =
      if X.decimal_lt rule.limit new_volume
      then trigger rule.action (
          Evidence.with_limit rule.id (codes "daily_usd") (X.decimal_to_string new_volume)
            (X.decimal_to_string rule.limit))
      else pass

  -- The part after the query: `?` on its error, and the addition, which may panic.
  judge_volume :
      {S : Type 0}
      → DailyVolumeRule X
      → X.Decimal
      → Result X.Decimal × S
      → Outcome (Result RuleResult × S)
  unfolding judge
  judge_volume rule usd_value (err message, s) = done (err message, s)
  judge_volume rule usd_value (ok current_volume, s) = do
    new_volume ← expect (X.decimal_add current_volume usd_value)
    done (ok (judge rule new_volume), s)

  unfoldable pub evaluate :
      {S : Type 0}
      → DailyVolumeRule X
      → Storage X S
      → TxEvent X
      → X.Uuid
      → S
      → Outcome (Result RuleResult × S)
  unfolding judge_volume
  evaluate rule storage event subject_id s =
      judge_volume rule event.usd_value (storage.get_rolling_volume subject_id (hours 24) s)

  -- `impl StreamingRule for DailyVolumeRule`
  abbrev pub as_streaming : {S : Type 0} → DailyVolumeRule X → StreamingRule X S
  as_streaming rule = record { id = rule.id; evaluate = evaluate rule }
