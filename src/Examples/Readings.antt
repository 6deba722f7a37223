-- ===== src/Examples/Readings.antt =====
-- A request with a value out of range, and counters.
use riskr_rs.Base.{◌%◌, ◌^◌, ◌≡◌, true, List, [], ◌∷◌, refl, codes}
use riskr_rs.Domain.Decision.{allow, review, hold_auto}
use riskr_rs.Domain.Evidence.{pass}
use riskr_rs.Rules.KycCap
use riskr_rs.Rules.KycCap.{KycCapRule}
use riskr_rs.Api.Request.{to_tx_event}
use riskr_rs.Api.Request.Reading.{unconvertible_passes}
use riskr_rs.Observability.Metrics
use riskr_rs.Observability.Metrics.Counting.{
  Call, decision, latency, rule, calls, count, counts, latency_1_5ms, calls-counted,
}
use riskr_rs.Examples.Samples.{plain, plain_decimals, policy, not_finite}

abbrev cap_rule : KycCapRule plain
cap_rule = record { id = codes "R3"; action = hold_auto; caps = policy.params.kyc_tier_caps_usd }

unconvertible_passes_example :
    KycCap.evaluate plain cap_rule (to_tx_event plain 7 100 not_finite) ≡ pass
unconvertible_passes_example =
    unconvertible_passes plain 7 100 not_finite plain_decimals refl cap_rule

abbrev busy : List Call
busy = decision review ∷ latency 1200 ∷ rule true ∷ decision allow ∷ latency 800 ∷ []

calls-counted_example :
    (calls busy Metrics.new).latency_1_5ms ≡ count (counts latency_1_5ms) busy % 2 ^ 64
calls-counted_example = calls-counted latency_1_5ms busy
