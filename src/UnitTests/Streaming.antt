-- ===== src/UnitTests/Streaming.antt =====
-- The tests of src/rules/streaming/daily_volume.rs and structuring.rs, over the in-memory storage.
use riskr_rs.Base.{
  ℕ, ◌≡◌, refl, Bool, true, not, [], ◌∷◌, text_eq, text_beq, ◌==◌, codes, get, insert,
  decimal_digits, digits_onto,
}
use riskr_rs.Domain.Decision.{hold_auto, review, severity}
use riskr_rs.Domain.Evidence.{RuleResult, pass, trigger, with_limit}
use riskr_rs.Domain.Subject.{new_address, new_country_code}
use riskr_rs.Rules.DailyVolume
use riskr_rs.Rules.DailyVolume.{DailyVolumeRule}
use riskr_rs.Rules.Structuring
use riskr_rs.Rules.Structuring.{StructuringRule, total_count}
use riskr_rs.Storage.Mock
use riskr_rs.Storage.Mock.{
  mock, set_rolling_volume, set_small_tx_count, get_rolling_volume, get_small_tx_count,
}
use riskr_rs.Examples.Samples.{plain}
use riskr_rs.UnitTests.Fixtures.{
  test_event, one_address, value_event, is_decision, is_some, evidence_of, unwrapped, all_hold,
}

-- daily_volume.rs: the value of a transaction on top of a volume.
abbrev daily_rule : DailyVolumeRule plain
daily_rule = record { id = codes "R4_DAILY"; action = hold_auto; limit = 50000 }

abbrev on_volume : (volume usd_value : ℕ) → (RuleResult → Bool) → Bool
on_volume volume usd_value holds = unwrapped holds (
    DailyVolume.evaluate plain daily_rule (mock plain) (value_event usd_value) 0
      (set_rolling_volume plain 0 volume (Mock.new plain)))

abbrev test_under_limit : Bool
test_under_limit = on_volume 10000 10000 (λ result. not result.hit)

abbrev test_over_limit : Bool
test_over_limit = on_volume 40000 20000 (λ result. all_hold (
    result.hit
    ∷ is_decision result.decision hold_auto
    ∷ evidence_of (λ ev. ev.value == codes "60000") result
    ∷ evidence_of (λ ev. is_some ev.limit (codes "50000")) result
    ∷ []))

abbrev test_exactly_at_limit : Bool
test_exactly_at_limit = on_volume 40000 10000 (λ result. not result.hit)

abbrev test_old_transactions_not_counted : Bool
test_old_transactions_not_counted = on_volume 0 20000 (λ result. not result.hit)

-- structuring.rs: a transaction after a number of small ones.
abbrev structuring_rule : StructuringRule plain
structuring_rule = record {
  id = codes "R5_STRUCT";
  action = review;
  amount_threshold = 10000;
  count_threshold = 5;
}

abbrev after_small : (count usd_value : ℕ) → (RuleResult → Bool) → Bool
after_small count usd_value holds = unwrapped holds (
    Structuring.evaluate plain structuring_rule (mock plain) (value_event usd_value) 0
      (set_small_tx_count plain 0 count (Mock.new plain)))

abbrev test_under_count_threshold : Bool
test_under_count_threshold = after_small 3 5000 (λ result. not result.hit)

abbrev test_at_count_threshold : Bool
test_at_count_threshold = after_small 4 5000 (λ result. not result.hit)

abbrev test_over_count_threshold : Bool
test_over_count_threshold = after_small 5 5000 (λ result. all_hold (
    result.hit
    ∷ is_decision result.decision review
    ∷ evidence_of (λ ev. ev.value == codes "6") result
    ∷ evidence_of (λ ev. is_some ev.limit (codes "5")) result
    ∷ []))

abbrev test_large_tx_not_counted : Bool
test_large_tx_not_counted = after_small 5 20000 (λ result. not result.hit)

abbrev test_mixed_transactions : Bool
test_mixed_transactions = after_small 3 5000 (λ result. not result.hit)

tests_pass :
    all_hold (
      test_under_limit ∷ test_over_limit ∷ test_exactly_at_limit ∷ test_old_transactions_not_counted
      ∷ test_under_count_threshold ∷ test_at_count_threshold ∷ test_over_count_threshold
      ∷ test_large_tx_not_counted ∷ test_mixed_transactions ∷ [])
    ≡ true
unfolding DailyVolume.evaluate Structuring.evaluate total_count pass trigger with_limit test_event
    one_address is_decision severity new_address new_country_code set_rolling_volume
    set_small_tx_count get_rolling_volume get_small_tx_count get insert text_beq decimal_digits
    digits_onto
tests_pass = refl
