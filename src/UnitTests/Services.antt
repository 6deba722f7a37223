-- ===== src/UnitTests/Services.antt =====
-- The tests of src/api/request.rs, response.rs, src/storage/mock.rs, src/observability/metrics.rs,
-- src/rules/mod.rs and traits.rs.
use riskr_rs.Base.{
  Outcome, done, panic, leb, ◌≡◌, refl, Bool, true, false, not, Option, none, some, List, [], ◌∷◌,
  Text, text_eq, text_beq, ◌==◌, codes, nat_beq, length, is_empty, get, insert, contains_text,
  starts_with, to_lowercase, lower_char, to_uppercase, upper_char, decimal_digits, digits_onto,
  Result, ok, err, if◌then◌else◌,
}
use riskr_rs.Domain.Decision.{allow, hold_auto, reject_fatal, severity}
use riskr_rs.Domain.Evidence.{Evidence, RuleResult, pass, trigger}
use riskr_rs.Domain.Evidence
use riskr_rs.Domain.Event.{Direction, inbound, outbound}
use riskr_rs.Domain.Policy.{Policy, ofac_addr, daily_usd_volume}
use riskr_rs.Domain.Subject.{
  Subject, Address, l1, l2, as_str, from_str, new_address, new_country_code,
}
use riskr_rs.Rules.Traits.{InlineRule}
use riskr_rs.Rules.RuleSet.{RuleSet, from_policy}
use riskr_rs.Storage.Mock
use riskr_rs.Storage.Mock.{
  MockStorage, upsert_subject, get_subject_by_user_id, add_sanction, is_sanctioned,
  set_rolling_volume, get_rolling_volume,
}
use riskr_rs.Api.Request.{DecisionRequest, to_tx_event}
use riskr_rs.Api.Response.{DecisionResponse, allow_response}
use riskr_rs.Observability.Metrics.{
  MetricsRegistry, record_decision, record_latency, count_outcome, incr,
}
use riskr_rs.Observability.Metrics
use riskr_rs.Observability.Metrics.Prometheus.{to_prometheus, exposition}
use riskr_rs.Observability.Exposition.{render}
use riskr_rs.Examples.Samples.{plain}
use riskr_rs.UnitTests.Fixtures.{is_decision, one_address, all_hold}

-- request.rs: the request that the test's JSON stands for, with a whole value.
abbrev withdrawal : DecisionRequest plain
withdrawal = record {
  subject = record {
    user_id = codes "U123";
    account_id = codes "A456";
    addresses = codes "0xABC" ∷ [];
    geo_iso = codes "us";
    kyc_tier = codes "L2";
  };
  tx = record {
    tx_type = codes "withdraw";
    asset = codes "USDC";
    amount = [];
    usd_value = some 5000;
    dest_address = none;
  };
  context = codes "null";
}

abbrev is_outbound : Direction → Bool
is_outbound inbound = false
is_outbound outbound = true

abbrev head_is : List Address → Text → Bool
head_is [] t = false
head_is (a ∷ addresses) t = a.value == t

abbrev test_to_tx_event : Bool
test_to_tx_event =
    let event = to_tx_event plain 7 0 withdrawal in
    all_hold (
      (event.subject.user_id.value == codes "U123")
      ∷ (event.subject.geo_iso.value == codes "US")
      ∷ (as_str event.subject.kyc_tier == as_str l2)
      ∷ is_outbound event.direction
      ∷ head_is event.subject.addresses (codes "0xabc")
      ∷ [])

-- response.rs
abbrev test_allow_response : Bool
test_allow_response =
    let resp : DecisionResponse plain = allow_response plain (codes "v1.0") in
    all_hold (
      is_decision resp.decision allow
      ∷ (resp.decision_code == codes "OK")
      ∷ is_empty resp.evidence
      ∷ [])

-- mock.rs
abbrev test_subject : Subject
test_subject = record {
  user_id = record { value = codes "U1" };
  account_id = record { value = codes "A1" };
  addresses = one_address;
  geo_iso = new_country_code (codes "US");
  kyc_tier = l1;
}

-- `unwrap` on a result, and once more on an option.
abbrev ok_and : {A : Type 0} → (A → Bool) → Result A → Bool
ok_and holds (ok a) = holds a
ok_and holds (err message) = false

abbrev some_and : {A : Type 0} → (A → Bool) → Option A → Bool
some_and holds none = false
some_and holds (some a) = holds a

abbrev done_and : {A : Type 0} → (A → Bool) → Outcome A → Bool
done_and holds (done a) = holds a
done_and holds panic = false

abbrev test_subject_upsert_and_get : Bool
test_subject_upsert_and_get =
    let (upserted, storage) = upsert_subject plain test_subject (Mock.new plain) in
    ok_and
      (λ id.
        ok_and
          (done_and (
            some_and (λ found.
              all_hold (nat_beq id found.0 ∷ (found.1.user_id.value == codes "U1") ∷ []))))
          (get_subject_by_user_id plain (codes "U1") storage).0)
      upserted

abbrev sanctioned : Text → Bool
sanctioned address =
    ok_and (λ b. b)
      (is_sanctioned plain address (add_sanction plain (codes "0xDEAD") (Mock.new plain))).0

abbrev test_sanctions_check : Bool
test_sanctions_check = all_hold (
    sanctioned (codes "0xdead")
    ∷ sanctioned (codes "0xDEAD")
    ∷ not (sanctioned (codes "0xbeef"))
    ∷ [])

abbrev test_rolling_volume : Bool
test_rolling_volume =
    ok_and (λ volume. nat_beq volume 45000)
      (get_rolling_volume plain 0 86400 (set_rolling_volume plain 0 45000 (Mock.new plain))).0

-- metrics.rs
abbrev test_record_decision : Bool
test_record_decision =
    let metrics =
      record_decision reject_fatal (record_decision allow (record_decision allow Metrics.new)) in
    all_hold (
      nat_beq metrics.decisions_total 3
      ∷ nat_beq metrics.decisions_allow 2
      ∷ nat_beq metrics.decisions_reject 1
      ∷ [])

-- "Very fast operation": no whole microsecond.
abbrev test_record_latency : Bool
test_record_latency = leb 1 (record_latency 0 Metrics.new).latency_under_1ms

abbrev test_prometheus_format : Bool
test_prometheus_format =
    let output = to_prometheus (record_decision allow Metrics.new) in
    all_hold (
      contains_text output (codes "riskr_decisions_total 1")
      ∷ contains_text output (codes "riskr_decisions{outcome=\"allow\"} 1")
      ∷ [])

-- mod.rs
abbrev two_rules : Policy plain
two_rules = record {
  version = codes "test-1";
  params = record {
    kyc_tier_caps_usd = (codes "L0", 1000) ∷ [];
    daily_volume_limit_usd = some 50000;
    structuring_small_usd = some 10000;
    structuring_small_count = some 5;
  };
  rules =
      record {
        id = codes "R1";
        rule_type = ofac_addr;
        action = reject_fatal;
        blocked_countries = [];
      }
      ∷ record {
        id = codes "R4";
        rule_type = daily_usd_volume;
        action = hold_auto;
        blocked_countries = [];
      }
      ∷ [];
  signature = [];
}

abbrev test_ruleset_from_policy : Bool
test_ruleset_from_policy =
    let compiled : RuleSet plain (MockStorage plain) =
      from_policy plain two_rules (codes "0xdead" ∷ []) in
    all_hold (
      nat_beq (length compiled.inline) 1
      ∷ nat_beq (length compiled.streaming) 1
      ∷ (compiled.policy_version == codes "test-1")
      ∷ [])

-- traits.rs
abbrev test_inline_rule : (id : Text) (should_trigger : Bool) → InlineRule plain
test_inline_rule id should_trigger = record {
  id = id;
  evaluate = λ event.
      if should_trigger
      then trigger hold_auto (Evidence.new id (codes "test") (codes "triggered"))
      else pass;
}

abbrev test_inline_rule_trait : Bool
test_inline_rule_trait = (test_inline_rule (codes "TEST_RULE") true).id == codes "TEST_RULE"

tests_pass :
    all_hold (
      test_to_tx_event ∷ test_allow_response ∷ test_subject_upsert_and_get ∷ test_sanctions_check
      ∷ test_rolling_volume ∷ test_record_decision ∷ test_record_latency ∷ test_ruleset_from_policy
      ∷ test_inline_rule_trait ∷ [])
    ≡ true
unfolding to_tx_event allow_response upsert_subject get_subject_by_user_id add_sanction
    is_sanctioned set_rolling_volume get_rolling_volume record_decision record_latency count_outcome
    incr Metrics.new from_policy as_str from_str new_address new_country_code one_address
    is_decision severity contains_text starts_with to_lowercase lower_char to_uppercase upper_char
    get insert text_beq
tests_pass = refl

format_test_passes : test_prometheus_format ≡ true
unfolding to_prometheus exposition render record_decision count_outcome incr Metrics.new
    contains_text starts_with decimal_digits digits_onto
format_test_passes = refl
