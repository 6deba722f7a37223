-- ===== src/UnitTests/Domains.antt =====
-- The tests of src/domain and of src/config/mod.rs.
use riskr_rs.Base.{
  ◌≡◌, refl, Bool, true, false, not, Option, none, some, [], ◌∷◌, Text, text_eq, text_beq, ◌==◌,
  codes, nat_beq, to_lowercase, lower_char, to_uppercase, upper_char,
}
use riskr_rs.Domain.Decision.{allow, soft_deny_retry, hold_auto, review, reject_fatal, severity, gt}
use riskr_rs.Domain.Decision
use riskr_rs.Domain.Evidence.{Evidence, RuleResult, pass, trigger, with_limit, combine}
use riskr_rs.Domain.Evidence
use riskr_rs.Domain.Event.{
  TxEvent, DecisionEvent, outbound, new_tx_event, new_decision_event, pick_code,
}
use riskr_rs.Domain.Policy.{RuleDef, ofac_addr, daily_usd_volume, is_inline, is_streaming}
use riskr_rs.Domain.Subject.{Subject, l1, new_address, new_country_code}
use riskr_rs.Config.{Config, default, policy_reload_interval, shutdown_timeout, actor_idle_timeout}
use riskr_rs.Examples.Samples.{plain}
use riskr_rs.UnitTests.Fixtures.{is_decision, is_some, all_hold}

-- decision.rs
abbrev test_decision_ordering : Bool
test_decision_ordering = all_hold (
    gt soft_deny_retry allow
    ∷ gt hold_auto soft_deny_retry
    ∷ gt review hold_auto
    ∷ gt reject_fatal review
    ∷ [])

abbrev test_decision_max : Bool
test_decision_max = all_hold (
    is_decision (Decision.max allow hold_auto) hold_auto
    ∷ is_decision (Decision.max reject_fatal allow) reject_fatal
    ∷ is_decision (Decision.max review review) review
    ∷ [])

-- evidence.rs
abbrev is_absent : Option Text → Bool
is_absent none = true
is_absent (some t) = false

abbrev test_evidence_creation : Bool
test_evidence_creation =
    let ev = Evidence.new (codes "R1_OFAC") (codes "address") (codes "0xdead") in
    all_hold (
      (ev.rule_id == codes "R1_OFAC")
      ∷ (ev.key == codes "address")
      ∷ (ev.value == codes "0xdead")
      ∷ is_absent ev.limit
      ∷ [])

abbrev test_evidence_with_limit : Bool
test_evidence_with_limit =
    let ev = with_limit (codes "R4_DAILY") (codes "daily_usd") (codes "60000") (codes "50000") in
    is_some ev.limit (codes "50000")

abbrev test_rule_result_combine : Bool
test_rule_result_combine =
    let hold = trigger hold_auto (Evidence.new (codes "R3") (codes "test") (codes "value")) in
    let combined = combine pass hold in
    all_hold (combined.hit ∷ is_decision combined.decision hold_auto ∷ [])

-- event.rs
abbrev test_subject : Subject
test_subject = record {
  user_id = record { value = codes "U123" };
  account_id = record { value = codes "A456" };
  addresses = new_address (codes "0xabc") ∷ [];
  geo_iso = new_country_code (codes "US");
  kyc_tier = l1;
}

-- The value is 100.00 dollars.
abbrev test_tx_event_creation : Bool
test_tx_event_creation =
    let event : TxEvent plain =
      new_tx_event plain 7 0 test_subject (record { value = codes "USDC" }) 100 outbound in
    all_hold (
      (event.schema_version == codes "v1")
      ∷ (event.chain.value == codes "INLINE")
      ∷ nat_beq event.usd_value 100
      ∷ [])

abbrev test_decision_event_pick_code : Bool
test_decision_event_pick_code =
    let evidence =
      Evidence.new (codes "R1_OFAC") (codes "address") (codes "0xdead")
      ∷ Evidence.new (codes "R2_JURISDICTION") (codes "geo") (codes "IR")
      ∷ [] in
    let event : DecisionEvent plain =
      new_decision_event plain 7 0 (record { value = codes "e1" }) reject_fatal
        (codes "2025-01-01.1") evidence in
    event.decision_code == codes "R1_OFAC"

-- policy.rs
abbrev inline_rule : RuleDef
inline_rule = record {
  id = codes "R1";
  rule_type = ofac_addr;
  action = reject_fatal;
  blocked_countries = [];
}

abbrev streaming_rule : RuleDef
streaming_rule = record {
  id = codes "R4";
  rule_type = daily_usd_volume;
  action = hold_auto;
  blocked_countries = [];
}

abbrev test_rule_classification : Bool
test_rule_classification = all_hold (
    is_inline inline_rule
    ∷ not (is_streaming inline_rule)
    ∷ not (is_inline streaming_rule)
    ∷ is_streaming streaming_rule
    ∷ [])

-- subject.rs
abbrev test_address_normalization : Bool
test_address_normalization = (new_address (codes "0xABCDEF123456")).value == codes "0xabcdef123456"

abbrev test_country_code_normalization : Bool
test_country_code_normalization = (new_country_code (codes "us")).value == codes "US"

-- config/mod.rs
abbrev test_default_config : Bool
test_default_config = all_hold (
    (default.listen_addr == codes "0.0.0.0:8080")
    ∷ nat_beq default.latency_budget_ms 100
    ∷ nat_beq default.stripe_count 64
    ∷ [])

abbrev test_duration_helpers : Bool
test_duration_helpers =
    let config : Config = record default {
      policy_reload_secs = 60;
      shutdown_timeout_secs = 15;
      actor_idle_secs = 1800;
    } in
    all_hold (
      nat_beq (policy_reload_interval config) 60
      ∷ nat_beq (shutdown_timeout config) 15
      ∷ nat_beq (actor_idle_timeout config) 1800
      ∷ [])

tests_pass :
    all_hold (
      test_decision_ordering ∷ test_decision_max ∷ test_evidence_creation ∷ test_evidence_with_limit
      ∷ test_rule_result_combine ∷ test_tx_event_creation ∷ test_decision_event_pick_code
      ∷ test_rule_classification ∷ test_address_normalization ∷ test_country_code_normalization
      ∷ test_default_config ∷ test_duration_helpers ∷ [])
    ≡ true
unfolding gt Decision.max severity is_decision Evidence.new with_limit trigger pass combine
    new_tx_event new_decision_event pick_code is_inline is_streaming new_address new_country_code
    to_lowercase lower_char to_uppercase upper_char text_beq default policy_reload_interval
    shutdown_timeout actor_idle_timeout
tests_pass = refl
