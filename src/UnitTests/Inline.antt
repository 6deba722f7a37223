-- ===== src/UnitTests/Inline.antt =====
-- The tests of src/rules/inline/kyc_cap.rs, jurisdiction.rs and ofac.rs.
use riskr_rs.Base.{
  ℕ, ◌≡◌, refl, Bool, true, not, List, [], ◌∷◌, map, Text, text_eq, text_beq, ◌==◌, codes, contains,
  collect_set, set_insert, get, to_lowercase, lower_char, to_uppercase, upper_char, decimal_digits,
  digits_onto,
}
use riskr_rs.Domain.Decision.{allow, hold_auto, reject_fatal, severity}
use riskr_rs.Domain.Evidence.{RuleResult, pass, trigger, with_limit}
use riskr_rs.Domain.Evidence
use riskr_rs.Domain.Event.{TxEvent}
use riskr_rs.Domain.Subject.{KycTier, l0, l1, l2, as_str, new_address, new_country_code}
use riskr_rs.Rules.KycCap
use riskr_rs.Rules.KycCap.{KycCapRule, get_cap, positive_cap}
use riskr_rs.Rules.Jurisdiction
use riskr_rs.Rules.Jurisdiction.{is_blocked}
use riskr_rs.Rules.Ofac
use riskr_rs.Rules.Ofac.{is_sanctioned}
use riskr_rs.Examples.Samples.{plain}
use riskr_rs.UnitTests.Fixtures.{
  test_event, one_address, is_decision, is_some, evidence_of, all_hold,
}

-- kyc_cap.rs
abbrev test_caps : List (Text × ℕ)
test_caps = (codes "L0", 1000) ∷ (codes "L1", 5000) ∷ (codes "L2", 100000) ∷ []

abbrev tier_event : KycTier → ℕ → TxEvent plain
tier_event tier usd_value = test_event one_address (codes "US") tier usd_value

abbrev capped : List (Text × ℕ) → KycTier → ℕ → RuleResult
capped caps tier usd_value =
    let rule : KycCapRule plain = record { id = codes "R3_KYC"; action = hold_auto; caps = caps } in
    KycCap.evaluate plain rule (tier_event tier usd_value)

abbrev test_under_limit : Bool
test_under_limit =
    let result = capped test_caps l0 500 in
    all_hold (not result.hit ∷ is_decision result.decision allow ∷ [])

abbrev test_at_limit : Bool
test_at_limit = not (capped test_caps l0 1000).hit

abbrev test_over_limit : Bool
test_over_limit =
    let result = capped test_caps l0 1001 in
    all_hold (
      result.hit
      ∷ is_decision result.decision hold_auto
      ∷ evidence_of (λ ev. ev.rule_id == codes "R3_KYC") result
      ∷ evidence_of (λ ev. ev.value == codes "1001") result
      ∷ evidence_of (λ ev. is_some ev.limit (codes "1000")) result
      ∷ [])

abbrev test_higher_tier_higher_limit : Bool
test_higher_tier_higher_limit =
    all_hold (not (capped test_caps l1 4000).hit ∷ not (capped test_caps l2 50000).hit ∷ [])

abbrev test_unknown_tier_no_limit : Bool
test_unknown_tier_no_limit = not (capped ((codes "L0", 1000) ∷ []) l1 999999).hit

-- jurisdiction.rs
abbrev country_event : Text → TxEvent plain
country_event country = test_event one_address country l1 1000

abbrev in_country : List Text → Text → RuleResult
in_country blocked country =
    Jurisdiction.evaluate plain (Jurisdiction.new (codes "R2_JURISDICTION") reject_fatal blocked)
      (country_event country)

abbrev test_allowed_country : Bool
test_allowed_country =
    let result = in_country (codes "IR" ∷ codes "KP" ∷ []) (codes "US") in
    all_hold (not result.hit ∷ is_decision result.decision allow ∷ [])

abbrev test_blocked_country : Bool
test_blocked_country =
    let result = in_country (codes "IR" ∷ codes "KP" ∷ []) (codes "IR") in
    all_hold (
      result.hit
      ∷ is_decision result.decision reject_fatal
      ∷ evidence_of (λ ev. ev.value == codes "IR") result
      ∷ [])

abbrev test_blocked_country_lowercase : Bool
test_blocked_country_lowercase = (in_country (codes "IR" ∷ []) (codes "ir")).hit

abbrev test_empty_country : Bool
test_empty_country = not (in_country (codes "IR" ∷ []) []).hit

-- ofac.rs
abbrev addresses_event : List Text → TxEvent plain
addresses_event addresses = test_event (map new_address addresses) (codes "US") l1 1000

abbrev with_addresses : (sanctions addresses : List Text) → RuleResult
with_addresses sanctions addresses =
    Ofac.evaluate plain (Ofac.new plain (codes "R1_OFAC") reject_fatal sanctions)
      (addresses_event addresses)

abbrev test_clean_address : Bool
test_clean_address =
    let result = with_addresses (codes "0xdead" ∷ codes "0xbeef" ∷ []) (codes "0xclean" ∷ []) in
    all_hold (not result.hit ∷ is_decision result.decision allow ∷ [])

abbrev test_sanctioned_address : Bool
test_sanctioned_address =
    let result = with_addresses (codes "0xdead" ∷ codes "0xbeef" ∷ []) (codes "0xDEAD" ∷ []) in
    all_hold (
      result.hit
      ∷ is_decision result.decision reject_fatal
      ∷ evidence_of (λ ev. ev.rule_id == codes "R1_OFAC") result
      ∷ [])

abbrev test_multiple_addresses_one_bad : Bool
test_multiple_addresses_one_bad =
    let result =
      with_addresses (codes "0xdead" ∷ [])
        (codes "0xclean" ∷ codes "0xdead" ∷ codes "0xsafe" ∷ []) in
    all_hold (result.hit ∷ evidence_of (λ ev. ev.value == codes "0xdead") result ∷ [])

abbrev test_empty_addresses : Bool
test_empty_addresses = not (with_addresses (codes "0xdead" ∷ []) []).hit

tests_pass :
    all_hold (
      test_under_limit ∷ test_at_limit ∷ test_over_limit ∷ test_higher_tier_higher_limit
      ∷ test_unknown_tier_no_limit ∷ test_allowed_country ∷ test_blocked_country
      ∷ test_blocked_country_lowercase ∷ test_empty_country ∷ test_clean_address
      ∷ test_sanctioned_address ∷ test_multiple_addresses_one_bad ∷ test_empty_addresses ∷ [])
    ≡ true
unfolding KycCap.evaluate get_cap positive_cap Jurisdiction.evaluate Jurisdiction.new is_blocked
    Ofac.evaluate Ofac.new is_sanctioned pass trigger with_limit Evidence.new test_event one_address
    is_decision severity new_address new_country_code to_lowercase lower_char to_uppercase
    upper_char contains collect_set set_insert get text_beq decimal_digits digits_onto as_str
tests_pass = refl
