-- ===== src/UnitTests/Policies.antt =====
-- The tests of src/policy/loader.rs and hot_reload.rs. What serde_yaml makes of the text of a policy
-- file is given with the file.
use riskr_rs.Base.{
  ◌≡◌, refl, Bool, true, false, Option, none, some, List, [], ◌∷◌, Text, text_eq, text_beq, ◌==◌,
  codes, nat_beq, length, get, contains, set_insert, contains_text, starts_with, lines, trim,
  trim_start, is_whitespace, to_lowercase, lower_char, Result, ok, if◌then◌else◌,
}
use riskr_rs.Domain.Decision.{reject_fatal}
use riskr_rs.Domain.Policy.{Policy, RuleDef, ofac_addr, jurisdiction_block, default_params}
use riskr_rs.Rules.RuleSet.{RuleSet, from_policy}
use riskr_rs.Storage.Mock.{MockStorage}
use riskr_rs.Policy.Loader.{
  PolicyLoader, Loaded, loaded, refused, Files, load_policy, load_sanctions, load, validate_policy,
  check_ids, parse_sanctions, display,
}
use riskr_rs.Policy.Watcher.{PolicyWatcher, start, check_for_updates, send}
use riskr_rs.Examples.Samples.{plain}
use riskr_rs.UnitTests.Fixtures.{all_hold}

abbrev ofac_rule : RuleDef
ofac_rule = record {
  id = codes "R1_OFAC";
  rule_type = ofac_addr;
  action = reject_fatal;
  blocked_countries = [];
}

abbrev country_rule : (id : Text) → List Text → RuleDef
country_rule id blocked = record {
  id = id;
  rule_type = jurisdiction_block;
  action = reject_fatal;
  blocked_countries = blocked;
}

abbrev holding : Text → Files
holding content path = ok content

abbrev read_as : Policy plain → Text → Result (Policy plain)
read_as policy content = ok policy

-- `unwrap`, and `unwrap_err` with the error's text.
abbrev loaded_and : {A : Type 0} → (A → Bool) → Loaded A → Bool
loaded_and holds (loaded a) = holds a
loaded_and holds (refused e) = false

abbrev refused_and : {A : Type 0} → (Text → Bool) → Loaded A → Bool
refused_and holds (loaded a) = false
refused_and holds (refused e) = holds (display e)

abbrev is_cap : Option (plain.Decimal) → plain.Decimal → Bool
is_cap none value = false
is_cap (some cap) value = nat_beq cap value

-- loader.rs
abbrev test_policy : Policy plain
test_policy = record {
  version = codes "test-1.0";
  params = record (default_params plain) {
    kyc_tier_caps_usd = (codes "L0", 1000) ∷ (codes "L1", 5000) ∷ [];
    daily_volume_limit_usd = some 50000;
  };
  rules = ofac_rule ∷ country_rule (codes "R2_JURISDICTION") (codes "IR" ∷ codes "KP" ∷ []) ∷ [];
  signature = codes "unsigned";
}

abbrev test_load_policy : Bool
test_load_policy =
    loaded_and
      (λ policy. all_hold (
        (policy.version == codes "test-1.0")
        ∷ nat_beq (length policy.rules) 2
        ∷ is_cap (get policy.params.kyc_tier_caps_usd (codes "L0")) 1000
        ∷ []))
      (load_policy plain (read_as test_policy) (holding (codes "test-1.0")) (codes "policy.yaml"))

abbrev sanctions_text : Text
sanctions_text =
    codes
      "\n# OFAC sanctions list\n0xDEAD1234567890\n0xBEEF0987654321\n\n# Another bad address\n0xBAD1111111111\n\n"

abbrev test_load_sanctions : Bool
test_load_sanctions =
    loaded_and
      (λ sanctions. all_hold (
        nat_beq (length sanctions) 3
        ∷ contains sanctions (codes "0xdead1234567890")
        ∷ contains sanctions (codes "0xbeef0987654321")
        ∷ contains sanctions (codes "0xbad1111111111")
        ∷ []))
      (load_sanctions (holding sanctions_text) (codes "sanctions.txt"))

abbrev test_policy_validation_empty_version : Bool
test_policy_validation_empty_version =
    refused_and (λ message. contains_text message (codes "version"))
      (load_policy plain
        (read_as (record test_policy {
          version = [];
          params = default_params plain;
          rules = [];
          signature = [];
        }))
        (holding (codes "\"\"")) (codes "policy.yaml"))

abbrev test_policy_validation_duplicate_ids : Bool
test_policy_validation_duplicate_ids =
    refused_and (λ message. contains_text message (codes "Duplicate"))
      (load_policy plain
        (read_as (record {
          version = codes "test";
          params = default_params plain;
          rules = record ofac_rule { id = codes "R1" } ∷ country_rule (codes "R1") [] ∷ [];
          signature = [];
        }))
        (holding (codes "test")) (codes "policy.yaml"))

abbrev one_rule : (version : Text) → Policy plain
one_rule version = record {
  version = version;
  params = record (default_params plain) { daily_volume_limit_usd = some 50000 };
  rules = ofac_rule ∷ [];
  signature = [];
}

abbrev test_loader : PolicyLoader
test_loader = record { policy_path = codes "policy.yaml"; sanctions_path = codes "sanctions.txt" }

abbrev test_policy_loader : Bool
test_policy_loader =
    let result : Loaded (Policy plain × RuleSet plain (MockStorage plain)) =
      load plain (read_as (one_rule (codes "test-1.0"))) test_loader (holding (codes "test-1.0"))
        (holding (codes "0xdead\n0xbeef\n")) in
    loaded_and
      (λ r. all_hold (
        (r.0.version == codes "test-1.0")
        ∷ nat_beq (length r.1.inline) 1
        ∷ (r.1.policy_version == codes "test-1.0")
        ∷ []))
      result

-- hot_reload.rs: the policy file holds "v1", and later "v2".
abbrev second_policy : Policy plain
second_policy = record {
  version = codes "v2";
  params = record (default_params plain) { daily_volume_limit_usd = some 100000 };
  rules = ofac_rule ∷ country_rule (codes "R2_JURISDICTION") (codes "IR" ∷ []) ∷ [];
  signature = [];
}

abbrev read_version : Text → Result (Policy plain)
read_version content =
    if content == codes "v1" then ok (one_rule (codes "v1")) else ok second_policy

abbrev sanctions_file : Files
sanctions_file = holding (codes "0xdead\n")

abbrev watcher : PolicyWatcher plain (MockStorage plain)
watcher = start plain read_version test_loader (holding (codes "v1")) sanctions_file

abbrev test_policy_watcher_initial_load : Bool
test_policy_watcher_initial_load = all_hold (
    (watcher.current.policy_version == codes "v1") ∷ nat_beq (length watcher.current.inline) 1 ∷ [])

-- A tick after the file was written.
abbrev test_policy_watcher_detects_changes : Bool
test_policy_watcher_detects_changes =
    let changed =
      (check_for_updates plain read_version (holding (codes "v2")) (holding (codes "v2"))
        sanctions_file watcher).1 in
    all_hold (
      (watcher.current.policy_version == codes "v1")
      ∷ (changed.current.policy_version == codes "v2")
      ∷ nat_beq (length changed.current.inline) 2
      ∷ [])

tests_pass :
    all_hold (
      test_load_policy ∷ test_load_sanctions ∷ test_policy_validation_empty_version
      ∷ test_policy_validation_duplicate_ids ∷ test_policy_loader ∷ test_policy_watcher_initial_load
      ∷ test_policy_watcher_detects_changes ∷ [])
    ≡ true
unfolding load_policy load_sanctions load validate_policy check_ids parse_sanctions display start
    check_for_updates send from_policy contains set_insert get contains_text starts_with lines trim
    trim_start is_whitespace to_lowercase lower_char text_beq
tests_pass = refl
