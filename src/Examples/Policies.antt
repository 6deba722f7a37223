-- ===== src/Examples/Policies.antt =====
-- The policy file, the sanctions file and the watcher.
use riskr_rs.Base.{
  ◌<◌, ◌≡◌, ◌↔◌, arith, Text, codes, List, [], ◌∷◌, ◌++◌, keep_if, In, Any, lines, Result, ok, err,
  contains, set_insert, text_beq,
}
use riskr_rs.Domain.Policy.{Policy, is_inline}
use riskr_rs.Rules.RuleSet.{from_policy}
use riskr_rs.Rules.RuleSet.Compiled.{ids, inline_ids, streaming_ids, is_configured, from_policy-ids}
use riskr_rs.Policy.Loader.{
  PolicyLoader, Files, load, load_sanctions, load_policy, parse_sanctions, validate_policy,
}
use riskr_rs.Policy.Loader.Validation.{Validated, validate_policy-Validated}
use riskr_rs.Policy.Loader.Sanctions.{Lists, parse_sanctions_iff}
use riskr_rs.Policy.Watcher.{PolicyWatcher, Reads, start, run, check_for_updates}
use riskr_rs.Policy.Watcher.Reloading.{Ticked, check-Ticked}
use riskr_rs.Policy.Watcher.Serving.{IsConsistent, run-start-IsConsistent}
use riskr_rs.Storage.Mock.{MockStorage}
use riskr_rs.Examples.Samples.{plain, policy, sanctions}

abbrev Store : Type 0
Store = MockStorage plain

from_policy-ids_example :
    (inline_ids plain (from_policy plain {S = Store} policy sanctions)
      ≡ ids (keep_if is_inline policy.rules))
    × (streaming_ids plain (from_policy plain {S = Store} policy sanctions)
        ≡ ids (keep_if (is_configured plain policy.params) policy.rules))
    × ((from_policy plain {S = Store} policy sanctions).policy_version ≡ policy.version)
from_policy-ids_example = from_policy-ids plain Store policy sanctions

-- The first rule once more at the end.
abbrev repeating : Policy plain
repeating = record policy { rules = policy.rules ++ policy.rules }

validate_policy-Validated_example : Validated plain repeating (validate_policy plain repeating)
validate_policy-Validated_example = validate_policy-Validated plain repeating

abbrev sanctions_file : Text
sanctions_file = codes "# listed\n0xDEAD\n\n  0x1234 \n"

parse_sanctions_iff_example :
    In (codes "0x1234") (parse_sanctions sanctions_file)
    ↔ Any (Lists (codes "0x1234")) (lines sanctions_file)
parse_sanctions_iff_example = parse_sanctions_iff sanctions_file (codes "0x1234")

-- A policy file holds the version of a policy, whose rules are always the same.
abbrev parse_version : Text → Result (Policy plain)
parse_version content = ok (record policy { version = content })

abbrev loader : PolicyLoader
loader = record { policy_path = codes "policy.yaml"; sanctions_path = codes "sanctions.txt" }

abbrev holds : Text → Files
holds content path = ok content

abbrev missing : Files
missing path = err (codes "not found")

abbrev watcher : PolicyWatcher plain Store
watcher = start plain parse_version loader (holds (codes "v1")) (holds sanctions_file)

live : 0 < watcher.receivers
unfolding start load load_policy contains set_insert text_beq load_sanctions
live = omega arith

check-Ticked_example :
    Ticked plain parse_version
      (holds (codes "v2"))
      (holds (codes "v2"))
      (holds sanctions_file)
      watcher
      (check_for_updates plain parse_version
        (holds (codes "v2"))
        (holds (codes "v2"))
        (holds sanctions_file)
        watcher)
check-Ticked_example =
    check-Ticked plain parse_version (holds (codes "v2")) (holds (codes "v2"))
      (holds sanctions_file) watcher live

abbrev two_ticks : List Reads
two_ticks =
    (holds (codes "v2"), holds (codes "v2"), holds sanctions_file)
    ∷ (missing, missing, missing)
    ∷ []

run-start-IsConsistent_example : IsConsistent plain parse_version (
    run plain parse_version two_ticks
      (start plain parse_version {S = Store} loader (holds (codes "v1")) missing))
run-start-IsConsistent_example =
    run-start-IsConsistent plain parse_version loader (holds (codes "v1")) missing two_ticks
