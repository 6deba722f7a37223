-- ===== src/Api/Decide/Sanctioned.antt =====
-- From a policy to the answer: fatal screening rules reject, before the storage is asked anything.
use riskr_rs.Base.{
  ◌≡◌, refl, ◌∙◌, List, Text, Option, to_lowercase, to_lowercase_idem, done, Any, Any-map, In,
  In-of-Any, Any-of-In,
}
use riskr_rs.Crates.{Crates, BloomLaws}
use riskr_rs.Domain.Decision.{reject_fatal}
use riskr_rs.Domain.Subject.{new_address, new_country_code}
use riskr_rs.Domain.Policy.{Policy, RuleDef, ofac_addr, jurisdiction_block}
use riskr_rs.Rules.Ofac.Screening
use riskr_rs.Rules.Ofac.Screening.{IsListed}
use riskr_rs.Rules.Jurisdiction.Blocking
use riskr_rs.Rules.Jurisdiction.Blocking.{IsBlockedIn}
use riskr_rs.Rules.RuleSet.{RuleSet, from_policy}
use riskr_rs.Rules.RuleSet.Membership.{ofac_rule, ofac-In, jurisdiction_rule, jurisdiction-In}
use riskr_rs.Storage.{Storage}
use riskr_rs.Api.Request.{DecisionRequest, to_tx_event}
use riskr_rs.Api.Decide.{Verdict, Ambient, ok_200, handle_decision}
use riskr_rs.Api.Decide.Inline.{inline_verdict, fatal_of_hit}
use riskr_rs.Api.Decide.Handling.{answer, event, handle_decision-fatal}

module _ (X : Crates) {S : Type 0} (storage : Storage X S)
    (to_value : DecisionRequest X → Option X.Json) (ambient : Ambient X) (req : DecisionRequest X)
    (s : S) (policy : Policy X) (sanctions : List Text) (def : RuleDef) where
  abbrev rules : RuleSet X S
  rules = from_policy X policy sanctions

  -- The answer rejects, with status 200, and the storage is as it was.
  abbrev pub IsRejected : Type 0
  IsRejected =
      (v : Verdict) × (handle_decision X storage to_value rules ambient req s
        ≡ done (answer X storage to_value rules ambient req s ok_200 reject_fatal v, s))

  lowered-IsListed : (a : Text) → IsListed sanctions a → IsListed sanctions (to_lowercase a)
  lowered-IsListed a h = rw (to_lowercase_idem a) h

  -- Where the policy has a fatal OFAC rule and the bloom filter has no false negatives, a request
  -- with an address on the sanctions list, up to case, is rejected with status 200, over every
  -- storage, and the storage is as it was.
  pub sanctioned_rejected :
      BloomLaws X
      → In def policy.rules
      → def.rule_type ≡ ofac_addr
      → def.action ≡ reject_fatal
      → Any (IsListed sanctions) req.subject.addresses
      → IsRejected
  unfolding to_tx_event new_address
  sanctioned_rejected laws listed kind fatal found =
      let ev = event X storage to_value rules ambient req s in
      let (a, m, h) = In-of-Any req.subject.addresses found in
      let (hit, action) = Screening.evaluate-screened_hit X laws def.id def.action sanctions ev (
        Any-map new_address req.subject.addresses
          (Any-of-In a req.subject.addresses m (lowered-IsListed a h))) in
      (
        inline_verdict X ev rules.inline,
        handle_decision-fatal X storage to_value rules ambient req s (
            fatal_of_hit X ev rules.inline (ofac_rule X S policy sanctions def)
              (ofac-In X S policy sanctions def listed kind) hit (action ∙ fatal)),
      )

  -- Where the policy has a fatal jurisdiction rule, a request from one of its countries, up to case
  -- on both sides, is rejected with status 200, over every storage, and the storage is as it was.
  pub blocked_country_rejected :
      In def policy.rules
      → def.rule_type ≡ jurisdiction_block
      → def.action ≡ reject_fatal
      → IsBlockedIn def.blocked_countries req.subject.geo_iso
      → IsRejected
  unfolding to_tx_event new_country_code
  blocked_country_rejected listed kind fatal blocked =
      let ev = event X storage to_value rules ambient req s in
      let (hit, action) =
        Blocking.evaluate-blocked_hit X def.id def.action def.blocked_countries ev
          req.subject.geo_iso refl blocked in
      (
        inline_verdict X ev rules.inline,
        handle_decision-fatal X storage to_value rules ambient req s (
            fatal_of_hit X ev rules.inline (jurisdiction_rule X S policy sanctions def)
              (jurisdiction-In X S policy sanctions def listed kind) hit (action ∙ fatal)),
      )
