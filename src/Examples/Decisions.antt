-- ===== src/Examples/Decisions.antt =====
-- The handler of decisions on single requests.
use riskr_rs.Base.{
  refl, here, there, Any, to_lowercase, lower_char, to_uppercase, upper_char, codes,
}
use riskr_rs.Domain.Event.{TxEvent}
use riskr_rs.Rules.Ofac.Screening.{IsListed}
use riskr_rs.Rules.Jurisdiction.Blocking.{IsBlockedIn}
use riskr_rs.Storage.Mock.{mock}
use riskr_rs.Api.Decide.{initial, evaluate_streaming, handle_decision}
use riskr_rs.Api.Decide.Verdicts.{IsVerdict}
use riskr_rs.Api.Decide.Inline.{inline_results, inline_verdict, evaluate_inline-IsVerdict}
use riskr_rs.Api.Decide.Phases.{Phase3, evaluate_streaming-Phase3}
use riskr_rs.Api.Decide.Handling.{Handled, event, handle_decision-Handled}
use riskr_rs.Api.Decide.Sanctioned.{IsRejected, sanctioned_rejected, blocked_country_rejected}
use riskr_rs.Api.Decide.Audit.{Audited, handle_decision-Audited}
use riskr_rs.Examples.Samples.{
  plain, plain_bloom, ofac_def, country_def, policy, sanctions, rules, store, ambient, to_value,
  large, listed_address, from_iran,
}

abbrev large_event : TxEvent plain
large_event = event plain (mock plain) to_value rules ambient large store

handle_decision-Handled_example :
    Handled plain
      (mock plain)
      to_value
      rules
      ambient
      large
      store
      (handle_decision plain (mock plain) to_value rules ambient large store)
handle_decision-Handled_example =
    handle_decision-Handled plain (mock plain) to_value rules ambient large store

handle_decision-Audited_example :
    Audited plain to_value rules ambient large store
      (handle_decision plain (mock plain) to_value rules ambient large store)
handle_decision-Audited_example =
    handle_decision-Audited plain to_value policy sanctions ambient large store

dead_listed : IsListed sanctions (codes "0xDEAD")
unfolding to_lowercase lower_char
dead_listed = here refl

listed_among : Any (IsListed sanctions) listed_address.subject.addresses
listed_among = there (here dead_listed)

sanctioned_rejected_example :
    IsRejected plain (mock plain) to_value ambient listed_address store policy sanctions ofac_def
sanctioned_rejected_example =
    sanctioned_rejected plain (mock plain) to_value ambient listed_address store policy sanctions
      ofac_def plain_bloom (here refl) refl refl listed_among

iran_blocked : IsBlockedIn country_def.blocked_countries (codes "ir")
unfolding to_uppercase upper_char
iran_blocked = here refl

blocked_country_rejected_example :
    IsRejected plain (mock plain) to_value ambient from_iran store policy sanctions country_def
blocked_country_rejected_example =
    blocked_country_rejected plain (mock plain) to_value ambient from_iran store policy sanctions
      country_def (there (here refl)) refl refl iran_blocked

evaluate_inline-IsVerdict_example :
    IsVerdict
      (inline_results plain large_event rules.inline)
      (inline_verdict plain large_event rules.inline)
evaluate_inline-IsVerdict_example = evaluate_inline-IsVerdict plain large_event rules.inline

evaluate_streaming-Phase3_example :
    Phase3 plain
      (mock plain)
      large_event
      0
      rules.streaming
      initial
      store
      (evaluate_streaming plain (mock plain) large_event 0 rules.streaming initial store)
evaluate_streaming-Phase3_example =
    evaluate_streaming-Phase3 plain (mock plain) large_event 0 rules.streaming initial store
