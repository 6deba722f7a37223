-- ===== src/Examples/Volumes.antt =====
-- A known user above the daily limit.
use riskr_rs.Base.{◌≡◌, ◌≤◌, refl, codes, some, [], ◌∷◌, here, done, ok, get, insert, text_beq}
use riskr_rs.Domain.Decision.{severity, hold_auto, is_fatal}
use riskr_rs.Domain.Policy.{Policy}
use riskr_rs.Domain.Subject.{Subject, l2}
use riskr_rs.Rules.RuleSet.{RuleSet, from_policy}
use riskr_rs.Rules.DailyVolume
use riskr_rs.Storage.Mock.{
  MockStorage, mock, add_subject, set_rolling_volume, upsert_subject, get_rolling_volume,
}
use riskr_rs.Storage.Mock.Subjects.{lookup}
use riskr_rs.Api.Request.{DecisionRequest, to_tx_event}
use riskr_rs.Api.Decide.{HttpResponse, handle_decision, evaluate_inline, evaluate_streaming}
use riskr_rs.Api.Decide.Handling.{event}
use riskr_rs.Api.Decide.Volume.{over_limit-le}
use riskr_rs.Examples.Samples.{
  plain, answer_or, policy, volume_def, ambient, to_value, store, withdrawal, subject_of,
}

abbrev volume_policy : Policy plain
volume_policy = record policy { rules = volume_def ∷ [] }

abbrev rules : RuleSet plain (MockStorage plain)
rules = from_policy plain volume_policy []

abbrev known : Subject
known = record {
  user_id = record { value = codes "u1" };
  account_id = record { value = codes "a1" };
  addresses = [];
  geo_iso = record { value = codes "US" };
  kyc_tier = l2;
}

abbrev after_45000 : MockStorage plain
after_45000 = set_rolling_volume plain 0 45000 (add_subject plain known store).1

abbrev request : DecisionRequest plain
request = withdrawal (subject_of (codes "us") (codes "0xcafe") (codes "L2")) (some 6000)

abbrev answer : HttpResponse plain × MockStorage plain
answer = answer_or (handle_decision plain (mock plain) to_value rules ambient request after_45000)

is_answered :
    handle_decision plain (mock plain) to_value rules ambient request after_45000
    ≡ done (answer.0, answer.1)
unfolding from_policy handle_decision evaluate_inline evaluate_streaming is_fatal upsert_subject get
    insert to_tx_event DailyVolume.evaluate get_rolling_volume set_rolling_volume add_subject
    text_beq
is_answered = refl

is_known :
    lookup plain after_45000
      (event plain (mock plain) to_value rules ambient request after_45000).subject.user_id.value
    ≡ some (0, known)
unfolding get insert to_tx_event set_rolling_volume add_subject text_beq
is_known = refl

has_volume : ((mock plain).get_rolling_volume 0 86400 after_45000).0 ≡ ok 45000
unfolding get insert get_rolling_volume set_rolling_volume add_subject
has_volume = refl

has_sum :
    plain.decimal_add 45000
      (event plain (mock plain) to_value rules ambient request after_45000).usd_value
    ≡ some 51000
unfolding to_tx_event
has_sum = refl

over_limit-le_example : severity hold_auto ≤ severity answer.0.body.decision
over_limit-le_example =
    over_limit-le plain to_value volume_policy [] ambient request after_45000 volume_def 50000 0
      known 45000 51000 is_known has_volume has_sum refl (here refl) refl refl answer.0 answer.1
      is_answered
