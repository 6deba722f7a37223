-- ===== src/Api/Decide/Volume.antt =====
-- From a policy with a daily limit to the answer: a known user above the limit.
use riskr_rs.Base.{
  ◌≤◌, ◌≡◌, sym, ap, ◌∙◌, subst, arith, true, Option, some, List, Text, Result, ok, Outcome, done,
  In, Any-append_right,
}
use riskr_rs.Crates.{Crates}
use riskr_rs.Domain.Decision.{Decision, reject_fatal, severity}
use riskr_rs.Domain.Evidence.{RuleResult}
use riskr_rs.Domain.Event.{TxEvent}
use riskr_rs.Domain.Subject.{Subject}
use riskr_rs.Domain.Policy.{Policy, RuleDef, daily_usd_volume}
use riskr_rs.Rules.DailyVolume
use riskr_rs.Rules.DailyVolume.{DailyVolumeRule}
use riskr_rs.Rules.DailyVolume.Limit.{evaluate-Limited, above-Limited}
use riskr_rs.Rules.RuleSet.{RuleSet, from_policy}
use riskr_rs.Rules.RuleSet.Configured.{volume_rule, volume-In}
use riskr_rs.Rules.RuleSet.Readers.{from_policy-Readers}
use riskr_rs.Storage.Mock.{MockStorage, mock, get_rolling_volume}
use riskr_rs.Storage.Mock.Subjects.{lookup, assign, Upserted, upsert_subject-Upserted}
use riskr_rs.Api.Request.{DecisionRequest}
use riskr_rs.Api.Response
use riskr_rs.Api.Decide.{Ambient, HttpResponse, handle_decision}
use riskr_rs.Api.Decide.Inline.{severity-hit-le}
use riskr_rs.Api.Decide.Phases.{Streamed}
use riskr_rs.Api.Decide.Turns.{Answers, Streamed-In}
use riskr_rs.Api.Decide.Handling.{
  Handled, rejected, failed_open, crashed, decided, event, handle_decision-Handled,
}

severity-le-reject_fatal : (d : Decision) → severity d ≤ severity reject_fatal
unfolding severity
severity-le-reject_fatal d = ground arith

decision_of :
    {X : Crates} {S : Type 0} (r r' : HttpResponse X) {a b : S}
    → ◌≡◌ {A = Outcome (HttpResponse X × S)} (done (r, a)) (done (r', b))
    → r.body.decision ≡ r'.body.decision
decision_of r r' e = ground arith

module _ (X : Crates) (to_value : DecisionRequest X → Option X.Json) (policy : Policy X)
    (sanctions : List Text) (ambient : Ambient X) (req : DecisionRequest X) (s : MockStorage X)
    (def : RuleDef) (limit : X.Decimal) where
  abbrev rules : RuleSet X (MockStorage X)
  rules = from_policy X policy sanctions

  abbrev ev : TxEvent X
  ev = event X (mock X) to_value rules ambient req s

  abbrev HasVolume : X.Uuid → X.Decimal → MockStorage X → Type 0
  HasVolume id vol m = ((mock X).get_rolling_volume id 86400 m).0 ≡ ok vol

  HasVolume-kept :
      (id : X.Uuid) (vol : X.Decimal) (m m' : MockStorage X)
      → m'.rolling_volumes ≡ m.rolling_volumes
      → HasVolume id vol m
      → HasVolume id vol m'
  unfolding get_rolling_volume
  HasVolume-kept id vol m m' e v = rw e v

  module _ (id : X.Uuid) (was : Subject) (vol total : X.Decimal)
      (known : lookup X s ev.subject.user_id.value ≡ some (id, was)) (recorded : HasVolume id vol s)
      (sum : X.decimal_add vol ev.usd_value ≡ some total)
      (over : X.decimal_lt limit total ≡ true) where
    abbrev upsert : Upserted X ev.subject s ((mock X).upsert_subject ev.subject s)
    upsert = upsert_subject-Upserted X ev.subject s

    -- In the state after the upsert, the daily limit answers with its action.
    volume-Answers :
        (r : RuleResult) × Answers X ev id
          (DailyVolume.as_streaming X (volume_rule X (MockStorage X) policy sanctions def limit))
          r
          ((mock X).upsert_subject ev.subject s).1
        × (r.hit ≡ true)
        × (r.decision ≡ def.action)
    volume-Answers =
        let (r, after, e, y, d) =
          above-Limited X (volume_rule X (MockStorage X) policy sanctions def limit) ev vol total _
            _
            (evaluate-Limited X (volume_rule X (MockStorage X) policy sanctions def limit) ev
              (mock X) id ((mock X).upsert_subject ev.subject s).1)
            (HasVolume-kept id vol s _ upsert.volumes recorded) sum over in
        (r, (after, e), y, d)

    -- The identifier that the upsert answers is that of the known user.
    same_id : (i : X.Uuid) → ((mock X).upsert_subject ev.subject s).0 ≡ ok i → i ≡ id
    same_id i e =
        same_uuid (sym e ∙ upsert.answered)
        ∙ ap (λ q. q.0) (upsert.assigned ∙ ap (assign X s) known)
      where
        same_uuid : {a b : X.Uuid} → ◌≡◌ {A = Result X.Uuid} (ok a) (ok b) → a ≡ b
        same_uuid q = ground arith

    Streamed-known :
        {i : X.Uuid} {s₁ s₂ : MockStorage X} {results : List RuleResult}
        → (mock X).upsert_subject ev.subject s ≡ (ok i, s₁)
        → Streamed X (mock X) ev i rules.streaming s₁ results s₂
        → Streamed X
            (mock X)
            ev
            id
            rules.streaming
            ((mock X).upsert_subject ev.subject s).1
            results
            s₂
    Streamed-known {i} {s₁} {s₂} {results} u t =
        subst
          (λ j.
            Streamed X (mock X) ev j rules.streaming ((mock X).upsert_subject ev.subject s).1
              results s₂)
          (same_id i (ap (λ q. q.0) u))
          (subst (λ m. Streamed X (mock X) ev i rules.streaming m results s₂)
            (sym (ap (λ q. q.1) u)) t)

    answer-le :
        (response : HttpResponse X) (s' : MockStorage X)
        {out : Outcome (HttpResponse X × MockStorage X)}
        → Handled X (mock X) to_value rules ambient req s out
        → out ≡ done (response, s')
        → In def policy.rules
        → def.rule_type ≡ daily_usd_volume
        → policy.params.daily_volume_limit_usd ≡ some limit
        → severity def.action ≤ severity response.body.decision
    unfolding Response.new
    answer-le response s' (rejected v w f e) p listed kind configured =
        subst (λ d. severity def.action ≤ severity d) (decision_of _ _ (sym e ∙ p))
          (severity-le-reject_fatal def.action)
    answer-le response s' (failed_open v m s₁ w n u e) p listed kind configured =
        cc (ap (λ q. q.0) u, upsert.answered)
    answer-le response s' (crashed _ _ _ _ _ e) p listed kind configured = cc (e, p)
    answer-le response s' (decided v i s₁ s₂ results _ u t w e) p listed kind configured =
        let (r, answers, y, d) = volume-Answers in
        let found =
          Streamed-In X ev id _ r (Streamed-known u t) (from_policy-Readers X policy sanctions)
            (volume-In X (MockStorage X) policy sanctions def limit listed kind configured)
            answers in
        subst (λ z. severity def.action ≤ severity z) (decision_of _ _ (sym e ∙ p))
          (subst (λ z. severity z ≤ severity v.decision) d
            (severity-hit-le _ v r w (Any-append_right _ results found) y))

    -- With the in-memory storage and the rules of a policy that has a rule on the daily volume and
    -- a limit, take a user that is known and whose volume of the last 24 hours, with the value of
    -- the transaction, is above the limit. If the request is answered, then the decision is at
    -- least as severe as the action of the rule.
    pub over_limit-le :
        In def policy.rules
        → def.rule_type ≡ daily_usd_volume
        → policy.params.daily_volume_limit_usd ≡ some limit
        → (response : HttpResponse X) (s' : MockStorage X)
        → handle_decision X (mock X) to_value rules ambient req s ≡ done (response, s')
        → severity def.action ≤ severity response.body.decision
    over_limit-le listed kind configured response s' p =
        answer-le response s' (handle_decision-Handled X (mock X) to_value rules ambient req s) p
          listed kind configured
