-- ===== src/Api/Decide/Handling.antt =====
-- What the handler may answer, and what it leaves in the storage.
use riskr_rs.Base.{
  ◌≡◌, ◌≢◌, inl, inr, refl, sym, ◌∙◌, true, false, Option, List, ◌++◌, Text, Result, ok, err,
  Outcome, done, panic, Bool-cases, ◌>>=◌, arith, ap,
}
use riskr_rs.Crates.{Crates}
use riskr_rs.Domain.Decision.{Decision, allow, reject_fatal, is_fatal}
use riskr_rs.Domain.Evidence.{RuleResult}
use riskr_rs.Domain.Event.{TxEvent}
use riskr_rs.Rules.RuleSet.{RuleSet}
use riskr_rs.Storage.{Storage}
use riskr_rs.Api.Request.{DecisionRequest, to_tx_event}
use riskr_rs.Api.Response
use riskr_rs.Api.Decide.{
  Verdict, StatusCode, ok_200, internal_server_error_500, Ambient, HttpResponse, transaction_record,
  decision_record, respond, after_upsert, record_and_respond, handle_decision,
}
use riskr_rs.Api.Decide.Verdicts.{absorb_all, IsVerdict, absorb_all-IsVerdict}
use riskr_rs.Api.Decide.Inline.{inline_results, inline_verdict, evaluate_inline-IsVerdict}
use riskr_rs.Api.Decide.Phases.{
  Streamed, Panics, Phase3, completed, aborted, evaluate_streaming-Phase3,
}

is_fatal-eq : (d : Decision) → is_fatal d ≡ true → d ≡ reject_fatal
unfolding is_fatal
is_fatal-eq d h = ground arith

not_fatal-ne : (d : Decision) → is_fatal d ≡ false → d ≢ reject_fatal
unfolding is_fatal
not_fatal-ne d h = ground arith

module _ (X : Crates) {S : Type 0} (storage : Storage X S)
    (to_value : DecisionRequest X → Option X.Json) (rules : RuleSet X S) (ambient : Ambient X)
    (req : DecisionRequest X) (s : S) where
  abbrev pub event : TxEvent X
  event = to_tx_event X ambient.now ambient.event_uuid req

  abbrev pub phase1 : List RuleResult
  phase1 = inline_results X event rules.inline

  abbrev pub answer : StatusCode → Decision → Verdict → HttpResponse X
  answer status decision v = record {
    status = status;
    body = Response.new X decision rules.policy_version v.evidence;
  }

  -- The storage after both records are written.
  abbrev pub recorded : X.Uuid → Verdict → S → S
  recorded subject_id v s₂ =
      let tx = transaction_record X event subject_id in
      let entry =
        decision_record X to_value req subject_id v rules.policy_version ambient.elapsed_ms in
      (storage.record_decision entry (storage.record_transaction tx s₂).1).1

  -- The inline rules are not fatal.
  abbrev pub GoesOn : Type 0
  GoesOn = (v : Verdict) × IsVerdict phase1 v × (v.decision ≢ reject_fatal)

  -- A request ends in one of four ways.
  pub data Handled (out : Outcome (HttpResponse X × S)) : Type 0 where
    -- The inline rules are fatal: the storage is not touched.
    rejected :
        (v : Verdict)
        → IsVerdict phase1 v
        → v.decision ≡ reject_fatal
        → out ≡ done (answer ok_200 reject_fatal v, s)
        → Handled out
    -- The upsert fails: whatever the inline rules said, the answer is Allow with status 500.
    failed_open :
        (v : Verdict) (message : Text) (s₁ : S)
        → IsVerdict phase1 v
        → v.decision ≢ reject_fatal
        → storage.upsert_subject event.subject s ≡ (err message, s₁)
        → out ≡ done (answer internal_server_error_500 allow v, s₁)
        → Handled out
    -- A streaming rule panics.
    crashed :
        (subject_id : X.Uuid) (s₁ : S)
        → GoesOn
        → storage.upsert_subject event.subject s ≡ (ok subject_id, s₁)
        → Panics X storage event subject_id rules.streaming s₁
        → out ≡ panic
        → Handled out
    -- The verdict is that of all the rules that answered; the transaction and the decision are
    -- recorded, and an error of either write changes nothing.
    decided :
        (v : Verdict) (subject_id : X.Uuid) (s₁ s₂ : S) (phase3 : List RuleResult)
        → GoesOn
        → storage.upsert_subject event.subject s ≡ (ok subject_id, s₁)
        → Streamed X storage event subject_id rules.streaming s₁ phase3 s₂
        → IsVerdict (phase1 ++ phase3) v
        → out ≡ done (answer ok_200 v.decision v, recorded subject_id v s₂)
        → Handled out

  after-Phase3 :
      (subject_id : X.Uuid) (s₁ : S) (v : Verdict) (out : Outcome (Verdict × S))
      → storage.upsert_subject event.subject s ≡ (ok subject_id, s₁)
      → IsVerdict phase1 v
      → v.decision ≢ reject_fatal
      → Phase3 X storage event subject_id rules.streaming v s₁ out
      → Handled (
          ◌>>=◌ {B = HttpResponse X × S} out λ r. done (
            record_and_respond X storage to_value req ambient rules.policy_version event subject_id
              r.0 r.1))
  unfolding record_and_respond
  after-Phase3 subject_id s₁ v out e w n (completed results s₂ t o) = rw o (
      decided (absorb_all results v) subject_id s₁ s₂ results (v, w, n) e t
        (absorb_all-IsVerdict phase1 results v w) refl)
  after-Phase3 subject_id s₁ v out e w n (aborted p o) =
      rw o (crashed subject_id s₁ (v, w, n) e p refl)

  upserted :
      (v : Verdict) (r : Result X.Uuid × S)
      → IsVerdict phase1 v
      → v.decision ≢ reject_fatal
      → storage.upsert_subject event.subject s ≡ r
      → Handled (after_upsert X storage to_value rules req ambient event v r)
  unfolding after_upsert respond
  upserted v (err message, s₁) w n e = failed_open v message s₁ w n e refl
  upserted v (ok subject_id, s₁) w n e =
      after-Phase3 subject_id s₁ v _ e w n
        (evaluate_streaming-Phase3 X storage event subject_id rules.streaming v s₁)

  -- For every storage, rule set and request, the handler ends in one of four ways. A fatal verdict of
  -- the inline rules is the answer, with status 200, and the storage is as it was. If the upsert of
  -- the subject fails, the answer is Allow with status 500 and the evidence of the inline rules. If
  -- a streaming rule panics, so does the handler. Otherwise, the inline rules not being fatal and the
  -- upsert having succeeded, the answer, with status 200, is the
  -- verdict on the results of all the inline rules and of the streaming rules that answered, and
  -- the transaction and the decision are written after the streaming rules ran.
  pub handle_decision-Handled : Handled (handle_decision X storage to_value rules ambient req s)
  unfolding handle_decision respond
  handle_decision-Handled =
      let v = inline_verdict X event rules.inline in
      let w = evaluate_inline-IsVerdict X event rules.inline in
      elim (Bool-cases (is_fatal v.decision)) [
        | inl y ↦ rw y (
            rejected v w (is_fatal-eq _ y) (
              ap (λ d. done (respond X ok_200 d rules.policy_version v.evidence, s))
                (is_fatal-eq _ y)))
        | inr n ↦ rw n (upserted v _ w (not_fatal-ne _ n) refl)
      ]

  -- A fatal verdict of the inline rules is the answer, and the storage is not touched.
  pub handle_decision-fatal :
      (inline_verdict X event rules.inline).decision ≡ reject_fatal
      → handle_decision X storage to_value rules ambient req s
        ≡ done (answer ok_200 reject_fatal (inline_verdict X event rules.inline), s)
  unfolding handle_decision respond is_fatal
  handle_decision-fatal e = rw e

  version_of :
      (r r' : HttpResponse X) {a b : S}
      → ◌≡◌ {A = Outcome (HttpResponse X × S)} (done (r, a)) (done (r', b))
      → r.body.policy_version ≡ rules.policy_version
      → r'.body.policy_version ≡ rules.policy_version
  version_of r r' q h = ground arith

  answered_version :
      {out : Outcome (HttpResponse X × S)} (response : HttpResponse X) (s' : S)
      → Handled out
      → out ≡ done (response, s')
      → response.body.policy_version ≡ rules.policy_version
  unfolding Response.new
  answered_version response s' (rejected v w f e) p = version_of _ _ (sym e ∙ p) refl
  answered_version response s' (failed_open v message s₁ w n u e) p =
      version_of _ _ (sym e ∙ p) refl
  answered_version response s' (crashed _ _ _ _ _ e) p = cc (e, p)
  answered_version response s' (decided v id s₁ s₂ results _ u t w e) p =
      version_of _ _ (sym e ∙ p) refl

  -- An answer names the version of the rules that gave it.
  pub handle_decision-version :
      (response : HttpResponse X) (s' : S)
      → handle_decision X storage to_value rules ambient req s ≡ done (response, s')
      → response.body.policy_version ≡ rules.policy_version
  handle_decision-version response s' = answered_version response s' handle_decision-Handled
