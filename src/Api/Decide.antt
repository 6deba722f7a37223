-- ===== src/Api/Decide.antt =====
-- src/api/routes.rs: the handler of decision requests. The logging is left out; it changes nothing.
pub mod Verdicts
pub mod Inline
pub mod Phases
pub mod Handling
pub mod Sanctioned
pub mod Preserving
pub mod Persisted
pub mod Journaled
pub mod Tasks
pub mod Audit
pub mod Turns
pub mod Volume
use mathlib.Core.Option
use riskr_rs.Base.{
  ℕ, ◌%◌, ◌^◌, Bool, Option, none, some, List, [], ◌∷◌, ◌++◌, Text, Result, ok, err, Outcome, done,
  panic, ◌>>=◌, if◌then◌else◌,
}
use riskr_rs.Crates.{Crates}
use riskr_rs.Domain.Decision.{Decision, allow, gt, is_fatal}
use riskr_rs.Domain.Evidence.{Evidence, RuleResult}
use riskr_rs.Domain.Event.{TxEvent, debug_direction}
use riskr_rs.Rules.Traits.{InlineRule, StreamingRule}
use riskr_rs.Rules.RuleSet.{RuleSet}
use riskr_rs.Storage.{Storage, TransactionRecord, DecisionRecord}
use riskr_rs.Api.Request.{DecisionRequest, to_tx_event}
use riskr_rs.Api.Response
use riskr_rs.Api.Response.{DecisionResponse, code_of}

-- `axum::http::StatusCode`, as far as the handlers use it.
pub data StatusCode : Type 0 where
  ok_200 internal_server_error_500 service_unavailable_503 : StatusCode

-- The handler's two mutable variables, `final_decision` and `evidence`.
pub record Verdict : Type 0 where
  pub decision : Decision
  pub evidence : List Evidence

abbrev pub initial : Verdict
initial = record { decision = allow; evidence = [] }

abbrev pub push : Option Evidence → List Evidence → List Evidence
push none evidence = evidence
push (some ev) evidence = evidence ++ ev ∷ []

-- The body of both loops once a rule has a result.
unfoldable pub absorb : RuleResult → Verdict → Verdict
unfolding gt
absorb result v =
    if result.hit
    then record {
      decision = if gt result.decision v.decision then result.decision else v.decision;
      evidence = push result.evidence v.evidence;
    }
    else v

module _ (X : Crates) where
  -- Phase 1.
  unfoldable pub evaluate_inline : TxEvent X → List (InlineRule X) → Verdict → Verdict
  evaluate_inline event [] v = v
  evaluate_inline event (rule ∷ rules) v =
      evaluate_inline event rules (absorb (rule.evaluate event) v)

  -- What a request draws from outside: the time, an identifier, and the milliseconds that have
  -- passed when the decision is recorded.
  pub record Ambient : Type 0 where
    pub now : X.DateTime
    pub event_uuid : X.Uuid
    pub elapsed_ms : ℕ

  pub record HttpResponse : Type 0 where
    pub status : StatusCode
    pub body : DecisionResponse X

  unfoldable pub transaction_record : TxEvent X → X.Uuid → TransactionRecord X
  transaction_record event subject_id = record {
    subject_id = subject_id;
    tx_type = debug_direction event.direction;
    asset = event.asset.value;
    amount = Option.get_or (X.parse_decimal event.amount) X.decimal_zero;
    usd_value = event.usd_value;
    dest_address = none;
  }

  respond : StatusCode → Decision → Text → List Evidence → HttpResponse
  respond status decision policy_version evidence = record {
    status = status;
    body = Response.new X decision policy_version evidence;
  }

-- `serde_json::to_value` of the request is a parameter. `elapsed.as_millis() as u32` keeps the low
-- 32 bits.
unfoldable pub decision_record :
    (X : Crates) (to_value : DecisionRequest X → Option X.Json)
    → DecisionRequest X
    → X.Uuid
    → Verdict
    → Text
    → (elapsed_ms : ℕ) → DecisionRecord X
unfolding code_of
decision_record X to_value req subject_id v policy_version elapsed_ms = record {
  subject_id = some subject_id;
  request = Option.get_or (to_value req) X.json_null;
  decision = v.decision;
  decision_code = code_of v.evidence;
  policy_version = policy_version;
  evidence = v.evidence;
  latency_ms = elapsed_ms % 2 ^ 32;
}

-- The `match` on one streaming rule's result: an error skips the rule.
abbrev absorb_streamed : Verdict → Result RuleResult → Verdict
absorb_streamed v (ok result) = absorb result v
absorb_streamed v (err message) = v

module _ (X : Crates) {S : Type 0} (storage : Storage X S) where
  -- Phase 3.
  unfoldable pub evaluate_streaming :
      TxEvent X → X.Uuid → List (StreamingRule X S) → Verdict → S → Outcome (Verdict × S)
  evaluate_streaming event subject_id [] v s = done (v, s)
  evaluate_streaming event subject_id (rule ∷ rules) v s = do
    (result, s') ← rule.evaluate storage event subject_id s
    evaluate_streaming event subject_id rules (absorb_streamed v result) s'

  module _ (to_value : DecisionRequest X → Option X.Json) where
    -- Phases 4 and 5: an error of either write is logged, and the answer is the same.
    record_and_respond :
        DecisionRequest X → Ambient X → Text → TxEvent X → X.Uuid → Verdict → S → HttpResponse X × S
    unfolding transaction_record decision_record respond
    record_and_respond req ambient policy_version event subject_id v s =
        let (_, s₁) = storage.record_transaction (transaction_record X event subject_id) s in
        let (_, s₂) =
          storage.record_decision
            (decision_record X to_value req subject_id v policy_version ambient.elapsed_ms) s₁ in
        (respond X ok_200 v.decision policy_version v.evidence, s₂)

    -- Phases 2 to 5, from the result of the upsert. An error fails open.
    after_upsert :
        RuleSet X S
        → DecisionRequest X
        → Ambient X
        → TxEvent X
        → Verdict
        → Result X.Uuid × S
        → Outcome (HttpResponse X × S)
    unfolding record_and_respond
    after_upsert rules req ambient event v (err message, s) =
        done (respond X internal_server_error_500 allow rules.policy_version v.evidence, s)
    after_upsert rules req ambient event v (ok subject_id, s) = do
      (v', s') ← evaluate_streaming event subject_id rules.streaming v s
      done (record_and_respond req ambient rules.policy_version event subject_id v' s')

    unfoldable pub handle_decision :
        RuleSet X S → Ambient X → DecisionRequest X → S → Outcome (HttpResponse X × S)
    unfolding after_upsert evaluate_inline
    handle_decision rules ambient req s =
        let event = to_tx_event X ambient.now ambient.event_uuid req in
        let v = evaluate_inline X event rules.inline initial in
        if is_fatal v.decision
        then done (respond X ok_200 v.decision rules.policy_version v.evidence, s)
        else after_upsert rules req ambient event v (storage.upsert_subject event.subject s)
