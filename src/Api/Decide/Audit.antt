-- ===== src/Api/Decide/Audit.antt =====
-- What requests leave in the in-memory storage.
use riskr_rs.Base.{
  ◌≤◌, arith, ◌≡◌, refl, sym, ap, ◌∙◌, List, [], ◌∷◌, ◌++◌, Text, Option, some, ok, err, Outcome,
  done, panic, All,
}
use riskr_rs.Crates.{Crates}
use riskr_rs.Domain.Decision.{reject_fatal}
use riskr_rs.Domain.Evidence.{RuleResult}
use riskr_rs.Domain.Event.{TxEvent}
use riskr_rs.Domain.Policy.{Policy}
use riskr_rs.Rules.Traits.{StreamingRule}
use riskr_rs.Rules.RuleSet.{RuleSet, from_policy}
use riskr_rs.Rules.RuleSet.Readers.{IsReader, Readers, from_policy-Readers}
use riskr_rs.Storage.{TransactionRecord, DecisionRecord}
use riskr_rs.Storage.Mock.{MockStorage, mock, record_transaction, record_decision}
use riskr_rs.Storage.Mock.Subjects.{Upserted, upsert_subject-Upserted}
use riskr_rs.Api.Request.{DecisionRequest}
use riskr_rs.Api.Response
use riskr_rs.Api.Decide.{
  Verdict, Ambient, HttpResponse, ok_200, handle_decision, transaction_record, decision_record,
}
use riskr_rs.Api.Decide.Phases.{Streamed, finished, answered, skipped}
use riskr_rs.Api.Decide.Handling.{
  Handled, rejected, failed_open, decided, answer, recorded, event, handle_decision-Handled,
}

module _ (X : Crates) (event : TxEvent X) (subject_id : X.Uuid) where
  Streamed-Readers :
      {rules : List (StreamingRule X (MockStorage X))} {s s' : MockStorage X}
      {results : List RuleResult}
      → Streamed X (mock X) event subject_id rules s results s'
      → All (IsReader X) rules
      → s' ≡ s
  Streamed-Readers (finished e) h = sym e
  Streamed-Readers (answered {s = a} {s₁ = b} {r} e t) h =
      Streamed-Readers t h.1 ∙ h.0 event subject_id a b (ok r) e
  Streamed-Readers (skipped {s = a} {s₁ = b} message e t) h =
      Streamed-Readers t h.1 ∙ h.0 event subject_id a b (err message) e

module _ (X : Crates) (to_value : DecisionRequest X → Option X.Json)
    (rules : RuleSet X (MockStorage X)) (ambient : Ambient X) (req : DecisionRequest X)
    (s : MockStorage X) where
  abbrev pub upserted_state : MockStorage X
  upserted_state =
      ((mock X).upsert_subject (event X (mock X) to_value rules ambient req s).subject s).1

  -- The trace of a decision: one transaction and one decision, which is the one answered.
  pub record Traced (response : HttpResponse X) (s' : MockStorage X) : Type 0 where
    pub tx : TransactionRecord X
    pub entry : DecisionRecord X
    pub status : response.status ≡ ok_200
    pub transactions : s'.recorded_transactions ≡ s.recorded_transactions ++ tx ∷ []
    pub decisions : s'.recorded_decisions ≡ s.recorded_decisions ++ entry ∷ []
    pub decision : entry.decision ≡ response.body.decision
    pub decision_code : entry.decision_code ≡ response.body.decision_code
    pub policy_version : entry.policy_version ≡ response.body.policy_version
    pub evidence : entry.evidence ≡ response.body.evidence
    pub same_subject : entry.subject_id ≡ some tx.subject_id
    pub served : entry.policy_version ≡ rules.policy_version
    pub volumes : s'.rolling_volumes ≡ s.rolling_volumes
    pub subjects : s'.subjects ≡ upserted_state.subjects
    pub drawn : upserted_state.drawn ≤ s'.drawn

  -- How a request may end.
  pub data Audited (out : Outcome (HttpResponse X × MockStorage X)) : Type 0 where
    -- A fatal rejection leaves no trace at all.
    untraced :
        (response : HttpResponse X)
        → response.status ≡ ok_200
        → response.body.decision ≡ reject_fatal
        → out ≡ done (response, s)
        → Audited out
    traced :
        (response : HttpResponse X) (s' : MockStorage X)
        → Traced response s'
        → out ≡ done (response, s')
        → Audited out
    crashed : out ≡ panic → Audited out

  module _ (readers : Readers X rules) (id : X.Uuid) (s₁ s₂ : MockStorage X)
      (results : List RuleResult)
      (upserted : (mock X).upsert_subject (event X (mock X) to_value rules ambient req s).subject s
        ≡ (ok id, s₁))
      (ran : Streamed X
        (mock X)
        (event X (mock X) to_value rules ambient req s)
        id
        rules.streaming
        s₁
        results
        s₂) where
    abbrev upsert :
        Upserted X
          (event X (mock X) to_value rules ambient req s).subject
          s
          ((mock X).upsert_subject (event X (mock X) to_value rules ambient req s).subject s)
    upsert = upsert_subject-Upserted X (event X (mock X) to_value rules ambient req s).subject s

    kept_by_rules : {A : Type 0} (f : MockStorage X → A) → f s₂ ≡ f upserted_state
    kept_by_rules f =
        ap f (Streamed-Readers X (event X (mock X) to_value rules ambient req s) id ran readers)
        ∙ ap (λ r. f r.1) (sym upserted)

    -- The upsert and the streaming rules write no record.
    unwritten :
        {A : Type 0} (f : MockStorage X → A)
        → f ((mock X).upsert_subject (event X (mock X) to_value rules ambient req s).subject s).1
          ≡ f s
        → f s₂ ≡ f s
    unwritten f kept = kept_by_rules f ∙ kept

    decided-Traced :
        (v : Verdict)
        → Traced
            (answer X (mock X) to_value rules ambient req s ok_200 v.decision v)
            (recorded X (mock X) to_value rules ambient req s id v s₂)
    unfolding record_transaction record_decision transaction_record decision_record Response.new
    decided-Traced v = record {
      tx = transaction_record X (event X (mock X) to_value rules ambient req s) id;
      entry = decision_record X to_value req id v rules.policy_version ambient.elapsed_ms;
      status = refl;
      transactions =
          ap
            (λ l. l ++ transaction_record X (event X (mock X) to_value rules ambient req s) id ∷ [])
            (unwritten (λ m. m.recorded_transactions) upsert.records);
      decisions =
          ap
            (λ l.
              l ++ decision_record X to_value req id v rules.policy_version ambient.elapsed_ms ∷ [])
            (unwritten (λ m. m.recorded_decisions) upsert.decisions);
      decision = refl;
      decision_code = refl;
      policy_version = refl;
      evidence = refl;
      same_subject = refl;
      served = refl;
      volumes = unwritten (λ m. m.rolling_volumes) upsert.volumes;
      subjects = kept_by_rules (λ m. m.subjects);
      drawn = omega (arith, kept_by_rules (λ m. m.drawn));
    }

  Handled-Audited :
      Readers X rules
      → {out : Outcome (HttpResponse X × MockStorage X)}
      → Handled X (mock X) to_value rules ambient req s out
      → Audited out
  unfolding Response.new
  Handled-Audited readers (rejected v w f e) = untraced _ refl refl e
  Handled-Audited readers (failed_open v message s₁ w n u e) = cc (
    ap (λ r. r.0) u,
    (upsert_subject-Upserted X (event X (mock X) to_value rules ambient req s).subject s).answered,
  )
  Handled-Audited readers (Handled.crashed _ _ _ _ _ e) = crashed e
  Handled-Audited readers (decided v id s₁ s₂ results _ u t w e) =
      traced _ _ (decided-Traced readers id s₁ s₂ results u t v) e

  pub reading_rules-Audited :
      Readers X rules → Audited (handle_decision X (mock X) to_value rules ambient req s)
  reading_rules-Audited readers =
      Handled-Audited readers (handle_decision-Handled X (mock X) to_value rules ambient req s)

-- With the in-memory storage and the rules of a policy, a request ends in one of three ways: a
-- fatal rejection, which leaves the storage as it was; an answer with status 200, which adds one
-- transaction and one decision of the same subject, the latter as it was answered, and changes no
-- rolling volume; or a crash.
pub handle_decision-Audited :
    (X : Crates) (to_value : DecisionRequest X → Option X.Json) (policy : Policy X)
    (sanctions : List Text) (ambient : Ambient X) (req : DecisionRequest X) (s : MockStorage X)
    → let rules = from_policy X policy sanctions in
      Audited X to_value rules ambient req s
        (handle_decision X (mock X) to_value rules ambient req s)
handle_decision-Audited X to_value policy sanctions ambient req s =
    reading_rules-Audited X to_value (from_policy X policy sanctions) ambient req s
      (from_policy-Readers X policy sanctions)
