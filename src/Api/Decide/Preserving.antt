-- ===== src/Api/Decide/Preserving.antt =====
-- What the operations of a storage keep, a request keeps.
use riskr_rs.Base.{◌≡◌, sym, ap, ◌∙◌, subst, List, Text, Option, ok, err, Outcome, done, All, arith}
use riskr_rs.Crates.{Crates}
use riskr_rs.Domain.Evidence.{RuleResult}
use riskr_rs.Domain.Event.{TxEvent}
use riskr_rs.Domain.Subject.{Subject}
use riskr_rs.Domain.Policy.{Policy}
use riskr_rs.Rules.Traits.{StreamingRule}
use riskr_rs.Rules.RuleSet.{RuleSet, from_policy}
use riskr_rs.Rules.RuleSet.Preserving.{Preserves, QueriesPreserve, from_policy-Preserve}
use riskr_rs.Storage.{Storage, TransactionRecord, DecisionRecord}
use riskr_rs.Api.Request.{DecisionRequest}
use riskr_rs.Api.Decide.{Ambient, HttpResponse, handle_decision}
use riskr_rs.Api.Decide.Phases.{Streamed, finished, answered, skipped}
use riskr_rs.Api.Decide.Handling.{
  Handled, rejected, failed_open, crashed, decided, handle_decision-Handled, event,
}

module _ (X : Crates) {S : Type 0} (storage : Storage X S) (R : S → S → Type 0) where
  -- The writes of a request.
  pub record WritesPreserve : Type 0 where
    pub upsert : (subject : Subject) (s : S) → R s (storage.upsert_subject subject s).1
    pub transaction : (tx : TransactionRecord X) (s : S) → R s (storage.record_transaction tx s).1
    pub decision : (d : DecisionRecord X) (s : S) → R s (storage.record_decision d s).1

  module _ (R_refl : (s : S) → R s s) (R_trans : (a b c : S) → R a b → R b c → R a c) where
    pub Streamed-Preserves :
        (ev : TxEvent X) (id : X.Uuid) {rules : List (StreamingRule X S)} {s s' : S}
        {results : List RuleResult}
        → Streamed X storage ev id rules s results s'
        → All (Preserves X storage R) rules
        → R s s'
    Streamed-Preserves ev id (finished {s = a} e) h = subst (R a) e (R_refl a)
    Streamed-Preserves ev id (answered {s = a} {s₁ = b} {r} e t) h =
        R_trans a b _ (h.0 ev id a b (ok r) e) (Streamed-Preserves ev id t h.1)
    Streamed-Preserves ev id (skipped {s = a} {s₁ = b} message e t) h =
        R_trans a b _ (h.0 ev id a b (err message) e) (Streamed-Preserves ev id t h.1)

    module _ (to_value : DecisionRequest X → Option X.Json) (rules : RuleSet X S)
        (ambient : Ambient X) (req : DecisionRequest X) (s : S) (writes : WritesPreserve)
        (keep : All (Preserves X storage R) rules.streaming) where
      final :
          {r r' : HttpResponse X} {a b : S}
          → R s a
          → ◌≡◌ {A = Outcome (HttpResponse X × S)} (done (r, a)) (done (r', b))
          → R s b
      final {a} {b} h q = subst (R s) same h
        where
          same : a ≡ b
          same = ground arith

      Handled-Preserves :
          {out : Outcome (HttpResponse X × S)} (response : HttpResponse X) (s' : S)
          → Handled X storage to_value rules ambient req s out
          → out ≡ done (response, s')
          → R s s'
      Handled-Preserves response s' (rejected v w f e) p = final (R_refl s) (sym e ∙ p)
      Handled-Preserves response s' (failed_open v message s₁ w n u e) p =
          final (subst (R s) (ap (λ r. r.1) u) (writes.upsert _ s)) (sym e ∙ p)
      Handled-Preserves response s' (crashed id s₁ g u t e) p = cc (e, p)
      Handled-Preserves response s' (decided v id s₁ s₂ results g u t w e) p =
          final
            (R_trans s s₁ _ (subst (R s) (ap (λ r. r.1) u) (writes.upsert _ s)) (
              R_trans s₁ s₂ _
                (Streamed-Preserves (event X storage to_value rules ambient req s) id t keep)
                (R_trans s₂ _ _ (writes.transaction _ s₂) (writes.decision _ _))))
            (sym e ∙ p)

    -- Every request that is answered under the rules of a policy.
    pub handle_decision-Preserves :
        QueriesPreserve X storage R
        → WritesPreserve
        → (to_value : DecisionRequest X → Option X.Json) (policy : Policy X) (sanctions : List Text)
          (ambient : Ambient X) (req : DecisionRequest X) (s s' : S) (response : HttpResponse X)
        → handle_decision X storage to_value (from_policy X policy sanctions) ambient req s
          ≡ done (response, s')
        → R s s'
    handle_decision-Preserves queries writes to_value policy sanctions ambient req s s' response e =
        let rules = from_policy X policy sanctions in
        Handled-Preserves to_value rules ambient req s writes
          (from_policy-Preserve X storage R queries policy sanctions) response s'
          (handle_decision-Handled X storage to_value rules ambient req s) e
