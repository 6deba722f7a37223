-- ===== src/Api/Decide/Journaled.antt =====
-- What a request leaves in the journal of any storage that keeps one.
use riskr_rs.Base.{
  ◌≡◌, ◌⊎◌, inl, inr, refl, sym, ap, ◌∙◌, List, [], ◌∷◌, ◌++◌, Text, Option, some, Outcome, done,
  panic,
}
use riskr_rs.Crates.{Crates}
use riskr_rs.Domain.Decision.{reject_fatal, debug}
use riskr_rs.Domain.Policy.{Policy}
use riskr_rs.Rules.RuleSet.{RuleSet, from_policy}
use riskr_rs.Rules.RuleSet.Preserving.{QueriesPreserve, from_policy-Preserve}
use riskr_rs.Storage.{Storage, TransactionRecord, DecisionRecord}
use riskr_rs.Storage.Journal.{Entry, Journal, entry_of, add_transaction, Written-cases, IsJournaled}
use riskr_rs.Api.Request.{DecisionRequest}
use riskr_rs.Api.Response
use riskr_rs.Api.Decide.{
  Verdict, Ambient, HttpResponse, ok_200, internal_server_error_500, handle_decision,
  transaction_record, decision_record,
}
use riskr_rs.Api.Decide.Preserving.{Streamed-Preserves}
use riskr_rs.Api.Decide.Handling.{
  Handled, rejected, failed_open, crashed, decided, answer, recorded, event,
  handle_decision-Handled,
}

-- An answer's records, of which either may be missing: the transaction of a subject, and the
-- decision on it, as it was answered.
pub record Noted (X : Crates) (response : HttpResponse X) (version : Text) (j j' : Journal X)
    : Type 0 where
  pub tx : TransactionRecord X
  pub entry : Entry X
  pub transactions :
      (j'.transactions ≡ j.transactions) ⊎ (j'.transactions ≡ j.transactions ++ tx ∷ [])
  pub decisions : (j'.decisions ≡ j.decisions) ⊎ (j'.decisions ≡ j.decisions ++ entry ∷ [])
  pub same_subject : entry.subject_id ≡ some tx.subject_id
  pub decision : entry.decision ≡ debug response.body.decision
  pub decision_code : entry.decision_code ≡ response.body.decision_code
  pub policy_version : entry.policy_version ≡ response.body.policy_version
  pub served : response.body.policy_version ≡ version

module _ (X : Crates) {S : Type 0} (storage : Storage X S) (journal : S → Journal X) where
  -- How a request may end.
  pub data Journals (version : Text) (s : S) (out : Outcome (HttpResponse X × S)) : Type 0 where
    unnoted :
        (response : HttpResponse X) (s' : S)
        → (response.body.decision ≡ reject_fatal) ⊎ (response.status ≡ internal_server_error_500)
        → journal s' ≡ journal s
        → out ≡ done (response, s')
        → Journals version s out
    noted :
        (response : HttpResponse X) (s' : S)
        → response.status ≡ ok_200
        → Noted X response version (journal s) (journal s')
        → out ≡ done (response, s')
        → Journals version s out
    aborted : out ≡ panic → Journals version s out

  module _ (laws : IsJournaled X storage journal) where
    -- The journal is as it was.
    abbrev Kept : S → S → Type 0
    Kept s s' = journal s' ≡ journal s

    queries : QueriesPreserve X storage Kept
    queries = record { volume = laws.volume; count = laws.count }

    module _ (to_value : DecisionRequest X → Option X.Json) (policy : Policy X)
        (sanctions : List Text) (ambient : Ambient X) (req : DecisionRequest X) (s : S) where
      abbrev rules : RuleSet X S
      rules = from_policy X policy sanctions

      two_writes :
          (v : Verdict) (id : X.Uuid) (s₂ : S)
          → journal s₂ ≡ journal s
          → Noted X
              (answer X storage to_value rules ambient req s ok_200 v.decision v)
              rules.policy_version
              (journal s)
              (journal (recorded X storage to_value rules ambient req s id v s₂))
      unfolding transaction_record decision_record Response.new entry_of
      two_writes v id s₂ kept = record {
        tx = transaction;
        entry = entry_of decision;
        transactions = elim (Written-cases (laws.decision decision s₃)) [
          | inl e ↦ by_first (ap (λ j. j.transactions) e)
          | inr e ↦ by_first (ap (λ j. j.transactions) e)
        ];
        decisions = elim (Written-cases (laws.decision decision s₃)) [
          | inl e ↦ inl (ap (λ j. j.decisions) e ∙ first_decisions)
          | inr e ↦
              inr (ap (λ j. j.decisions) e ∙ ap (λ l. l ++ entry_of decision ∷ []) first_decisions)
        ];
        same_subject = refl;
        decision = refl;
        decision_code = refl;
        policy_version = refl;
        served = refl;
      }
        where
          transaction : TransactionRecord X
          transaction = transaction_record X (event X storage to_value rules ambient req s) id

          decision : DecisionRecord X
          decision = decision_record X to_value req id v rules.policy_version ambient.elapsed_ms

          s₃ : S
          s₃ = (storage.record_transaction transaction s₂).1

          first_write :
              (journal s₃ ≡ journal s) ⊎ (journal s₃ ≡ add_transaction transaction (journal s))
          first_write = elim (Written-cases (laws.transaction transaction s₂)) [
            | inl e ↦ inl (e ∙ kept)
            | inr e ↦ inr (e ∙ ap (add_transaction transaction) kept)
          ]

          first_decisions : (journal s₃).decisions ≡ (journal s).decisions
          first_decisions = elim first_write [
            | inl e ↦ ap (λ j. j.decisions) e
            | inr e ↦ ap (λ j. j.decisions) e
          ]

          by_first :
              {l : List (TransactionRecord X)}
              → l ≡ (journal s₃).transactions
              → (l ≡ (journal s).transactions) ⊎ (l ≡ (journal s).transactions ++ transaction ∷ [])
          by_first p = elim first_write [
            | inl e ↦ inl (p ∙ ap (λ j. j.transactions) e)
            | inr e ↦ inr (p ∙ ap (λ j. j.transactions) e)
          ]

      Handled-Journals :
          {out : Outcome (HttpResponse X × S)}
          → Handled X storage to_value rules ambient req s out
          → Journals rules.policy_version s out
      unfolding Response.new
      Handled-Journals (rejected v w f e) = unnoted _ _ (inl refl) refl e
      Handled-Journals (failed_open v message s₁ w n u e) =
          unnoted _ _ (inr refl)
            (ap (λ r. journal r.1) (sym u)
              ∙ laws.upsert (event X storage to_value rules ambient req s).subject s)
            e
      Handled-Journals (crashed id s₁ g u p e) = aborted e
      Handled-Journals (decided v id s₁ s₂ results g u t w e) =
          noted _ _ refl
            (two_writes v id s₂ (
              Streamed-Preserves X storage Kept (λ a. refl) (λ a b c p q. q ∙ p)
                (event X storage to_value rules ambient req s) id t
                (from_policy-Preserve X storage Kept queries policy sanctions)
              ∙ ap (λ r. journal r.1) (sym u)
              ∙ laws.upsert (event X storage to_value rules ambient req s).subject s))
            e

      -- Over every storage that keeps a journal, under the rules of a policy, a request ends in one
      -- of three ways: a fatal rejection or an answer with status 500, which leave the journal as
      -- it was; an answer with status 200, which adds to it at most one transaction and one
      -- decision, the latter on the same subject and as it was answered, under the version of the
      -- policy's rules; or a crash.
      pub handle_decision-Journals :
          Journals rules.policy_version s (handle_decision X storage to_value rules ambient req s)
      handle_decision-Journals =
          Handled-Journals (handle_decision-Handled X storage to_value rules ambient req s)
