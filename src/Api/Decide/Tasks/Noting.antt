-- ===== src/Api/Decide/Tasks/Noting.antt =====
-- What one call of a task adds to the journal of any storage that keeps one.
use riskr_rs.Base.{
  Gains, gains_none, ℕ, ◌+◌, ◌≤◌, ◌≡◌, refl, ap, subst, inl, inr, arith, Option, List, [], ◌∷◌,
  Result, ok, err, Outcome, done, done-injective, panic, ◌>>=◌, All,
}
use riskr_rs.Crates.{Crates}
use riskr_rs.Domain.Decision.{debug}
use riskr_rs.Domain.Evidence.{RuleResult}
use riskr_rs.Rules.Traits.{StreamingRule}
use riskr_rs.Rules.RuleSet.Preserving.{Preserves}
use riskr_rs.Storage.{Storage, TransactionRecord, DecisionRecord}
use riskr_rs.Storage.Journal.{Entry, Journal, entry_of, Written-cases, IsJournaled}
use riskr_rs.Api.Request.{DecisionRequest}
use riskr_rs.Api.Response
use riskr_rs.Api.Decide.{
  ok_200, respond, Verdict, absorb_streamed, transaction_record, decision_record,
}
use riskr_rs.Api.Decide.Tasks.{
  decided, Request, Task, upserting, evaluating, recording, answered, event_of, upserted, advance,
}
use riskr_rs.Api.Decide.Tasks.Counts.{transactions_of, decisions_of}
use riskr_rs.Api.Decide.Tasks.Preserving.{TaskPreserves}

module _ (X : Crates) {S : Type 0} where
  -- The task has answered what the entry says.
  abbrev pub Answers : Entry X → Task X S → Type 0
  Answers entry (answered decided response) =
      (entry.decision ≡ debug response.body.decision)
      × (entry.decision_code ≡ response.body.decision_code)
      × (entry.policy_version ≡ response.body.policy_version)
  Answers entry _ = ⊥

module _ (X : Crates) {S : Type 0} (storage : Storage X S) (journal : S → Journal X) where
  -- The journal is as it was.
  abbrev pub Kept : S → S → Type 0
  Kept s s' = journal s' ≡ journal s

  -- What one call of a task adds, and what the task answers for.
  pub record Notes (task task' : Task X S) (s s' : S) : Type 0 where
    pub rules : TaskPreserves X storage Kept task'
    pub transactions_gap : ℕ
    pub transactions : Gains transactions_gap (journal s).transactions (journal s').transactions
    pub transactions_fit : transactions_gap + transactions_of X task ≤ transactions_of X task'
    pub decisions_gap : ℕ
    pub decisions : Gains decisions_gap (journal s).decisions (journal s').decisions
    pub decisions_fit : decisions_gap + decisions_of X task ≤ decisions_of X task'
    pub answers : All (λ entry. Answers X entry task') decisions.new
    pub still : (entry : Entry X) → Answers X entry task → Answers X entry task'

  quiet :
      (task task' : Task X S) (s s' : S)
      → Kept s s'
      → TaskPreserves X storage Kept task'
      → transactions_of X task ≤ transactions_of X task'
      → decisions_of X task ≤ decisions_of X task'
      → ((entry : Entry X) → Answers X entry task → Answers X entry task')
      → Notes task task' s s'
  quiet task task' s s' e h t d still = record {
    rules = h;
    transactions_gap = 0;
    transactions = gains_none 0 (ap (λ j. j.transactions) e);
    transactions_fit = omega (arith, t);
    decisions_gap = 0;
    decisions = gains_none 0 (ap (λ j. j.decisions) e);
    decisions_fit = omega (arith, d);
    answers = tt;
    still = still;
  }

  module _ (laws : IsJournaled X storage journal)
      (to_value : DecisionRequest X → Option X.Json) where
    upserted-Notes :
        (q : Request X S) (v : Verdict) (s s' : S) (r : Result X.Uuid)
        → Kept s s'
        → All (Preserves X storage Kept) q.rules.streaming
        → Notes (upserting q v) (upserted X q v (r, s')).0 s (upserted X q v (r, s')).1
    unfolding upserted
    upserted-Notes q v s s' (ok id) e h =
        quiet _ _ s s' e h (omega arith) (omega arith) (λ entry p. p)
    upserted-Notes q v s s' (err message) e h =
        quiet _ _ s s' e tt (omega arith) (omega arith) (λ entry p. p)

    turn-Notes :
        (q : Request X S) (id : X.Uuid) (rule : StreamingRule X S)
        (rules : List (StreamingRule X S)) (v : Verdict) (s : S) (task' : Task X S) (s' : S)
        (o : Outcome (Result RuleResult × S))
        → rule.evaluate storage (event_of X q) id s ≡ o
        → All (Preserves X storage Kept) (rule ∷ rules)
        → ◌>>=◌ {B = Task X S × S} o
            (λ r. done (evaluating q id rules (absorb_streamed v r.0), r.1))
          ≡ done (task', s')
        → Notes (evaluating q id (rule ∷ rules) v) task' s s'
    turn-Notes q id rule rules v s task' s' (done (r, s₁)) ran h e =
        subst (λ x. Notes (evaluating q id (rule ∷ rules) v) x.0 s x.1) (done-injective e)
          (quiet _ _ s s₁ (h.0 (event_of X q) id s s₁ r ran) h.1 (omega arith) (omega arith)
            (λ entry p. p))
    turn-Notes q id rule rules v s task' s' panic ran h e = cc

    transaction-Notes :
        (q : Request X S) (id : X.Uuid) (v : Verdict) (s : S)
        → Notes
            (evaluating q id [] v)
            (recording q id v)
            s
            (storage.record_transaction (transaction_record X (event_of X q) id) s).1
    transaction-Notes q id v s = elim (Written-cases (laws.transaction tx s)) [
      | inl e ↦ quiet _ _ s _ e tt (omega arith) (omega arith) (λ entry p. p)
      | inr e ↦ record {
        rules = tt;
        transactions_gap = 1;
        transactions = record {
          new = tx ∷ [];
          grown = ap (λ j. j.transactions) e;
          few = omega arith;
        };
        transactions_fit = omega arith;
        decisions_gap = 0;
        decisions = gains_none 0 (ap (λ j. j.decisions) e);
        decisions_fit = omega arith;
        answers = tt;
        still = λ entry p. p;
      }
    ]
      where
        tx : TransactionRecord X
        tx = transaction_record X (event_of X q) id

    decision-Notes :
        (q : Request X S) (id : X.Uuid) (v : Verdict) (s : S)
        → Notes
            (recording q id v)
            (answered decided (respond X ok_200 v.decision q.rules.policy_version v.evidence))
            s
            (storage.record_decision
              (decision_record X to_value q.req id v q.rules.policy_version q.ambient.elapsed_ms)
              s).1
    unfolding decision_record respond Response.new entry_of
    decision-Notes q id v s = elim (Written-cases (laws.decision d s)) [
      | inl e ↦ quiet _ _ s _ e tt (omega arith) (omega arith) (λ entry p. absurd p)
      | inr e ↦ record {
        rules = tt;
        transactions_gap = 0;
        transactions = gains_none 0 (ap (λ j. j.transactions) e);
        transactions_fit = omega arith;
        decisions_gap = 1;
        decisions = record {
          new = entry_of d ∷ [];
          grown = ap (λ j. j.decisions) e;
          few = omega arith;
        };
        decisions_fit = omega arith;
        answers = ((refl, refl, refl), tt);
        still = λ entry p. absurd p;
      }
    ]
      where
        d : DecisionRecord X
        d = decision_record X to_value q.req id v q.rules.policy_version q.ambient.elapsed_ms

    pub advance-Notes :
        (task task' : Task X S) (s s' : S)
        → TaskPreserves X storage Kept task
        → advance X storage to_value task s ≡ done (task', s')
        → Notes task task' s s'
    unfolding advance
    advance-Notes (upserting q v) task' s s' h e =
        subst (λ x. Notes (upserting q v) x.0 s x.1) (done-injective e)
          (upserted-Notes q v s _ _ (laws.upsert (event_of X q).subject s) h)
    advance-Notes (evaluating q id [] v) task' s s' h e =
        subst (λ x. Notes (evaluating q id [] v) x.0 s x.1) (done-injective e)
          (transaction-Notes q id v s)
    advance-Notes (evaluating q id (rule ∷ rules) v) task' s s' h e =
        turn-Notes q id rule rules v s task' s' _ refl h e
    advance-Notes (recording q id v) task' s s' h e =
        subst (λ x. Notes (recording q id v) x.0 s x.1) (done-injective e) (decision-Notes q id v s)
    advance-Notes (answered ending response) task' s s' h e =
        subst (λ x. Notes (answered ending response) x.0 s x.1) (done-injective e)
          (quiet _ _ s s refl tt (omega arith) (omega arith) (λ entry p. p))
