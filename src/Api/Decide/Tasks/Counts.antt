-- ===== src/Api/Decide/Tasks/Counts.antt =====
-- The records that one call of a task adds to the in-memory storage.
use riskr_rs.Base.{
  IsPrefix, IsPrefix-refl, IsPrefix-of_eq, ℕ, ◌+◌, ◌≡◌, refl, ap, subst, arith, Option, List, [],
  ◌∷◌, ◌++◌, length, length-append, Result, ok, err, Outcome, done, done-injective, panic, ◌>>=◌,
  All,
}
use riskr_rs.Crates.{Crates}
use riskr_rs.Domain.Evidence.{RuleResult}
use riskr_rs.Rules.Traits.{StreamingRule}
use riskr_rs.Rules.RuleSet.Readers.{IsReader, Readers}
use riskr_rs.Storage.Mock.{MockStorage, mock, record_transaction, record_decision}
use riskr_rs.Storage.Mock.Subjects.{upsert_subject-Upserted}
use riskr_rs.Api.Request.{DecisionRequest}
use riskr_rs.Api.Decide.{Verdict, absorb_streamed, transaction_record, decision_record}
use riskr_rs.Api.Decide.Tasks.{
  decided, Request, Task, upserting, evaluating, recording, answered, event_of, upserted, advance,
}

module _ (X : Crates) {S : Type 0} where
  -- The transactions and the decisions that a task has recorded.
  abbrev pub transactions_of : Task X S → ℕ
  transactions_of (recording q id v) = 1
  transactions_of (answered decided response) = 1
  transactions_of _ = 0

  abbrev pub decisions_of : Task X S → ℕ
  decisions_of (answered decided response) = 1
  decisions_of _ = 0

  abbrev pub total : (Task X S → ℕ) → List (Task X S) → ℕ
  total f [] = 0
  total f (task ∷ tasks) = f task + total f tasks

  pub total-append :
      (f : Task X S → ℕ) (before after : List (Task X S))
      → total f (before ++ after) ≡ total f before + total f after
  total-append f [] after = omega arith
  total-append f (task ∷ before) after = omega (arith, total-append f before after)

module _ (X : Crates) where
  -- The rules that a task has before it only read.
  abbrev pub ReadsOnly : Task X (MockStorage X) → Type 0
  ReadsOnly (upserting q v) = Readers X q.rules
  ReadsOnly (evaluating q id rules v) = All (IsReader X) rules
  ReadsOnly (recording q id v) = Unit
  ReadsOnly (answered ending response) = Unit

  module _ (to_value : DecisionRequest X → Option X.Json) where
    -- What one call of a task does to the records: those there are stay, and so many are added.
    pub record Counts (task task' : Task X (MockStorage X)) (s s' : MockStorage X) : Type 0 where
      pub reads : ReadsOnly task'
      pub kept_transactions : IsPrefix s.recorded_transactions s'.recorded_transactions
      pub kept_decisions : IsPrefix s.recorded_decisions s'.recorded_decisions
      pub transactions :
          length s'.recorded_transactions + transactions_of X task
          ≡ length s.recorded_transactions + transactions_of X task'
      pub decisions :
          length s'.recorded_decisions + decisions_of X task
          ≡ length s.recorded_decisions + decisions_of X task'

    upserted-Counts :
        (q : Request X (MockStorage X)) (v : Verdict) (s s' : MockStorage X) (r : Result X.Uuid)
        → Readers X q.rules
        → s'.recorded_transactions ≡ s.recorded_transactions
        → s'.recorded_decisions ≡ s.recorded_decisions
        → Counts (upserting q v) (upserted X q v (r, s')).0 s (upserted X q v (r, s')).1
    unfolding upserted
    upserted-Counts q v s s' (ok id) h p e = record {
      reads = h;
      kept_transactions = IsPrefix-of_eq p;
      kept_decisions = IsPrefix-of_eq e;
      transactions = omega (arith, ap length p);
      decisions = omega (arith, ap length e);
    }
    upserted-Counts q v s s' (err m) h p e = record {
      reads = tt;
      kept_transactions = IsPrefix-of_eq p;
      kept_decisions = IsPrefix-of_eq e;
      transactions = omega (arith, ap length p);
      decisions = omega (arith, ap length e);
    }

    turn-Counts :
        (q : Request X (MockStorage X)) (id : X.Uuid) (rule : StreamingRule X (MockStorage X))
        (rules : List (StreamingRule X (MockStorage X))) (v : Verdict)
        (task' : Task X (MockStorage X)) (s s' : MockStorage X)
        (o : Outcome (Result RuleResult × MockStorage X))
        → IsReader X rule
        → All (IsReader X) rules
        → rule.evaluate (mock X) (event_of X q) id s ≡ o
        → ◌>>=◌ {B = Task X (MockStorage X) × MockStorage X} o
            (λ r. done (evaluating q id rules (absorb_streamed v r.0), r.1))
          ≡ done (task', s')
        → Counts (evaluating q id (rule ∷ rules) v) task' s s'
    turn-Counts q id rule rules v task' s s' (done (r, s₁)) reader h e p =
        subst (λ x. Counts (evaluating q id (rule ∷ rules) v) x.0 s x.1) (done-injective p)
          (rw (reader (event_of X q) id s s₁ r e) (record {
            reads = h;
            kept_transactions = IsPrefix-refl _;
            kept_decisions = IsPrefix-refl _;
            transactions = refl;
            decisions = refl;
          }))
    turn-Counts q id rule rules v task' s s' panic reader h e p = cc

    pub advance-Counts :
        (task task' : Task X (MockStorage X)) (s s' : MockStorage X)
        → ReadsOnly task
        → advance X (mock X) to_value task s ≡ done (task', s')
        → Counts task task' s s'
    unfolding advance record_transaction record_decision
    advance-Counts (upserting q v) task' s s' h e =
        let u = upsert_subject-Upserted X (event_of X q).subject s in
        subst (λ x. Counts (upserting q v) x.0 s x.1) (done-injective e)
          (upserted-Counts q v s _ _ h u.records u.decisions)
    advance-Counts (evaluating q id [] v) task' s s' h e =
        subst (λ x. Counts (evaluating q id [] v) x.0 s x.1) (done-injective e)
          (record {
            reads = tt;
            kept_transactions = (_, refl);
            kept_decisions = IsPrefix-refl _;
            transactions = omega (
              arith,
              length-append s.recorded_transactions (transaction_record X (event_of X q) id ∷ []),
            );
            decisions = refl;
          })
    advance-Counts (evaluating q id (rule ∷ rules) v) task' s s' h e =
        turn-Counts q id rule rules v task' s s' _ h.0 h.1 refl e
    advance-Counts (recording q id v) task' s s' h e =
        subst (λ x. Counts (recording q id v) x.0 s x.1) (done-injective e)
          (record {
            reads = tt;
            kept_transactions = IsPrefix-refl _;
            kept_decisions = (_, refl);
            transactions = refl;
            decisions = omega (
              arith,
              length-append s.recorded_decisions (
                  decision_record X to_value q.req id v q.rules.policy_version q.ambient.elapsed_ms
                  ∷ []),
            );
          })
    advance-Counts (answered ending response) task' s s' h e =
        subst (λ x. Counts (answered ending response) x.0 s x.1) (done-injective e)
          (record {
            reads = tt;
            kept_transactions = IsPrefix-refl _;
            kept_decisions = IsPrefix-refl _;
            transactions = refl;
            decisions = refl;
          })
