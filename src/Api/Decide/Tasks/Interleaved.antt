-- ===== src/Api/Decide/Tasks/Interleaved.antt =====
-- Any interleaving of requests over the in-memory storage, with reloads of the rules in between.
use riskr_rs.Base.{
  IsPrefix, IsPrefix-refl, IsPrefix-trans, ◌+◌, ◌≡◌, refl, ap, subst, inl, inr, arith, Option, [],
  ◌∷◌, length, All, All-append, All-middle, Bool-cases,
}
use riskr_rs.Crates.{Crates}
use riskr_rs.Domain.Decision.{is_fatal}
use riskr_rs.Rules.RuleSet.Readers.{Readers, from_policy-Readers}
use riskr_rs.Storage.Mock.{MockStorage, mock}
use riskr_rs.Api.Request.{DecisionRequest}
use riskr_rs.Api.Decide.{initial, evaluate_inline}
use riskr_rs.Api.Decide.Tasks.{
  Request, event_of, accept, Service, Move, accepts, advances, reloads, Moves, stays, goes,
}
use riskr_rs.Api.Decide.Tasks.Counts.{
  transactions_of, decisions_of, total, total-append, ReadsOnly, advance-Counts,
}

module _ (X : Crates) (to_value : DecisionRequest X → Option X.Json) where
  -- The tasks account for the records: those that the storage had at first, and those of the tasks.
  pub record Accounted (first : MockStorage X) (a : Service X (MockStorage X)) : Type 0 where
    pub reads : All (ReadsOnly X) a.tasks
    pub current_reads : Readers X a.current
    pub kept_transactions : IsPrefix first.recorded_transactions a.store.recorded_transactions
    pub kept_decisions : IsPrefix first.recorded_decisions a.store.recorded_decisions
    pub transactions_counted :
        length a.store.recorded_transactions
        ≡ length first.recorded_transactions + total X (transactions_of X) a.tasks
    pub decisions_counted :
        length a.store.recorded_decisions
        ≡ length first.recorded_decisions + total X (decisions_of X) a.tasks

  accept-Counts :
      (q : Request X (MockStorage X))
      → Readers X q.rules
      → ReadsOnly X (accept X q)
        × (transactions_of X (accept X q) ≡ 0)
        × (decisions_of X (accept X q) ≡ 0)
  unfolding accept
  accept-Counts q h =
      elim (Bool-cases
        (is_fatal (evaluate_inline X (event_of X q) q.rules.inline initial).decision)) [
          | inl y ↦ rw y (tt, refl, refl)
          | inr n ↦ rw n (h, refl, refl)
        ]

  Move-Accounted :
      (first : MockStorage X) (a b : Service X (MockStorage X))
      → Accounted first a
      → Move X (mock X) to_value a b
      → Accounted first b
  Move-Accounted first a b i (accepts ambient req e) = rw e (
      let q : Request X (MockStorage X) = record {
        rules = a.current;
        ambient = ambient;
        req = req;
      } in
      let (r, t, d) = accept-Counts q i.current_reads in
      record {
        reads = All-append (ReadsOnly X) a.tasks (accept X q ∷ []) i.reads (r, tt);
        current_reads = i.current_reads;
        kept_transactions = i.kept_transactions;
        kept_decisions = i.kept_decisions;
        transactions_counted = omega (
          arith,
          i.transactions_counted,
          t,
          total-append X (transactions_of X) a.tasks (accept X q ∷ []),
        );
        decisions_counted = omega (
          arith,
          i.decisions_counted,
          d,
          total-append X (decisions_of X) a.tasks (accept X q ∷ []),
        );
      })
  Move-Accounted first a b i (advances before after task task' s split e p) = rw p (
      let (h, put) = All-middle (ReadsOnly X) before after task (rw split at i.reads) in
      let c = advance-Counts X to_value task task' a.store s h e in
      record {
        reads = put task' c.reads;
        current_reads = i.current_reads;
        kept_transactions = IsPrefix-trans _ _ _ i.kept_transactions c.kept_transactions;
        kept_decisions = IsPrefix-trans _ _ _ i.kept_decisions c.kept_decisions;
        transactions_counted = omega (
          arith,
          i.transactions_counted,
          c.transactions,
          ap (total X (transactions_of X)) split,
          total-append X (transactions_of X) before (task ∷ after),
          total-append X (transactions_of X) before (task' ∷ after),
        );
        decisions_counted = omega (
          arith,
          i.decisions_counted,
          c.decisions,
          ap (total X (decisions_of X)) split,
          total-append X (decisions_of X) before (task ∷ after),
          total-append X (decisions_of X) before (task' ∷ after),
        );
      })
  Move-Accounted first a b i (reloads policy sanctions e) = rw e (record {
    reads = i.reads;
    current_reads = from_policy-Readers X policy sanctions;
    kept_transactions = i.kept_transactions;
    kept_decisions = i.kept_decisions;
    transactions_counted = i.transactions_counted;
    decisions_counted = i.decisions_counted;
  })

  Moves-keep :
      (first : MockStorage X) (a b : Service X (MockStorage X))
      → Accounted first a
      → Moves X (mock X) to_value a b
      → Accounted first b
  Moves-keep first a b i (stays e) = subst (Accounted first) e i
  Moves-keep first a c i (goes {b} move moves) =
      Moves-keep first b c (Move-Accounted first a b i move) moves

  -- However the awaits of any number of requests interleave, with reloads in between, from a moment
  -- with no request in flight and rules that only read on: the recorded transactions
  -- are those of that moment, unchanged and in order, and after them as many as there are requests
  -- that were decided or are about to record their decision; the recorded decisions are those of
  -- that moment and after them as many as there are requests that were decided.
  pub Moves-Accounted :
      (a b : Service X (MockStorage X))
      → a.tasks ≡ []
      → Readers X a.current
      → Moves X (mock X) to_value a b
      → Accounted a.store b
  Moves-Accounted a b idle readers moves =
      Moves-keep a.store a b
        (record {
          reads = rw idle tt;
          current_reads = readers;
          kept_transactions = IsPrefix-refl _;
          kept_decisions = IsPrefix-refl _;
          transactions_counted = omega (arith, ap (total X (transactions_of X)) idle);
          decisions_counted = omega (arith, ap (total X (decisions_of X)) idle);
        })
        moves
