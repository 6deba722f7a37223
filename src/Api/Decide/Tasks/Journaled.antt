-- ===== src/Api/Decide/Tasks/Journaled.antt =====
-- What requests that interleave leave in the journal of any storage that keeps one.
use riskr_rs.Base.{
  Gains, gains_none, gains_more, ◌≡◌, refl, subst, arith, Option, List, [], ◌∷◌, ◌++◌, Text, All,
  Any, here, All-append, All-map, All-middle, Any-append_left, Any-append_right, Any-middle,
}
use riskr_rs.Crates.{Crates}
use riskr_rs.Domain.Policy.{Policy}
use riskr_rs.Rules.RuleSet.{from_policy}
use riskr_rs.Rules.RuleSet.Preserving.{Preserves, QueriesPreserve, from_policy-Preserve}
use riskr_rs.Storage.{Storage}
use riskr_rs.Storage.Journal.{Journal, IsJournaled}
use riskr_rs.Api.Request.{DecisionRequest}
use riskr_rs.Api.Decide.Tasks.{
  Request, Task, accept, Service, Move, accepts, advances, reloads, Moves, stays, goes,
}
use riskr_rs.Api.Decide.Tasks.Counts.{transactions_of, decisions_of, total, total-append}
use riskr_rs.Api.Decide.Tasks.Preserving.{TaskPreserves, ServicePreserves, accept-Preserves}
use riskr_rs.Api.Decide.Tasks.Noting.{Answers, Kept, Notes, advance-Notes}

module _ (X : Crates) {S : Type 0} (storage : Storage X S) (journal : S → Journal X) where
  -- The journal of the service against an earlier one, by what the tasks have done.
  pub record Attributed (j : Journal X) (a : Service X S) : Type 0 where
    pub transactions :
        Gains (total X (transactions_of X) a.tasks) j.transactions (journal a.store).transactions
    pub decisions : Gains (total X (decisions_of X) a.tasks) j.decisions (journal a.store).decisions
    pub answered : All (λ entry. Any (Answers X entry) a.tasks) decisions.new

  module _ (laws : IsJournaled X storage journal)
      (to_value : DecisionRequest X → Option X.Json) where
    queries : QueriesPreserve X storage (Kept X storage journal)
    queries = record { volume = laws.volume; count = laws.count }

    record State (j : Journal X) (a : Service X S) : Type 0 where
      pub rules : ServicePreserves X storage (Kept X storage journal) a
      pub attributed : Attributed j a

    accepts-State :
        (j : Journal X) (a : Service X S) (q : Request X S)
        → q.rules ≡ a.current
        → State j a
        → State j (record a { tasks = a.tasks ++ accept X q ∷ [] })
    accepts-State j a q same i = record {
      rules = record {
        tasks =
            All-append (TaskPreserves X storage (Kept X storage journal)) a.tasks _ i.rules.tasks
              (accept-Preserves X storage (Kept X storage journal) q (rw same i.rules.current), tt);
        current = i.rules.current;
      };
      attributed = record {
        transactions =
            gains_more _ i.attributed.transactions (gains_none 0 refl)
              (omega (arith, total-append X (transactions_of X) a.tasks (accept X q ∷ [])));
        decisions =
            gains_more _ i.attributed.decisions (gains_none 0 refl)
              (omega (arith, total-append X (decisions_of X) a.tasks (accept X q ∷ [])));
        answered =
            All-append _ i.attributed.decisions.new []
              (All-map (λ entry h. Any-append_left a.tasks _ h) i.attributed.decisions.new
                i.attributed.answered)
              tt;
      };
    }

    advances-State :
        (j : Journal X) (a : Service X S) (before after : List (Task X S)) (task task' : Task X S)
        (s : S)
        → State j (record a { tasks = before ++ task ∷ after })
        → Notes X storage journal task task' a.store s
        → State j (record a { tasks = before ++ task' ∷ after; store = s })
    advances-State j a before after task task' s i n = record {
      rules = record {
        tasks =
            (All-middle (TaskPreserves X storage (Kept X storage journal)) before after task
                i.rules.tasks).1
              task' n.rules;
        current = i.rules.current;
      };
      attributed = record {
        transactions = gains_more _ i.attributed.transactions n.transactions (
            omega (
              arith,
              n.transactions_fit,
              total-append X (transactions_of X) before (task ∷ after),
              total-append X (transactions_of X) before (task' ∷ after),
            ));
        decisions = gains_more _ i.attributed.decisions n.decisions (
            omega (
              arith,
              n.decisions_fit,
              total-append X (decisions_of X) before (task ∷ after),
              total-append X (decisions_of X) before (task' ∷ after),
            ));
        answered =
            All-append _ i.attributed.decisions.new n.decisions.new
              (All-map (λ entry h. Any-middle before after task task' (n.still entry) h)
                i.attributed.decisions.new i.attributed.answered)
              (All-map (λ entry h. Any-append_right before (task' ∷ after) (here h)) n.decisions.new
                n.answers);
      };
    }

    Move-State :
        (j : Journal X) (a b : Service X S) → State j a → Move X storage to_value a b → State j b
    Move-State j a b i (accepts ambient req e) =
        rw e (accepts-State j a (record { rules = a.current; ambient = ambient; req = req }) refl i)
    Move-State j a b i (advances before after task task' s split e p) =
        let i' : State j (record a { tasks = before ++ task ∷ after }) =
          subst (λ tasks. State j (record a { tasks = tasks })) split i in
        let h =
          (All-middle (TaskPreserves X storage (Kept X storage journal)) before after task
            i'.rules.tasks).0 in
        rw p (
          advances-State j a before after task task' s i'
            (advance-Notes X storage journal laws to_value task task' a.store s h e))
    Move-State j a b i (reloads policy sanctions e) = rw e (record {
      rules = record {
        tasks = i.rules.tasks;
        current = from_policy-Preserve X storage (Kept X storage journal) queries policy sanctions;
      };
      attributed = record {
        transactions = i.attributed.transactions;
        decisions = i.attributed.decisions;
        answered = i.attributed.answered;
      };
    })

    Moves-State :
        (j : Journal X) (a b : Service X S) → State j a → Moves X storage to_value a b → State j b
    Moves-State j a b i (stays e) = subst (State j) e i
    Moves-State j a c i (goes {b} move moves) = Moves-State j b c (Move-State j a b i move) moves

    pub Preserved-Attributed :
        (a b : Service X S)
        → a.tasks ≡ []
        → All (Preserves X storage (Kept X storage journal)) a.current.streaming
        → Moves X storage to_value a b
        → Attributed (journal a.store) b
    Preserved-Attributed a b idle preserves moves =
        (Moves-State (journal a.store) a b
          (record {
            rules = record { tasks = rw idle tt; current = preserves };
            attributed = record {
              transactions = gains_none _ refl;
              decisions = gains_none _ refl;
              answered = tt;
            };
          })
          moves).attributed

    -- Over every storage that keeps a journal, however the awaits of any number of requests
    -- interleave, with reloads in between, from a moment with no request in flight and the rules of
    -- a policy on: the journal of that moment stays and grows only at its end, by no more
    -- transactions than there are requests that were decided or are about to record their decision,
    -- and by no more decisions than there are requests that were decided. Every added decision
    -- is what one of the decided requests answered, with its code and its version of the policy.
    pub Moves-Attributed :
        (policy : Policy X) (sanctions : List Text) (a b : Service X S)
        → a.tasks ≡ []
        → a.current ≡ from_policy X policy sanctions
        → Moves X storage to_value a b
        → Attributed (journal a.store) b
    Moves-Attributed policy sanctions a b idle rules moves =
        Preserved-Attributed a b idle
          (rw rules
            (from_policy-Preserve X storage (Kept X storage journal) queries policy sanctions))
          moves
