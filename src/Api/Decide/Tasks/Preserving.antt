-- ===== src/Api/Decide/Tasks/Preserving.antt =====
-- What the operations of a storage keep, requests that interleave keep.
use riskr_rs.Base.{
  ◌≡◌, refl, subst, inl, inr, Option, List, [], ◌∷◌, Result, ok, err, Outcome, done, done-injective,
  panic, ◌>>=◌, All, All-append, All-middle, Bool-cases,
}
use riskr_rs.Crates.{Crates}
use riskr_rs.Domain.Decision.{is_fatal}
use riskr_rs.Domain.Evidence.{RuleResult}
use riskr_rs.Rules.Traits.{StreamingRule}
use riskr_rs.Rules.RuleSet.Preserving.{Preserves, QueriesPreserve, from_policy-Preserve}
use riskr_rs.Storage.{Storage}
use riskr_rs.Api.Request.{DecisionRequest}
use riskr_rs.Api.Decide.{Verdict, initial, evaluate_inline, absorb_streamed}
use riskr_rs.Api.Decide.Preserving.{WritesPreserve}
use riskr_rs.Api.Decide.Tasks.{
  Request, Task, upserting, evaluating, recording, answered, event_of, accept, upserted, advance,
  Service, Move, accepts, advances, reloads, Moves, stays, goes,
}

module _ (X : Crates) {S : Type 0} (storage : Storage X S) (R : S → S → Type 0) where
  -- The rules that a task has yet to run.
  abbrev pub TaskPreserves : Task X S → Type 0
  TaskPreserves (upserting q v) = All (Preserves X storage R) q.rules.streaming
  TaskPreserves (evaluating q id rules v) = All (Preserves X storage R) rules
  TaskPreserves (recording q id v) = Unit
  TaskPreserves (answered ending response) = Unit

  pub record ServicePreserves (a : Service X S) : Type 0 where
    pub tasks : All TaskPreserves a.tasks
    pub current : All (Preserves X storage R) a.current.streaming

  pub accept-Preserves :
      (q : Request X S) → All (Preserves X storage R) q.rules.streaming → TaskPreserves (accept X q)
  unfolding accept
  accept-Preserves q h =
      elim (Bool-cases
        (is_fatal (evaluate_inline X (event_of X q) q.rules.inline initial).decision)) [
          | inl y ↦ rw y tt
          | inr n ↦ rw n h
        ]

  module _ (R_refl : (s : S) → R s s) (writes : WritesPreserve X storage R)
      (to_value : DecisionRequest X → Option X.Json) where
    upserted-Preserves :
        (q : Request X S) (v : Verdict) (r : Result X.Uuid × S)
        → All (Preserves X storage R) q.rules.streaming
        → ((upserted X q v r).1 ≡ r.1) × TaskPreserves (upserted X q v r).0
    unfolding upserted
    upserted-Preserves q v (ok id, s) h = (refl, h)
    upserted-Preserves q v (err message, s) h = (refl, tt)

    turn-Preserves :
        (q : Request X S) (id : X.Uuid) (rule : StreamingRule X S)
        (rules : List (StreamingRule X S)) (v : Verdict) (s : S) (task' : Task X S) (s' : S)
        (o : Outcome (Result RuleResult × S))
        → rule.evaluate storage (event_of X q) id s ≡ o
        → All (Preserves X storage R) (rule ∷ rules)
        → ◌>>=◌ {B = Task X S × S} o
            (λ r. done (evaluating q id rules (absorb_streamed v r.0), r.1))
          ≡ done (task', s')
        → R s s' × TaskPreserves task'
    turn-Preserves q id rule rules v s task' s' (done (r, s₁)) ran h e =
        subst (λ x. R s x.1 × TaskPreserves x.0) (done-injective e)
          (h.0 (event_of X q) id s s₁ r ran, h.1)
    turn-Preserves q id rule rules v s task' s' panic ran h e = cc

    advance-Preserves :
        (task task' : Task X S) (s s' : S)
        → TaskPreserves task
        → advance X storage to_value task s ≡ done (task', s')
        → R s s' × TaskPreserves task'
    unfolding advance
    advance-Preserves (upserting q v) task' s s' h e =
        let out = storage.upsert_subject (event_of X q).subject s in
        let (same, kept) = upserted-Preserves q v out h in
        subst (λ x. R s x.1 × TaskPreserves x.0) (done-injective e)
          (rw same (writes.upsert _ s), kept)
    advance-Preserves (evaluating q id [] v) task' s s' h e =
        subst (λ x. R s x.1 × TaskPreserves x.0) (done-injective e) (writes.transaction _ s, tt)
    advance-Preserves (evaluating q id (rule ∷ rules) v) task' s s' h e =
        turn-Preserves q id rule rules v s task' s' _ refl h e
    advance-Preserves (recording q id v) task' s s' h e =
        subst (λ x. R s x.1 × TaskPreserves x.0) (done-injective e) (writes.decision _ s, tt)
    advance-Preserves (answered ending response) task' s s' h e =
        subst (λ x. R s x.1 × TaskPreserves x.0) (done-injective e) (R_refl s, tt)

    module _ (R_trans : (a b c : S) → R a b → R b c → R a c)
        (queries : QueriesPreserve X storage R) where
      Move-Preserves :
          (a b : Service X S)
          → ServicePreserves a
          → Move X storage to_value a b
          → R a.store b.store × ServicePreserves b
      Move-Preserves a b i (accepts ambient req e) = rw e (
        R_refl a.store,
        record {
          tasks = All-append TaskPreserves a.tasks _ i.tasks (
            accept-Preserves (record { rules = a.current; ambient = ambient; req = req }) i.current,
            tt,
          );
          current = i.current;
        },
      )
      Move-Preserves a b i (advances before after task task' s split e p) = rw p (
          let (h, put) = All-middle TaskPreserves before after task (rw split at i.tasks) in
          let (r, h') = advance-Preserves task task' a.store s h e in
          (r, record { tasks = put task' h'; current = i.current }))
      Move-Preserves a b i (reloads policy sanctions e) = rw e (
        R_refl a.store,
        record {
          tasks = i.tasks;
          current = from_policy-Preserve X storage R queries policy sanctions;
        },
      )

      -- However requests interleave, with reloads in between.
      pub Moves-Preserves :
          (a b : Service X S)
          → ServicePreserves a
          → Moves X storage to_value a b
          → R a.store b.store
      Moves-Preserves a b i (stays e) = subst (λ x. R a.store x.store) e (R_refl a.store)
      Moves-Preserves a c i (goes {b} move moves) =
          let (r, i') = Move-Preserves a b i move in
          R_trans a.store b.store c.store r (Moves-Preserves b c i' moves)
