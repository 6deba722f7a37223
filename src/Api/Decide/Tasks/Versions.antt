-- ===== src/Api/Decide/Tasks/Versions.antt =====
-- A reload does not touch the requests in flight.
use mathlib.Core.List.{map-append}
use riskr_rs.Base.{
  ◌≡◌, refl, sym, ap, ◌∙◌, subst, inl, inr, List, [], ◌∷◌, ◌++◌, map, Text, Result, ok, err,
  Outcome, done, done-injective, panic, ◌>>=◌, Bool-cases, IsPrefix, IsPrefix-refl, IsPrefix-trans,
  Option,
}
use riskr_rs.Crates.{Crates}
use riskr_rs.Domain.Decision.{is_fatal}
use riskr_rs.Domain.Evidence.{RuleResult}
use riskr_rs.Rules.Traits.{StreamingRule}
use riskr_rs.Storage.{Storage}
use riskr_rs.Api.Request.{DecisionRequest}
use riskr_rs.Api.Response
use riskr_rs.Api.Decide.{Ambient, Verdict, respond, absorb_streamed, evaluate_inline, initial}
use riskr_rs.Api.Decide.Tasks.{
  Request, Task, upserting, evaluating, recording, answered, event_of, accept, upserted, advance,
  Service, Move, accepts, advances, reloads, Moves, stays, goes,
}

module _ (X : Crates) {S : Type 0} where
  -- The version that a task answers, or will answer.
  abbrev pub version_of : Task X S → Text
  version_of (upserting q v) = q.rules.policy_version
  version_of (evaluating q id rules v) = q.rules.policy_version
  version_of (recording q id v) = q.rules.policy_version
  version_of (answered ending response) = response.body.policy_version

  upserted-version :
      (q : Request X S) (v : Verdict) (r : Result X.Uuid × S)
      → version_of (upserted X q v r).0 ≡ q.rules.policy_version
  unfolding upserted respond Response.new
  upserted-version q v (ok id, s) = refl
  upserted-version q v (err message, s) = refl

  accept-version : (q : Request X S) → version_of (accept X q) ≡ q.rules.policy_version
  unfolding accept respond Response.new
  accept-version q =
      elim (Bool-cases
        (is_fatal (evaluate_inline X (event_of X q) q.rules.inline initial).decision)) [
          | inl y ↦ rw y refl
          | inr n ↦ rw n refl
        ]

  module _ (storage : Storage X S) (to_value : DecisionRequest X → Option X.Json) where
    turn-version :
        (q : Request X S) (id : X.Uuid) (rules : List (StreamingRule X S)) (v : Verdict)
        (task' : Task X S) (s' : S) (o : Outcome (Result RuleResult × S))
        → ◌>>=◌ {B = Task X S × S} o
            (λ r. done (evaluating q id rules (absorb_streamed v r.0), r.1))
          ≡ done (task', s')
        → version_of task' ≡ q.rules.policy_version
    turn-version q id rules v task' s' (done r) p =
        ap (λ x. version_of x.0) (sym (done-injective p))
    turn-version q id rules v task' s' panic p = cc

    advance-version :
        (task task' : Task X S) (s s' : S)
        → advance X storage to_value task s ≡ done (task', s')
        → version_of task' ≡ version_of task
    unfolding advance respond Response.new
    advance-version (upserting q v) task' s s' e =
        ap (λ x. version_of x.0) (sym (done-injective e)) ∙ upserted-version q v _
    advance-version (evaluating q id [] v) task' s s' e =
        ap (λ x. version_of x.0) (sym (done-injective e))
    advance-version (evaluating q id (rule ∷ rules) v) task' s s' e =
        turn-version q id rules v task' s' _ e
    advance-version (recording q id v) task' s s' e =
        ap (λ x. version_of x.0) (sym (done-injective e))
    advance-version (answered ending response) task' s s' e =
        ap (λ x. version_of x.0) (sym (done-injective e))

    abbrev pub versions : Service X S → List Text
    versions a = map version_of a.tasks

    versions_middle :
        (before after : List (Task X S)) (task task' : Task X S)
        → version_of task' ≡ version_of task
        → map version_of (before ++ task' ∷ after) ≡ map version_of (before ++ task ∷ after)
    versions_middle [] after task task' e = ap (λ v. v ∷ map version_of after) e
    versions_middle (t ∷ before) after task task' e =
        ap (λ l. version_of t ∷ l) (versions_middle before after task task' e)

    Move-versions :
        (a b : Service X S) → Move X storage to_value a b → IsPrefix (versions a) (versions b)
    Move-versions a b (accepts ambient req e) = rw e (
      _,
      map-append version_of a.tasks
          (accept X (record { rules = a.current; ambient = ambient; req = req }) ∷ []),
    )
    Move-versions a b (advances before after task task' s split e p) = rw p (
        rw (versions_middle before after task task' (advance-version task task' a.store s e))
          (rw split (IsPrefix-refl _)))
    Move-versions a b (reloads policy sanctions e) = rw e (IsPrefix-refl (versions a))

    Moves-versions :
        (a b : Service X S) → Moves X storage to_value a b → IsPrefix (versions a) (versions b)
    Moves-versions a b (stays e) =
        subst (λ x. IsPrefix (versions a) (versions x)) e (IsPrefix-refl (versions a))
    Moves-versions a c (goes {b} move moves) =
        IsPrefix-trans (versions a) (versions b) (versions c) (Move-versions a b move)
          (Moves-versions b c moves)

    -- A request answers under the rules that were current when it came in: however requests
    -- interleave afterwards and whatever is reloaded, the version that its task answers, or will
    -- answer, is that of these rules, and the tasks before it keep their versions.
    pub accepted-versions :
        (a b : Service X S) (ambient : Ambient X) (req : DecisionRequest X)
        → Moves X storage to_value
            (record a {
              tasks =
                  a.tasks
                  ++ accept X (record { rules = a.current; ambient = ambient; req = req }) ∷ [];
            })
            b
        → IsPrefix (versions a ++ a.current.policy_version ∷ []) (versions b)
    accepted-versions a b ambient req moves =
        let q : Request X S = record { rules = a.current; ambient = ambient; req = req } in
        subst (λ l. IsPrefix l (versions b))
          (map-append version_of a.tasks (accept X q ∷ [])
            ∙ ap (λ v. versions a ++ v ∷ []) (accept-version q))
          (Moves-versions _ b moves)
