-- ===== src/Api/Decide/Tasks.antt =====
-- Requests that interleave. The server of src/main.rs runs `handle_decision` of src/api/routes.rs as
-- a task for each request; a task may be suspended where it awaits the storage, and the others go on.
-- An operation of the storage is one step here, as it is for src/storage/mock.rs.
pub mod Alone
pub mod Counts
pub mod Interleaved
pub mod Versions
pub mod Preserving
pub mod Persisted
pub mod Noting
pub mod Journaled
pub mod Unseen
pub mod Schedule
pub mod Progress
use riskr_rs.Base.{
  ℕ, zero, suc, Option, some, none, List, [], ◌∷◌, ◌++◌, ◌≡◌, Text, Result, ok, err, Outcome, done,
  ◌>>=◌, if◌then◌else◌,
}
use riskr_rs.Crates.{Crates}
use riskr_rs.Domain.Decision.{allow, is_fatal}
use riskr_rs.Domain.Event.{TxEvent}
use riskr_rs.Domain.Policy.{Policy}
use riskr_rs.Rules.Traits.{StreamingRule}
use riskr_rs.Rules.RuleSet.{RuleSet, from_policy}
use riskr_rs.Storage.{Storage}
use riskr_rs.Api.Request.{DecisionRequest, to_tx_event}
use riskr_rs.Api.Decide.{
  Verdict, initial, evaluate_inline, Ambient, HttpResponse, ok_200, internal_server_error_500,
  transaction_record, decision_record, respond, absorb_streamed,
}

-- The three returns of the handler.
pub data Ending : Type 0 where
  fatal failed_open decided : Ending

-- What a task holds across its awaits.
pub record Request (X : Crates) (S : Type 0) : Type 0 where
  pub rules : RuleSet X S
  pub ambient : Ambient X
  pub req : DecisionRequest X

pub data Task (X : Crates) (S : Type 0) : Type 0 where
  upserting : Request X S → Verdict → Task X S
  evaluating : Request X S → (subject_id : X.Uuid) → List (StreamingRule X S) → Verdict → Task X S
  recording : Request X S → (subject_id : X.Uuid) → Verdict → Task X S
  answered : Ending → HttpResponse X → Task X S

module _ (X : Crates) {S : Type 0} where
  abbrev pub event_of : Request X S → TxEvent X
  event_of q = to_tx_event X q.ambient.now q.ambient.event_uuid q.req

  -- Up to the first await.
  unfoldable pub accept : Request X S → Task X S
  unfolding evaluate_inline respond
  accept q =
      let v = evaluate_inline X (event_of q) q.rules.inline initial in
      if is_fatal v.decision
      then answered fatal (respond X ok_200 v.decision q.rules.policy_version v.evidence)
      else upserting q v

  -- From the result of the upsert to the next await.
  upserted : Request X S → Verdict → Result X.Uuid × S → Task X S × S
  unfolding respond
  upserted q v (err message, s) = (
    answered failed_open
        (respond X internal_server_error_500 allow q.rules.policy_version v.evidence),
    s,
  )
  upserted q v (ok subject_id, s) = (evaluating q subject_id q.rules.streaming v, s)

module _ (X : Crates) {S : Type 0} (storage : Storage X S)
    (to_value : DecisionRequest X → Option X.Json) where
  -- One call of the storage.
  unfoldable pub advance : Task X S → S → Outcome (Task X S × S)
  unfolding upserted transaction_record decision_record respond
  advance (upserting q v) s =
      done (upserted X q v (storage.upsert_subject (event_of X q).subject s))
  advance (evaluating q subject_id [] v) s =
      let (_, s') = storage.record_transaction (transaction_record X (event_of X q) subject_id) s in
      done (recording q subject_id v, s')
  advance (evaluating q subject_id (rule ∷ rules) v) s = do
    (result, s') ← rule.evaluate storage (event_of X q) subject_id s
    done (evaluating q subject_id rules (absorb_streamed v result), s')
  advance (recording q subject_id v) s =
      let (_, s') =
        storage.record_decision
          (decision_record X to_value q.req subject_id v q.rules.policy_version
            q.ambient.elapsed_ms)
          s in
      done (answered decided (respond X ok_200 v.decision q.rules.policy_version v.evidence), s')
  advance (answered ending response) s = done (answered ending response, s)

  -- A task that runs alone.
  unfoldable pub run_task : (steps : ℕ) → Task X S → S → Outcome (Task X S × S)
  unfolding advance
  run_task zero task s = done (task, s)
  run_task (suc steps) task s = do (task', s') ← advance task s; run_task steps task' s'

-- The tasks that were accepted so far, in order, the storage, and the rules for the next request.
pub record Service (X : Crates) (S : Type 0) : Type 0 where
  pub tasks : List (Task X S)
  pub store : S
  pub current : RuleSet X S

module _ (X : Crates) {S : Type 0} (storage : Storage X S)
    (to_value : DecisionRequest X → Option X.Json) where
  -- A request comes in, some task goes on, or the watcher sends new rules.
  pub data Move (a b : Service X S) : Type 0 where
    accepts :
        (ambient : Ambient X) (req : DecisionRequest X)
        → b ≡ record a {
          tasks =
              a.tasks ++ accept X (record { rules = a.current; ambient = ambient; req = req }) ∷ [];
        }
        → Move a b
    advances :
        (before after : List (Task X S)) (task task' : Task X S) (s : S)
        → a.tasks ≡ before ++ task ∷ after
        → advance X storage to_value task a.store ≡ done (task', s)
        → b ≡ record a { tasks = before ++ task' ∷ after; store = s }
        → Move a b
    reloads :
        (policy : Policy X) (sanctions : List Text)
        → b ≡ record a { current = from_policy X policy sanctions }
        → Move a b

  pub data Moves : Service X S → Service X S → Type 0 where
    stays : {a b : Service X S} → a ≡ b → Moves a b
    goes : {a b c : Service X S} → Move a b → Moves b c → Moves a c
