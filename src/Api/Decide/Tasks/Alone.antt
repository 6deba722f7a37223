-- ===== src/Api/Decide/Tasks/Alone.antt =====
-- A task that is not interrupted is the handler.
use riskr_rs.Base.{
  ℕ, zero, suc, ◌+◌, ◌≡◌, refl, ◌∙◌, inl, inr, arith, Option, some, none, List, [], ◌∷◌, length,
  Result, ok, err, Outcome, done, panic, ◌>>=◌, Bool-cases,
}
use riskr_rs.Crates.{Crates}
use riskr_rs.Domain.Decision.{is_fatal}
use riskr_rs.Rules.Traits.{StreamingRule}
use riskr_rs.Storage.{Storage}
use riskr_rs.Api.Request.{DecisionRequest}
use riskr_rs.Api.Decide.{
  Verdict, initial, evaluate_inline, HttpResponse, evaluate_streaming, record_and_respond,
  after_upsert, handle_decision, absorb_streamed,
}
use riskr_rs.Api.Decide.Handling.{Handled, handle_decision-Handled}
use riskr_rs.Api.Decide.Tasks.{
  Ending, fatal, failed_open, decided, Request, Task, evaluating, answered, event_of, accept,
  upserted, advance, run_task,
}

-- Two ways to go on after the same call.
bind-turn :
    {A B C D E : Type 0} (o : Outcome A) (f : A → B) (g : B → Outcome C) (h : C → Outcome D)
    (k : A → Outcome E) (l : E → Outcome D)
    → ((a : A) → (g (f a) >>= h) ≡ (k a >>= l))
    → (o >>= (λ a. done (f a)) >>= g >>= h) ≡ (o >>= k >>= l)
bind-turn (done a) f g h k l same = same a
bind-turn panic f g h k l same = refl

bind-done :
    {A B C : Type 0} (o : Outcome A) (f : A → B) (g : B → Outcome C)
    → (o >>= λ a. g (f a)) ≡ (o >>= (λ a. done (f a)) >>= g)
bind-done (done a) f g = refl
bind-done panic f g = refl

-- The answer of a task that has one.
abbrev pub response_of : {X : Crates} {S : Type 0} → Task X S × S → Option (HttpResponse X) × S
response_of (answered ending response, s) = (some response, s)
response_of (_, s) = (none, s)

module _ (X : Crates) {S : Type 0} (storage : Storage X S)
    (to_value : DecisionRequest X → Option X.Json) where
  -- The answer after some steps.
  abbrev pub answer_after : (steps : ℕ) → Task X S → S → Outcome (Option (HttpResponse X) × S)
  answer_after steps task s = do
    end ← run_task X storage to_value steps task s
    done (response_of end)

  abbrev pub as_answer : HttpResponse X × S → Outcome (Option (HttpResponse X) × S)
  as_answer (response, s) = done (some response, s)

  answered-stays :
      (steps : ℕ) (ending : Ending) (response : HttpResponse X) (s : S)
      → answer_after steps (answered ending response) s ≡ done (some response, s)
  unfolding run_task advance
  answered-stays zero ending response s = refl
  answered-stays (suc steps) ending response s = answered-stays steps ending response s

  -- The calls that are left, and more.
  abbrev calls_left : List (StreamingRule X S) → (more : ℕ) → ℕ
  calls_left [] more = suc (suc more)
  calls_left (rule ∷ rules) more = suc (calls_left rules more)

  calls_left-eq :
      (rules : List (StreamingRule X S)) (more : ℕ)
      → calls_left rules more ≡ length rules + 2 + more
  calls_left-eq [] more = omega arith
  calls_left-eq (rule ∷ rules) more = omega (arith, calls_left-eq rules more)

  evaluating-answers :
      (more : ℕ) (q : Request X S) (id : X.Uuid) (rules : List (StreamingRule X S)) (v : Verdict)
      (s : S)
      → answer_after (calls_left rules more) (evaluating q id rules v) s ≡ (
          evaluate_streaming X storage (event_of X q) id rules v s >>= λ r. as_answer (
            record_and_respond X storage to_value q.req q.ambient q.rules.policy_version
              (event_of X q)
              id
              r.0
              r.1))
  unfolding run_task advance evaluate_streaming record_and_respond
  evaluating-answers more q id [] v s = answered-stays more decided _ _
  evaluating-answers more q id (rule ∷ rules) v s =
      bind-turn (rule.evaluate storage (event_of X q) id s)
        (λ r. (evaluating q id rules (absorb_streamed v r.0), r.1))
        (λ t. run_task X storage to_value (calls_left rules more) t.0 t.1)
        (λ end. done (response_of end))
        (λ r. evaluate_streaming X storage (event_of X q) id rules (absorb_streamed v r.0) r.1)
        (λ r. as_answer (
          record_and_respond X storage to_value q.req q.ambient q.rules.policy_version
            (event_of X q) id r.0 r.1))
        (λ r. evaluating-answers more q id rules (absorb_streamed v r.0) r.1)

  upserting-answers :
      (more : ℕ) (q : Request X S) (v : Verdict) (r : Result X.Uuid × S)
      → (do
        end ←
            run_task X storage to_value
              (calls_left q.rules.streaming more)
              (upserted X q v r).0
              (upserted X q v r).1
        done (response_of end))
        ≡ (after_upsert X storage to_value q.rules q.req q.ambient (event_of X q) v r >>= as_answer)
  unfolding upserted after_upsert
  upserting-answers more q v (err message, s) =
      answered-stays (calls_left q.rules.streaming more) failed_open _ s
  upserting-answers more q v (ok id, s) =
      evaluating-answers more q id q.rules.streaming v s
      ∙ bind-done (evaluate_streaming X storage (event_of X q) id q.rules.streaming v s) _ as_answer

  -- With as many calls as it takes, or more, a task that is not interrupted ends as the handler
  -- does: with the same answer and the same storage, or with a panic.
  run_task-handle_decision :
      (q : Request X S) (s : S) (more : ℕ)
      → answer_after (length q.rules.streaming + 3 + more) (accept X q) s
        ≡ (handle_decision X storage to_value q.rules q.ambient q.req s >>= as_answer)
  unfolding run_task advance accept handle_decision
  run_task-handle_decision q s more =
      let v = evaluate_inline X (event_of X q) q.rules.inline initial in
      let all_calls : length q.rules.streaming + 3 + more
          ≡ suc (calls_left q.rules.streaming more) =
        omega (arith, calls_left-eq q.rules.streaming more) in
      elim (Bool-cases (is_fatal v.decision)) [
        | inl y ↦ rw y (answered-stays (length q.rules.streaming + 3 + more) fatal _ s)
        | inr n ↦ rw n (
            rw all_calls
              (upserting-answers more q v (storage.upsert_subject (event_of X q).subject s)))
      ]

  -- With as many calls as there are streaming rules and three more, or with more calls, a task that is
  -- not interrupted is over, in one of the four ways: with the answer of a fatal verdict, the
  -- storage as it was; failed open, after the upsert failed; with the answer of a decided request,
  -- after the upsert, the rules in order and the two records; or with a panic of a rule.
  pub run_task-Handled :
      (q : Request X S) (s : S) (more : ℕ)
      → (out : Outcome (HttpResponse X × S)) × Handled X storage to_value q.rules q.ambient q.req s
          out
        × (answer_after (length q.rules.streaming + 3 + more) (accept X q) s ≡ (out >>= as_answer))
  run_task-Handled q s more = (
    handle_decision X storage to_value q.rules q.ambient q.req s,
    handle_decision-Handled X storage to_value q.rules q.ambient q.req s,
    run_task-handle_decision q s more,
  )
