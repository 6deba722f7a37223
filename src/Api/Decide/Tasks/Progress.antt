-- ===== src/Api/Decide/Tasks/Progress.antt =====
-- A task that gets its turns is answered, whatever the others do in between.
use mathlib.Core.Option.{some-injective}
use riskr_rs.Base.{
  ◌⊎◌, inl, inr, Bool-cases, Outcome, panic, ℕ, zero, suc, ◌+◌, ◌-◌, ◌≤◌, ◌≡◌, refl, ap, ◌∙◌, subst,
  arith, Option, some, none, List, [], ◌∷◌, ◌++◌, length, Result, ok, err, done, done-injective,
  bind-inversion, none-ne_some,
}
use riskr_rs.Crates.{Crates}
use riskr_rs.Storage.{Storage}
use riskr_rs.Api.Request.{DecisionRequest}
use riskr_rs.Domain.Decision.{is_fatal}
use riskr_rs.Api.Decide.{Verdict, Ambient, HttpResponse, initial, evaluate_inline}
use riskr_rs.Api.Decide.Tasks.{
  event_of, Ending, Request, Task, accept, upserting, evaluating, recording, answered, upserted,
  advance, Service,
}
use riskr_rs.Api.Decide.Tasks.Schedule.{
  Event, request, reload, turn, take_turn, happen, run_schedule,
}

-- How often the place has its turn.
abbrev pub one_at : (p place : ℕ) → ℕ
one_at zero zero = 1
one_at zero (suc place) = 0
one_at (suc p) zero = 0
one_at (suc p) (suc place) = one_at p place

abbrev pub turns : {X : Crates} (place : ℕ) → List (Event X) → ℕ
turns place [] = 0
turns place (turn p ∷ events) = one_at p place + turns place events
turns place (request ambient req ∷ events) = turns place events
turns place (reload policy sanctions ∷ events) = turns place events

module _ {X : Crates} {S : Type 0} where
  -- The calls that a task has before it at most.
  abbrev pub calls_before : Task X S → ℕ
  calls_before (upserting q v) = length q.rules.streaming + 3
  calls_before (evaluating q id rules v) = length rules + 2
  calls_before (recording q id v) = 1
  calls_before (answered ending response) = 0

  abbrev pub task_at : (place : ℕ) → List (Task X S) → Option (Task X S)
  task_at place [] = none
  task_at zero (task ∷ tasks) = some task
  task_at (suc place) (task ∷ tasks) = task_at place tasks

  -- At the place stands a task with no more calls before it than `n`.
  abbrev Within : (place : ℕ) → List (Task X S) → ℕ → Type 0
  Within place tasks n =
      (task : Task X S) × (task_at place tasks ≡ some task) × (calls_before task ≤ n)

  module _ (storage : Storage X S) (to_value : DecisionRequest X → Option X.Json) where
    upserted-fewer :
        (q : Request X S) (v : Verdict) (r : Result X.Uuid × S)
        → calls_before (upserted X q v r).0 ≤ length q.rules.streaming + 2
    unfolding upserted
    upserted-fewer q v (ok id, s) = omega arith
    upserted-fewer q v (err message, s) = omega arith

    advance-fewer :
        (task task' : Task X S) (s s' : S)
        → advance X storage to_value task s ≡ done (task', s')
        → calls_before task' ≤ calls_before task - 1
    unfolding advance
    advance-fewer (upserting q v) task' s s' e =
        subst (λ x. calls_before x.0 ≤ length q.rules.streaming + 3 - 1) (done-injective e)
          (omega (arith, upserted-fewer q v (storage.upsert_subject (event_of X q).subject s)))
    advance-fewer (evaluating q id [] v) task' s s' e =
        subst (λ x. calls_before x.0 ≤ 1) (done-injective e) (omega arith)
    advance-fewer (evaluating q id (rule ∷ rules) v) task' s s' e =
        let (r, ran, e') = bind-inversion (rule.evaluate storage (event_of X q) id s) _ _ e in
        subst (λ x. calls_before x.0 ≤ length (rule ∷ rules) + 2 - 1) (done-injective e')
          (omega arith)
    advance-fewer (recording q id v) task' s s' e =
        subst (λ x. calls_before x.0 ≤ 0) (done-injective e) (omega arith)
    advance-fewer (answered ending response) task' s s' e =
        subst (λ x. calls_before x.0 ≤ 0) (done-injective e) (omega arith)

    take_turn-Within :
        (p place n : ℕ) (tasks tasks' : List (Task X S)) (s s' : S)
        → take_turn X storage to_value p tasks s ≡ done (tasks', s')
        → Within place tasks n
        → Within place tasks' (n - one_at p place)
    unfolding take_turn
    take_turn-Within p place n [] tasks' s s' e (task, there_is, h) = absurd (none-ne_some there_is)
    take_turn-Within zero zero n (t ∷ tasks) tasks' s s' e (task, there_is, h) =
        let (r, ran, e') = bind-inversion (advance X storage to_value t s) _ _ e in
        subst (λ x. Within zero x.0 (n - 1)) (done-injective e')
          (
            r.0,
            refl,
            omega (
              arith,
              h,
              advance-fewer t r.0 s r.1 ran,
              ap calls_before (some-injective t task there_is),
            ),
          )
    take_turn-Within zero (suc place) n (t ∷ tasks) tasks' s s' e (task, there_is, h) =
        let (r, ran, e') = bind-inversion (advance X storage to_value t s) _ _ e in
        subst (λ x. Within (suc place) x.0 (n - 0)) (done-injective e')
          (task, there_is, omega (arith, h))
    take_turn-Within (suc p) zero n (t ∷ tasks) tasks' s s' e (task, there_is, h) =
        let (r, ran, e') = bind-inversion (take_turn X storage to_value p tasks s) _ _ e in
        subst (λ x. Within zero x.0 (n - 0)) (done-injective e') (task, there_is, omega (arith, h))
    take_turn-Within (suc p) (suc place) n (t ∷ tasks) tasks' s s' e (task, there_is, h) =
        let (r, ran, e') = bind-inversion (take_turn X storage to_value p tasks s) _ _ e in
        subst (λ x. Within (suc place) x.0 (n - one_at p place)) (done-injective e')
          (take_turn-Within p place n tasks r.0 s r.1 ran (task, there_is, h))

    task_at-append :
        (place : ℕ) (tasks more : List (Task X S)) (task : Task X S)
        → task_at place tasks ≡ some task
        → task_at place (tasks ++ more) ≡ some task
    task_at-append place [] more task e = absurd (none-ne_some e)
    task_at-append zero (t ∷ tasks) more task e = e
    task_at-append (suc place) (t ∷ tasks) more task e = task_at-append place tasks more task e

    run_schedule-Within :
        (events : List (Event X)) (place n : ℕ) (a b : Service X S)
        → run_schedule X storage to_value events a ≡ done b
        → Within place a.tasks n
        → Within place b.tasks (n - turns place events)
    unfolding run_schedule happen
    run_schedule-Within [] place n a b e (task, there_is, h) =
        subst (λ (x : Service X S). Within place x.tasks (n - 0)) (done-injective e)
          (task, there_is, omega (arith, h))
    run_schedule-Within (request ambient req ∷ events) place n a b e (task, there_is, h) =
        run_schedule-Within events place n _ b e
          (task, task_at-append place a.tasks _ task there_is, h)
    run_schedule-Within (reload policy sanctions ∷ events) place n a b e w =
        run_schedule-Within events place n _ b e w
    run_schedule-Within (turn p ∷ events) place n a b e w =
        let (a', ran, e') = bind-inversion (happen X storage to_value (turn p) a) _ _ e in
        let (r, turned, e'') =
          bind-inversion (take_turn X storage to_value p a.tasks a.store) _ _ ran in
        let (task, there_is, h) = run_schedule-Within events place (n - one_at p place) a' b e' (
          subst (λ (x : Service X S). Within place x.tasks (n - one_at p place))
            (done-injective e'') (take_turn-Within p place n a.tasks r.0 a.store r.1 turned w)) in
        (task, there_is, omega (arith, h))

    answered-of_none_left :
        (task : Task X S)
        → calls_before task ≤ 0
        → (ending : Ending) × (response : HttpResponse X) × (task ≡ answered ending response)
    answered-of_none_left (upserting q v) h = absurd (omega (arith, h))
    answered-of_none_left (evaluating q id rules v) h = absurd (omega (arith, h))
    answered-of_none_left (recording q id v) h = absurd (omega (arith, h))
    answered-of_none_left (answered ending response) h = (ending, response, refl)

    run_schedule-answers :
        (events : List (Event X)) (a b : Service X S) (place : ℕ) (task : Task X S)
        → task_at place a.tasks ≡ some task
        → run_schedule X storage to_value events a ≡ done b
        → calls_before task ≤ turns place events
        → (ending : Ending) × (response : HttpResponse X) × (task_at place b.tasks
            ≡ some (answered ending response))
    run_schedule-answers events a b place task there_is ran enough =
        let (task', there', h) =
          run_schedule-Within events place (calls_before task) a b ran
            (task, there_is, omega arith) in
        let (ending, response, e) = answered-of_none_left task' (omega (arith, h, enough)) in
        (ending, response, there' ∙ ap some e)

    task_at_end :
        (tasks : List (Task X S)) (task : Task X S)
        → task_at (length tasks) (tasks ++ task ∷ []) ≡ some task
    task_at_end [] task = refl
    task_at_end (t ∷ tasks) task = task_at_end tasks task

    accepted-fewer : (q : Request X S) → calls_before (accept X q) ≤ length q.rules.streaming + 3
    unfolding accept
    accepted-fewer q =
        elim (Bool-cases
          (is_fatal (evaluate_inline X (event_of X q) q.rules.inline initial).decision)) [
            | inl y ↦ rw y (omega arith)
            | inr n ↦ rw n (omega arith)
          ]

    -- A request that comes in is answered once it had as many turns as there are streaming rules
    -- and three more, however other requests, reloads and the turns of other tasks are scheduled
    -- between its own and whatever the storage answers; else some task has crashed the process.
    pub request-answered :
        (events : List (Event X)) (a : Service X S) (ambient : Ambient X) (req : DecisionRequest X)
        → length a.current.streaming + 3 ≤ turns (length a.tasks) events
        → let end = run_schedule X storage to_value (request ambient req ∷ events) a in
          (end ≡ panic)
          ⊎ ((b : Service X S) × (ending : Ending) × (response : HttpResponse X) × (end ≡ done b)
              × (task_at (length a.tasks) b.tasks ≡ some (answered ending response)))
    unfolding run_schedule happen
    request-answered events a ambient req enough = ending_of _ refl
      where
        q : Request X S
        q = record { rules = a.current; ambient = ambient; req = req }

        a' : Service X S
        a' = record a { tasks = a.tasks ++ accept X q ∷ [] }

        ending_of :
            (end : Outcome (Service X S))
            → run_schedule X storage to_value events a' ≡ end
            → (end ≡ panic)
              ⊎ ((b : Service X S) × (ending : Ending) × (response : HttpResponse X) × (end
                    ≡ done b)
                  × (task_at (length a.tasks) b.tasks ≡ some (answered ending response)))
        ending_of panic ran = inl refl
        ending_of (done b) ran =
            let (ending, response, there_is) =
              run_schedule-answers events a' b (length a.tasks) (accept X q)
                (task_at_end a.tasks (accept X q)) ran (omega (arith, enough, accepted-fewer q)) in
            inr (b, ending, response, refl, there_is)
