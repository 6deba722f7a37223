-- ===== src/Api/Decide/Tasks/Schedule.antt =====
-- An executable schedule for the requests that interleave: what happens to the service, one event
-- after the other. A task is named by its place among those accepted.
use riskr_rs.Base.{
  ℕ, zero, suc, Option, List, [], ◌∷◌, ◌++◌, ◌≡◌, refl, ap, subst, Text, Outcome, done, ◌>>=◌,
  done-injective, bind-inversion,
}
use riskr_rs.Crates.{Crates}
use riskr_rs.Domain.Policy.{Policy}
use riskr_rs.Rules.RuleSet.{from_policy}
use riskr_rs.Storage.{Storage}
use riskr_rs.Api.Request.{DecisionRequest}
use riskr_rs.Api.Decide.{Ambient}
use riskr_rs.Api.Decide.Tasks.{
  Task, accept, advance, Service, accepts, advances, reloads, Moves, stays, goes,
}

pub data Event (X : Crates) : Type 0 where
  request : Ambient X → DecisionRequest X → Event X
  reload : Policy X → (sanctions : List Text) → Event X
  turn : (place : ℕ) → Event X

module _ (X : Crates) {S : Type 0} (storage : Storage X S)
    (to_value : DecisionRequest X → Option X.Json) where
  -- The task at the place makes one call.
  unfoldable pub take_turn : (place : ℕ) → List (Task X S) → S → Outcome (List (Task X S) × S)
  take_turn place [] s = done ([], s)
  take_turn zero (task ∷ tasks) s = do
    (task', s') ← advance X storage to_value task s
    done (task' ∷ tasks, s')
  take_turn (suc place) (task ∷ tasks) s = do
    (tasks', s') ← take_turn place tasks s
    done (task ∷ tasks', s')

  unfoldable pub happen : Event X → Service X S → Outcome (Service X S)
  unfolding take_turn
  happen (request ambient req) a = done (record a {
    tasks = a.tasks ++ accept X (record { rules = a.current; ambient = ambient; req = req }) ∷ [];
  })
  happen (reload policy sanctions) a = done (record a { current = from_policy X policy sanctions })
  happen (turn place) a = do
    (tasks, s) ← take_turn place a.tasks a.store
    done (record a { tasks = tasks; store = s })

  unfoldable pub run_schedule : List (Event X) → Service X S → Outcome (Service X S)
  unfolding happen
  run_schedule [] a = done a
  run_schedule (event ∷ events) a = do b ← happen event a; run_schedule events b

  -- A turn is that of the task at the place, or of nobody.
  data Turned (tasks tasks' : List (Task X S)) (s s' : S) : Type 0 where
    nobody : tasks' ≡ tasks → s' ≡ s → Turned tasks tasks' s s'
    somebody :
        (before after : List (Task X S)) (task task' : Task X S)
        → tasks ≡ before ++ task ∷ after
        → tasks' ≡ before ++ task' ∷ after
        → advance X storage to_value task s ≡ done (task', s')
        → Turned tasks tasks' s s'

  Turned-cons :
      (t : Task X S) (tasks tasks' : List (Task X S)) (s s' : S)
      → Turned tasks tasks' s s'
      → Turned (t ∷ tasks) (t ∷ tasks') s s'
  Turned-cons t tasks tasks' s s' (nobody e p) = nobody (ap (λ l. t ∷ l) e) p
  Turned-cons t tasks tasks' s s' (somebody before after task task' e e' ran) =
      somebody (t ∷ before) after task task' (ap (λ l. t ∷ l) e) (ap (λ l. t ∷ l) e') ran

  take_turn-Turned :
      (place : ℕ) (tasks tasks' : List (Task X S)) (s s' : S)
      → take_turn place tasks s ≡ done (tasks', s')
      → Turned tasks tasks' s s'
  unfolding take_turn
  take_turn-Turned place [] tasks' s s' e =
      subst (λ x. Turned [] x.0 s x.1) (done-injective e) (nobody refl refl)
  take_turn-Turned zero (task ∷ tasks) tasks' s s' e =
      let (r, ran, e') = bind-inversion (advance X storage to_value task s) _ _ e in
      subst (λ x. Turned (task ∷ tasks) x.0 s x.1) (done-injective e')
        (somebody [] tasks task r.0 refl refl ran)
  take_turn-Turned (suc place) (task ∷ tasks) tasks' s s' e =
      let (r, ran, e') = bind-inversion (take_turn place tasks s) _ _ e in
      subst (λ x. Turned (task ∷ tasks) x.0 s x.1) (done-injective e')
        (Turned-cons task tasks r.0 s r.1 (take_turn-Turned place tasks r.0 s r.1 ran))

  Turned-Moves :
      (a b c : Service X S)
      → Turned a.tasks b.tasks a.store b.store
      → b.current ≡ a.current
      → Moves X storage to_value b c
      → Moves X storage to_value a c
  Turned-Moves a b c (nobody e p) q moves =
      subst (λ (x : Service X S). Moves X storage to_value x c) same moves
    where
      same : b ≡ a
      same = λ i. record { tasks = e i; store = p i; current = q i }
  Turned-Moves a b c (somebody before after task task' e e' ran) q moves =
      goes
        (advances before after task task' b.store e ran
          (λ i. record { tasks = e' i; store = b.store; current = q i }))
        moves

  -- A schedule that does not crash the process is a sequence of the service's moves.
  pub run_schedule-Moves :
      (events : List (Event X)) (a b : Service X S)
      → run_schedule events a ≡ done b
      → Moves X storage to_value a b
  unfolding run_schedule happen
  run_schedule-Moves [] a b e = stays (done-injective e)
  run_schedule-Moves (request ambient req ∷ events) a b e =
      goes (accepts ambient req refl) (run_schedule-Moves events _ b e)
  run_schedule-Moves (reload policy sanctions ∷ events) a b e =
      goes (reloads policy sanctions refl) (run_schedule-Moves events _ b e)
  run_schedule-Moves (turn place ∷ events) a b e =
      let (c, ran, e') = bind-inversion (happen (turn place) a) _ _ e in
      let (r, turned, e'') = bind-inversion (take_turn place a.tasks a.store) _ _ ran in
      subst (λ (x : Service X S). Moves X storage to_value x b → Moves X storage to_value a b)
        (done-injective e'')
        (λ moves.
          Turned-Moves a _ b (take_turn-Turned place a.tasks r.0 a.store r.1 turned) refl moves)
        (run_schedule-Moves events c b e')
