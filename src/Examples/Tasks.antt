-- ===== src/Examples/Tasks.antt =====
-- Two requests in flight, the first of which goes on after the second came in, and a reload.
use riskr_rs.Base.{◌≡◌, refl, ◌+◌, [], ◌∷◌, Outcome, done, panic, ◌>>=◌, length, IsPrefix}
use riskr_rs.Domain.Decision.{is_fatal}
use riskr_rs.Domain.Policy.{Policy}
use riskr_rs.Rules.RuleSet.{RuleSet, from_policy}
use riskr_rs.Rules.RuleSet.Readers.{from_policy-Readers}
use riskr_rs.Storage.Mock.{MockStorage, mock}
use riskr_rs.Api.Decide.{HttpResponse, evaluate_inline}
use riskr_rs.Api.Decide.Handling.{Handled}
use riskr_rs.Api.Decide.Tasks.{
  Request, Task, Service, accept, advance, Moves, accepts, advances, reloads, stays, goes,
}
use riskr_rs.Api.Decide.Tasks.Alone.{answer_after, as_answer, run_task-Handled}
use riskr_rs.Api.Decide.Tasks.Interleaved.{Accounted, Moves-Accounted}
use riskr_rs.Api.Decide.Tasks.Versions.{versions, accepted-versions}
use riskr_rs.Examples.Samples.{
  plain, policy, volume_def, sanctions, store, ambient, to_value, large, from_iran,
}

abbrev volume_policy : Policy plain
volume_policy = record policy { rules = volume_def ∷ [] }

abbrev rules : RuleSet plain (MockStorage plain)
rules = from_policy plain volume_policy []

abbrev request : Request plain (MockStorage plain)
request = record { rules = rules; ambient = ambient; req = large }

abbrev idle : Service plain (MockStorage plain)
idle = record { tasks = []; store = store; current = rules }

abbrev first : Task plain (MockStorage plain)
first = accept plain request

abbrev second : Task plain (MockStorage plain)
second = accept plain (record request { req = from_iran })

abbrev accepted : Service plain (MockStorage plain)
accepted = record idle { tasks = first ∷ [] }

-- The first task after its first call.
abbrev task_or :
    Outcome (Task plain (MockStorage plain) × MockStorage plain)
    → Task plain (MockStorage plain) × MockStorage plain
task_or (done r) = r
task_or panic = (first, store)

abbrev going : Task plain (MockStorage plain) × MockStorage plain
going = task_or (advance plain (mock plain) to_value first store)

goes_on : advance plain (mock plain) to_value first store ≡ done (going.0, going.1)
unfolding accept advance evaluate_inline is_fatal from_policy
goes_on = refl

abbrev interleaved : Service plain (MockStorage plain)
interleaved = record {
  tasks = going.0 ∷ second ∷ [];
  store = going.1;
  current = from_policy plain policy sanctions;
}

accepted-Moves : Moves plain (mock plain) to_value accepted interleaved
accepted-Moves = goes (accepts ambient from_iran refl) (
    goes (advances [] (second ∷ []) first going.0 going.1 refl goes_on refl)
      (goes (reloads policy sanctions refl) (stays refl)))

run_task-Handled_example :
    (out : Outcome (HttpResponse plain × MockStorage plain)) × Handled plain
      (mock plain)
      to_value
      rules
      ambient
      large
      store
      out
    × (answer_after plain (mock plain) to_value (length rules.streaming + 3 + 0) first store
        ≡ (out >>= as_answer plain (mock plain) to_value))
run_task-Handled_example = run_task-Handled plain (mock plain) to_value request store 0

Moves-Accounted_example : Accounted plain to_value store interleaved
Moves-Accounted_example =
    Moves-Accounted plain to_value idle interleaved refl
      (from_policy-Readers plain volume_policy [])
      (goes (accepts ambient large refl) accepted-Moves)

accepted-versions_example :
    IsPrefix (volume_policy.version ∷ []) (versions plain (mock plain) to_value interleaved)
unfolding from_policy
accepted-versions_example =
    accepted-versions plain (mock plain) to_value idle interleaved ambient large accepted-Moves
