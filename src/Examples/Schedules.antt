-- ===== src/Examples/Schedules.antt =====
-- Two requests of one user over a database: each comes in, and they take turns.
use riskr_rs.Base.{
  ok, ◌%◌, ◌^◌, text_beq, contains, to_lowercase, ◌≡◌, ◌⊎◌, refl, some, List, [], ◌∷◌, Outcome,
  done, panic, arith,
}
use riskr_rs.Domain.Decision.{is_fatal}
use riskr_rs.Domain.Policy.{Policy}
use riskr_rs.Domain.Subject.{new_address}
use riskr_rs.Rules.DailyVolume
use riskr_rs.Api.Request.{to_tx_event}
use riskr_rs.Rules.RuleSet.{from_policy}
use riskr_rs.Storage.Tables.{Database}
use riskr_rs.Storage.Postgres.{postgres, upsert_subject, get_rolling_volume, get_small_tx_count}
use riskr_rs.Api.Decide.{HttpResponse, evaluate_inline}
use riskr_rs.Api.Decide.Tasks.{Service, Ending, answered, accept, advance}
use riskr_rs.Api.Decide.Tasks.Schedule.{
  Event, request, turn, run_schedule, happen, take_turn, run_schedule-Moves,
}
use riskr_rs.Api.Decide.Tasks.Progress.{task_at, request-answered}
use riskr_rs.Storage.Postgres.Journaled.{database_journal, postgres-IsJournaled}
use riskr_rs.Api.Decide.Tasks.Journaled.{Attributed, Moves-Attributed}
use riskr_rs.Storage.Statements.{sum_or_zero, recent_values, recent_count}
use riskr_rs.Api.Decide.Tasks.Counts.{total, transactions_of}
use riskr_rs.Api.Decide.Tasks.Unseen.{RefusedOr, queries-unseen}
use riskr_rs.Api.Decide.Tasks.Persisted.{Continues, Moves-Continues}
use riskr_rs.Examples.Samples.{plain, policy, volume_def, ambient, to_value, large}
use riskr_rs.Examples.Databases.{server, database}

abbrev volume_policy : Policy plain
volume_policy = record policy { rules = volume_def ∷ [] }

abbrev idle : Service plain (Database plain)
idle = record { tasks = []; store = database; current = from_policy plain volume_policy [] }

-- The first request goes on between the turns of the second.
abbrev taking_turns : List (Event plain)
taking_turns =
    request ambient large ∷ turn 0 ∷ turn 1 ∷ turn 0 ∷ turn 1 ∷ turn 0 ∷ turn 1 ∷ turn 0 ∷ []

abbrev service_or : Outcome (Service plain (Database plain)) → Service plain (Database plain)
service_or (done a) = a
service_or panic = idle

-- After the first call.
abbrev first_turn : List (Event plain)
first_turn = request ambient large ∷ turn 0 ∷ []

abbrev end : Service plain (Database plain)
end = service_or (run_schedule plain (postgres plain server) to_value first_turn idle)

runs : run_schedule plain (postgres plain server) to_value first_turn idle ≡ done end
unfolding run_schedule happen take_turn accept advance evaluate_inline is_fatal from_policy
runs = refl

Moves-Continues_example : Continues plain server database end.store
Moves-Continues_example =
    Moves-Continues plain server to_value volume_policy [] idle end refl refl
      (run_schedule-Moves plain (postgres plain server) to_value first_turn idle end runs)

-- Until the second request was decided.
abbrev busy : Service plain (Database plain)
busy = service_or (run_schedule plain (postgres plain server) to_value taking_turns idle)

takes_turns : run_schedule plain (postgres plain server) to_value taking_turns idle ≡ done busy
unfolding run_schedule happen take_turn accept advance evaluate_inline is_fatal from_policy
    upsert_subject text_beq to_tx_event contains new_address to_lowercase DailyVolume.evaluate
    get_rolling_volume
takes_turns = refl

Moves-Attributed_example :
    Attributed plain
      (postgres plain server)
      (database_journal plain)
      (database_journal plain database)
      busy
Moves-Attributed_example =
    Moves-Attributed plain (postgres plain server) (database_journal plain)
      (postgres-IsJournaled plain server) to_value volume_policy [] idle busy refl refl
      (run_schedule-Moves plain (postgres plain server) to_value taking_turns idle busy takes_turns)

-- Until both requests were evaluated and neither was recorded.
abbrev together : List (Event plain)
together = request ambient large ∷ request ambient large ∷ turn 0 ∷ turn 1 ∷ turn 0 ∷ turn 1 ∷ []

abbrev both : Service plain (Database plain)
both = service_or (run_schedule plain (postgres plain server) to_value together idle)

go_together : run_schedule plain (postgres plain server) to_value together idle ≡ done both
unfolding run_schedule happen take_turn accept advance evaluate_inline is_fatal from_policy
    upsert_subject text_beq to_tx_event contains new_address to_lowercase DailyVolume.evaluate
    get_rolling_volume
go_together = refl

both_unrecorded : total plain (transactions_of plain) both.tasks ≡ 0
unfolding run_schedule happen take_turn accept advance evaluate_inline is_fatal from_policy
    upsert_subject text_beq to_tx_event contains new_address to_lowercase DailyVolume.evaluate
    get_rolling_volume
both_unrecorded = refl

queries-unseen_example :
    RefusedOr plain server
      (sum_or_zero server
        (recent_values 0 86400 (server.now both.store.executed) database.tables.transactions))
      (get_rolling_volume plain server 0 86400 both.store).0
    × RefusedOr plain server
        (ok (
          recent_count 0 86400 (server.now both.store.executed) 2000 database.tables.transactions
          % 2 ^ 32))
        (get_small_tx_count plain server 0 86400 2000 both.store).0
queries-unseen_example =
    queries-unseen plain server to_value volume_policy [] idle both refl refl
      (run_schedule-Moves plain (postgres plain server) to_value together idle both go_together)
      both_unrecorded 0 86400 2000

abbrev schedule_end : Outcome (Service plain (Database plain))
schedule_end =
    run_schedule plain (postgres plain server) to_value (request ambient large ∷ taking_turns) idle

request-answered_example :
    (schedule_end ≡ panic)
    ⊎ ((b : Service plain (Database plain)) × (ending : Ending) × (response : HttpResponse plain)
        × (schedule_end ≡ done b)
        × (task_at 0 b.tasks ≡ some (answered ending response)))
unfolding from_policy
request-answered_example =
    request-answered (postgres plain server) to_value taking_turns idle ambient large (omega arith)
