-- ===== src/Examples/Engines.antt =====
-- The engine from its start: a first load that fails, and a request during which a reload succeeds.
use riskr_rs.Base.{◌≡◌, refl, codes, [], ◌∷◌, Outcome, done, panic, Text, Result, ok, err, get}
use riskr_rs.Domain.Policy.{Policy}
use riskr_rs.Domain.Decision.{is_fatal}
use riskr_rs.Rules.RuleSet.{empty}
use riskr_rs.Storage.Mock.{MockStorage, mock, upsert_subject}
use riskr_rs.Storage.Mock.Subjects.{HasOwnIds}
use riskr_rs.Policy.Loader.{PolicyLoader, Files, load, load_policy}
use riskr_rs.Policy.Watcher.{start, check_for_updates}
use riskr_rs.Api.Decide.{evaluate_inline}
use riskr_rs.Api.Decide.Tasks.{Task, accept, advance}
use riskr_rs.Engine.{Engine, boot, ticks, accepts, advances, Run, stays, goes}
use riskr_rs.Engine.Records.{InStep, Run-boot-InStep, Run-boot-HasOwnIds, Run-boot-volume}
use riskr_rs.Examples.Samples.{plain, policy, ambient, to_value, large, store}

abbrev parse_version : Text → Result (Policy plain)
parse_version content = ok (record policy { version = content })

abbrev loader : PolicyLoader
loader = record { policy_path = codes "policy.yaml"; sanctions_path = codes "sanctions.txt" }

abbrev missing : Files
missing path = err (codes "not found")

abbrev holds : Text → Files
holds content path = ok content

abbrev engine : Engine plain
engine = boot plain parse_version to_value loader missing missing

-- A request under the empty rule set, and a reload while it is in flight.
abbrev task : Task plain (MockStorage plain)
task = accept plain (record { rules = engine.watcher.current; ambient = ambient; req = large })

abbrev task_or :
    Outcome (Task plain (MockStorage plain) × MockStorage plain)
    → Task plain (MockStorage plain) × MockStorage plain
task_or (done r) = r
task_or panic = (task, store)

abbrev upserted : Task plain (MockStorage plain) × MockStorage plain
upserted = task_or (advance plain (mock plain) to_value task engine.store)

-- Its second call, which records its transaction.
abbrev recorded : Task plain (MockStorage plain) × MockStorage plain
recorded = task_or (advance plain (mock plain) to_value upserted.0 upserted.1)

first_call : advance plain (mock plain) to_value task engine.store ≡ done (upserted.0, upserted.1)
unfolding boot start load load_policy empty accept advance evaluate_inline is_fatal
first_call = refl

second_call :
    advance plain (mock plain) to_value upserted.0 upserted.1 ≡ done (recorded.0, recorded.1)
unfolding boot start load load_policy empty accept advance evaluate_inline is_fatal upsert_subject
    get
second_call = refl

abbrev end : Engine plain
end = record {
  watcher =
      (check_for_updates plain parse_version (holds (codes "v1")) (holds (codes "v1")) (holds [])
        engine.watcher).1;
  tasks = recorded.0 ∷ [];
  store = recorded.1;
}

runs : Run plain parse_version to_value engine end
unfolding boot
runs = goes (accepts ambient large refl) (
    goes (advances [] [] task upserted.0 upserted.1 refl first_call refl) (
      goes (ticks (holds (codes "v1")) (holds (codes "v1")) (holds []) refl) (
        goes (advances [] [] upserted.0 recorded.0 recorded.1 refl second_call refl) (stays refl))))

Run-boot-InStep_example : InStep plain end
Run-boot-InStep_example =
    Run-boot-InStep plain parse_version to_value loader missing missing end runs

Run-boot-HasOwnIds_example : HasOwnIds plain end.store
Run-boot-HasOwnIds_example =
    Run-boot-HasOwnIds plain parse_version to_value (λ m n e. e) loader missing missing end runs

Run-boot-volume_example :
    ((mock plain).get_rolling_volume 0 86400 end.store).0 ≡ ok plain.decimal_zero
Run-boot-volume_example =
    Run-boot-volume plain parse_version to_value loader missing missing end runs 0 86400
