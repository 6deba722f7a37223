-- ===== src/Engine.antt =====
-- src/main.rs without a database: the watcher, the in-memory storage and the requests in flight, and
-- what happens to them after the start: a tick, a request that comes in, or a call of a request.
pub mod Interleaving
pub mod Records
use riskr_rs.Base.{◌≡◌, Option, Text, List, [], ◌∷◌, ◌++◌, Result, done}
use riskr_rs.Crates.{Crates}
use riskr_rs.Domain.Policy.{Policy}
use riskr_rs.Storage.Mock
use riskr_rs.Storage.Mock.{MockStorage, mock}
use riskr_rs.Policy.Loader.{PolicyLoader, Files}
use riskr_rs.Policy.Watcher.{PolicyWatcher, start, check_for_updates}
use riskr_rs.Api.Request.{DecisionRequest}
use riskr_rs.Api.Decide.{Ambient}
use riskr_rs.Api.Decide.Tasks.{Task, accept, advance}

pub record Engine (X : Crates) : Type 0 where
  pub watcher : PolicyWatcher X (MockStorage X)
  pub tasks : List (Task X (MockStorage X))
  pub store : MockStorage X

module _ (X : Crates) (parse_yaml : Text → Result (Policy X))
    (to_value : DecisionRequest X → Option X.Json) where
  -- The start of the process, with the answers of the file system to its two reads.
  unfoldable pub boot : PolicyLoader → (policy_files sanctions_files : Files) → Engine X
  unfolding start
  boot loader policy_files sanctions_files = record {
    watcher = start X parse_yaml loader policy_files sanctions_files;
    tasks = [];
    store = Mock.new X;
  }

  -- A tick of the watcher, a request that takes the rules of the moment and runs up to its first
  -- await, or a request that goes on up to its next one. A request that crashes ends the process,
  -- and is no step.
  pub data Step (e e' : Engine X) : Type 0 where
    ticks :
        (f g h : Files)
        → e' ≡ record e { watcher = (check_for_updates X parse_yaml f g h e.watcher).1 }
        → Step e e'
    accepts :
        (ambient : Ambient X) (req : DecisionRequest X)
        → e' ≡ record e {
          tasks =
              e.tasks
              ++ accept X (record { rules = e.watcher.current; ambient = ambient; req = req }) ∷ [];
        }
        → Step e e'
    advances :
        (before after : List (Task X (MockStorage X))) (task task' : Task X (MockStorage X))
        (s : MockStorage X)
        → e.tasks ≡ before ++ task ∷ after
        → advance X (mock X) to_value task e.store ≡ done (task', s)
        → e' ≡ record e { tasks = before ++ task' ∷ after; store = s }
        → Step e e'

  pub data Run : Engine X → Engine X → Type 0 where
    stays : {e e' : Engine X} → e ≡ e' → Run e e'
    goes : {e e₁ e' : Engine X} → Step e e₁ → Run e₁ e' → Run e e'
