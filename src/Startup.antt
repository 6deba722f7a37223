-- ===== src/Startup.antt =====
-- src/main.rs: what the process does from its configuration on, in order, and what ends it. The
-- calls that may fail, and serving, are parameters; a deed is one of them, or of the watcher's task.
pub mod Orderly
use riskr_rs.Base.{
  ℕ, Bool, true, false, Option, none, some, List, [], ◌∷◌, ◌++◌, Text, Result, ok, Fallible,
}
use riskr_rs.Crates.{Crates}
use riskr_rs.Domain.Policy.{Policy}
use riskr_rs.Storage.Tables.{Database, ◌>>=◌, return}
use riskr_rs.Storage.Mock
use riskr_rs.Storage.Mock.{MockStorage}
use riskr_rs.Policy.Loader.{PolicyLoader, Files}
use riskr_rs.Policy.Watcher.{PolicyWatcher, start}
use riskr_rs.Api.Status.{AppState}
use riskr_rs.Config.{Config, Duration, policy_reload_interval}

pub data Deed : Type 0 where
  watches : PolicyLoader → Duration → Deed
  connects : (database_url : Text) → (min_connections max_connections : ℕ) → Deed
  migrates : Deed
  reads_address : Text → Deed
  binds : Text → Deed
  serves : (graceful_shutdown : Bool) → Deed
  aborts_watcher : Deed

-- The two types behind `Arc<dyn Storage>`.
pub data Backend (X : Crates) : Type 0 where
  on_postgres : Database X → Backend X
  in_memory : MockStorage X → Backend X

pub record Host (X : Crates) : Type 1 where
  pub SocketAddr : Type 0
  pub TcpListener : Type 0
  -- `PgPoolOptions::connect` and `sqlx::migrate!`
  pub connect : Text → (min_connections max_connections : ℕ) → Result (Database X)
  pub migrate : Database X → Result (Database X)
  pub parse_addr : Text → Result SocketAddr
  pub bind : SocketAddr → Result TcpListener
  -- until the server ends
  pub serve :
      (graceful_shutdown : Bool)
      → Backend X
      → AppState X (Backend X)
      → TcpListener
      → Result (Unit {0})

unfoldable pub perform : {A : Type 0} → Deed → Result A → Fallible (List Deed) A
perform deed r log = (r, log ++ deed ∷ [])

unfoldable pub loader_of : Config → PolicyLoader
loader_of config = record {
  policy_path = config.policy_path;
  sanctions_path = config.sanctions_path;
}

module _ {X : Crates} (host : Host X) where
  -- `PostgresStorage::connect` and `PostgresStorage::run_migrations`.
  unfoldable pub connect :
      Text → (min_connections max_connections : ℕ) → Fallible (List Deed) (Database X)
  unfolding perform
  connect database_url min_connections max_connections =
      perform (connects database_url min_connections max_connections)
        (host.connect database_url min_connections max_connections)

  unfoldable pub run_migrations : Database X → Fallible (List Deed) (Database X)
  unfolding perform
  run_migrations pg_storage = perform migrates (host.migrate pg_storage)

  -- `if config.run_migrations`
  unfoldable pub migrate_if : Bool → Database X → Fallible (List Deed) (Database X)
  unfolding run_migrations
  migrate_if true pg_storage = run_migrations pg_storage
  migrate_if false pg_storage = return pg_storage

  unfoldable pub create_storage : Config → Option Text → Fallible (List Deed) (Backend X)
  unfolding connect migrate_if
  create_storage config (some database_url) = do
    pg_storage ← connect database_url config.db_pool_min config.db_pool_max
    pg_storage ← migrate_if config.run_migrations pg_storage
    return (on_postgres pg_storage)
  create_storage config none = return (in_memory (Mock.new X))

  -- From the socket on.
  unfoldable pub run_server :
      Config
      → Backend X
      → AppState X (Backend X)
      → host.TcpListener
      → Fallible (List Deed) (Unit {0})
  unfolding perform
  run_server config storage state listener = do
    _ ←
        perform (serves config.graceful_shutdown)
          (host.serve config.graceful_shutdown storage state listener)
    perform aborts_watcher (ok tt)

  -- From the application state on.
  unfoldable pub listen :
      Config → Backend X → AppState X (Backend X) → Fallible (List Deed) (Unit {0})
  unfolding perform run_server
  listen config storage state = do
    addr ← perform (reads_address config.listen_addr) (host.parse_addr config.listen_addr)
    listener ← perform (binds config.listen_addr) (host.bind addr)
    run_server config storage state listener

  -- From the parsed configuration; the two `Files` answer the watcher's first reads, `now`
  -- is the clock, and `version` that of the package.
  module _ (parse_yaml : Text → Result (Policy X)) (policy_files sanctions_files : Files) (now : ℕ)
      (version : Text) (config : Config) where
    abbrev pub initial_watcher : PolicyWatcher X (Backend X)
    initial_watcher = start X parse_yaml (loader_of config) policy_files sanctions_files

    abbrev pub initial_state : PolicyWatcher X (Backend X) → AppState X (Backend X)
    initial_state watcher = record {
      current = watcher.current;
      start_time = now;
      version = version;
      latency_budget_ms = config.latency_budget_ms;
    }

    unfoldable pub main : Fallible (List Deed) (Unit {0})
    unfolding perform create_storage listen
    main = do
      watcher ←
          perform (watches (loader_of config) (policy_reload_interval config)) (ok initial_watcher)
      storage ← create_storage config config.database_url
      listen config storage (initial_state watcher)
