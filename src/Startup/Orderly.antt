-- ===== src/Startup/Orderly.antt =====
-- The order of what src/main.rs does, and how it fails.
use riskr_rs.Base.{
  ◌≡◌, ℕ, Bool, true, false, Option, none, some, List, [], ◌∷◌, ◌++◌, Text, Result, ok, err,
  Fallible,
}
use riskr_rs.Crates.{Crates}
use riskr_rs.Domain.Policy.{Policy}
use riskr_rs.Storage.Tables.{Database}
use riskr_rs.Api.Status.{AppState}
use riskr_rs.Storage.Mock
use riskr_rs.Policy.Loader.{Files}
use riskr_rs.Policy.Watcher.{PolicyWatcher}
use riskr_rs.Config.{Config, policy_reload_interval}
use riskr_rs.Startup.{
  Deed, watches, connects, migrates, reads_address, binds, serves, aborts_watcher, Backend, Host,
  loader_of, connect, run_migrations, listen, initial_watcher, initial_state,
}

-- What a configuration asks for.
abbrev pub migration_plan : Bool → List Deed
migration_plan true = migrates ∷ []
migration_plan false = []

abbrev pub storage_plan : Config → Option Text → List Deed
storage_plan config (some database_url) =
    connects database_url config.db_pool_min config.db_pool_max
    ∷ migration_plan config.run_migrations
storage_plan config none = []

abbrev pub listen_plan : Config → List Deed
listen_plan config =
    reads_address config.listen_addr
    ∷ binds config.listen_addr
    ∷ serves config.graceful_shutdown
    ∷ aborts_watcher
    ∷ []

abbrev pub plan : Config → List Deed
plan config =
    watches (loader_of config) (policy_reload_interval config)
    ∷ (storage_plan config config.database_url ++ listen_plan config)

module _ {X : Crates} (host : Host X) where
  -- A deed fails with a message.
  pub data Refuses : Deed → Text → Type 0 where
    connection :
        {url : Text} {min max : ℕ} {message : Text}
        → host.connect url min max ≡ err message
        → Refuses (connects url min max) message
    migration :
        {message : Text} (db : Database X)
        → host.migrate db ≡ err message
        → Refuses migrates message
    address :
        {text message : Text}
        → host.parse_addr text ≡ err message
        → Refuses (reads_address text) message
    binding :
        {text message : Text} (addr : host.SocketAddr)
        → host.parse_addr text ≡ ok addr
        → host.bind addr ≡ err message
        → Refuses (binds text) message
    serving :
        {graceful : Bool} {message : Text} (storage : Backend X) (state : AppState X (Backend X))
        (listener : host.TcpListener)
        → host.serve graceful storage state listener ≡ err message
        → Refuses (serves graceful) message

  -- After `log`, the whole of `plan` was done, or its deeds up to the first that failed.
  pub data Follows {A : Type 0} (plan log : List Deed) (r : Result A × List Deed) : Type 0 where
    finished : (a : A) → r ≡ (ok a, log ++ plan) → Follows plan log r
    stopped :
        (earlier : List Deed) (deed : Deed) (later : List Deed) (message : Text)
        → plan ≡ earlier ++ deed ∷ later
        → r ≡ (err message, log ++ (earlier ++ deed ∷ []))
        → Refuses deed message
        → Follows plan log r

  module _ (parse_yaml : Text → Result (Policy X)) (policy_files sanctions_files : Files) (now : ℕ)
      (version : Text) (config : Config) where
    abbrev watching : Deed
    watching = watches (loader_of config) (policy_reload_interval config)

    abbrev watcher : PolicyWatcher X (Backend X)
    watcher = initial_watcher host parse_yaml policy_files sanctions_files now version config

    abbrev serve_by : PolicyWatcher X (Backend X) → Backend X → Fallible (List Deed) (Unit {0})
    serve_by w storage =
        listen host config storage
          (initial_state host parse_yaml policy_files sanctions_files now version config w)
