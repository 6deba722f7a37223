-- ===== src/Config.antt =====
-- src/config/mod.rs: the configuration, from the command line and the environment by clap, and by
-- `Default`.
pub mod Defaults
pub mod Given
use mathlib.Core.Option
use riskr_rs.Base.{
  ℕ, ◌+◌, ◌-◌, ◌*◌, ◌^◌, Bool, true, false, ◌&&◌, Option, some, none, List, [], ◌∷◌, Text, codes,
  leb, ltb, nat_beq, if◌then◌else◌,
}

-- A `Duration` of whole seconds.
abbrev pub Duration : Type 0
Duration = ℕ

-- A path is its text.
pub record Config : Type 0 where
  pub listen_addr : Text
  pub policy_path : Text
  pub sanctions_path : Text
  pub wal_path : Option Text
  pub snapshot_path : Option Text
  pub policy_reload_secs : ℕ
  pub latency_budget_ms : ℕ
  pub log_level : Text
  pub max_entries_per_user : ℕ
  pub stripe_count : ℕ
  pub actor_idle_secs : ℕ
  pub graceful_shutdown : Bool
  pub shutdown_timeout_secs : ℕ
  pub database_url : Option Text
  pub db_pool_min : ℕ
  pub db_pool_max : ℕ
  pub run_migrations : Bool

unfoldable pub policy_reload_interval : Config → Duration
policy_reload_interval config = config.policy_reload_secs

unfoldable pub shutdown_timeout : Config → Duration
shutdown_timeout config = config.shutdown_timeout_secs

unfoldable pub actor_idle_timeout : Config → Duration
actor_idle_timeout config = config.actor_idle_secs

unfoldable pub default : Config
default = record {
  listen_addr = codes "0.0.0.0:8080";
  policy_path = codes "policy.yaml";
  sanctions_path = codes "sanctions.txt";
  wal_path = none;
  snapshot_path = none;
  policy_reload_secs = 30;
  latency_budget_ms = 100;
  log_level = codes "info";
  max_entries_per_user = 1000;
  stripe_count = 64;
  actor_idle_secs = 3600;
  graceful_shutdown = true;
  shutdown_timeout_secs = 30;
  database_url = none;
  db_pool_min = 2;
  db_pool_max = 10;
  run_migrations = false;
}

-- `FromStr` of the unsigned integers of `bits` bits: a sign `+` is allowed.
digits_value : ℕ → Text → Option ℕ
digits_value n [] = some n
digits_value n (c ∷ s) =
    let rest = digits_value (n * 10 + (c - b'0')) s in
    if leb b'0' c && leb c b'9' then rest else none

unsigned : Text → Option ℕ
unfolding digits_value
unsigned [] = none
unsigned (c ∷ s) = digits_value 0 (c ∷ s)

within_bits : (bits : ℕ) → Option ℕ → Option ℕ
within_bits bits none = none
within_bits bits (some n) = if ltb n (2 ^ bits) then some n else none

without_sign : Text → Text
without_sign [] = []
without_sign (c ∷ s) = if nat_beq c b'+' then s else c ∷ s

unfoldable pub parse_unsigned : (bits : ℕ) → Text → Option ℕ
unfolding unsigned within_bits without_sign
parse_unsigned bits s = within_bits bits (unsigned (without_sign s))

infixl 5 ◌>>=◌
unfoldable pub ◌>>=◌ : {A B : Type 0} → Option A → (A → Option B) → Option B
none >>= f = none
some a >>= f = f a

-- What clap does: `given` is the text of an argument on the command line or else in its
-- environment variable, and `parse_bool` its reader of switches.
pub record Clap : Type 0 where
  pub given : (long env : Text) → Option Text
  pub parse_bool : Text → Option Bool

module _ (clap : Clap) where
  -- The text of an argument with a default, and its values of the types in use.
  abbrev pub text_or : (long env default_value : Text) → Text
  text_or long env default_value = Option.get_or (clap.given long env) default_value

  abbrev u64 : (long env default_value : Text) → Option ℕ
  u64 long env default_value = parse_unsigned 64 (text_or long env default_value)

  abbrev u32 : (long env default_value : Text) → Option ℕ
  u32 long env default_value = parse_unsigned 32 (text_or long env default_value)

  abbrev switch : (long env default_value : Text) → Option Bool
  switch long env default_value = clap.parse_bool (text_or long env default_value)

  -- `Config::parse`; `none` is an exit with a usage message.
  unfoldable pub parse : Option Config
  unfolding parse_unsigned
  parse = do
    policy_reload_secs ←
        u64 (codes "policy-reload-secs") (codes "RISKR_POLICY_RELOAD_SECS") (codes "30")
    latency_budget_ms ←
        u64 (codes "latency-budget-ms") (codes "RISKR_LATENCY_BUDGET_MS") (codes "100")
    max_entries_per_user ←
        u64 (codes "max-entries-per-user") (codes "RISKR_MAX_ENTRIES_PER_USER") (codes "1000")
    stripe_count ← u64 (codes "stripe-count") (codes "RISKR_STRIPE_COUNT") (codes "64")
    actor_idle_secs ← u64 (codes "actor-idle-secs") (codes "RISKR_ACTOR_IDLE_SECS") (codes "3600")
    graceful_shutdown ←
        switch (codes "graceful-shutdown") (codes "RISKR_GRACEFUL_SHUTDOWN") (codes "true")
    shutdown_timeout_secs ←
        u64 (codes "shutdown-timeout-secs") (codes "RISKR_SHUTDOWN_TIMEOUT_SECS") (codes "30")
    db_pool_min ← u32 (codes "db-pool-min") (codes "RISKR_DB_POOL_MIN") (codes "2")
    db_pool_max ← u32 (codes "db-pool-max") (codes "RISKR_DB_POOL_MAX") (codes "10")
    run_migrations ← switch (codes "run-migrations") (codes "RISKR_RUN_MIGRATIONS") (codes "false")
    some (record {
      listen_addr =
          text_or (codes "listen-addr") (codes "RISKR_LISTEN_ADDR") (codes "0.0.0.0:8080");
      policy_path = text_or (codes "policy-path") (codes "RISKR_POLICY_PATH") (codes "policy.yaml");
      sanctions_path =
          text_or (codes "sanctions-path") (codes "RISKR_SANCTIONS_PATH") (codes "sanctions.txt");
      wal_path = clap.given (codes "wal-path") (codes "RISKR_WAL_PATH");
      snapshot_path = clap.given (codes "snapshot-path") (codes "RISKR_SNAPSHOT_PATH");
      policy_reload_secs = policy_reload_secs;
      latency_budget_ms = latency_budget_ms;
      log_level = text_or (codes "log-level") (codes "RUST_LOG") (codes "info");
      max_entries_per_user = max_entries_per_user;
      stripe_count = stripe_count;
      actor_idle_secs = actor_idle_secs;
      graceful_shutdown = graceful_shutdown;
      shutdown_timeout_secs = shutdown_timeout_secs;
      database_url = clap.given (codes "database-url") (codes "RISKR_DATABASE_URL");
      db_pool_min = db_pool_min;
      db_pool_max = db_pool_max;
      run_migrations = run_migrations;
    })
