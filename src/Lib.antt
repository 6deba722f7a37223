-- ===== src/Lib.antt =====
-- riskr-rs, a risk decision engine for cryptocurrency transactions.
--
-- The program. A request (src/api/request.rs) describes a subject and a transaction. The handler
-- (src/api/routes.rs, `handle_decision`) reads it as an event and evaluates the rules that are
-- loaded: first the inline rules, which look at the event alone, then, unless one of them is fatal,
-- the streaming rules, which ask the storage what the subject did before. The most severe decision
-- of the rules that trigger is the answer (src/api/response.rs); the transaction and the decision
-- are recorded in the storage. The rules are compiled (src/rules/mod.rs) from a policy file and a
-- sanctions file (src/policy/loader.rs), and a task reloads them when the version of the policy
-- changes (src/policy/hot_reload.rs).
--
-- The files.
--   Base        shared helpers: text, sets and maps as lists, results, panics, Boolean tests
--   Crates      what the program takes from its dependencies, as parameters: decimals, identifiers,
--               times, the bloom filter, JSON values; BloomLaws and DecimalLaws say what the
--               theorems rely on
--   Domain      src/domain: decisions and their order, evidence, subjects, events, policies
--   Storage     src/storage/traits.rs, a record of state transformers over any type of states;
--               Storage/Mock is src/storage/mock.rs; Storage/Tables and Storage/Statements are the
--               tables of migrations/0001_initial_schema.sql and the SQL statements, and
--               Storage/Postgres is src/storage/postgres.rs, an operation being the sequence of the
--               statements that it sends; Storage/Schema is the constraints of the migration, and
--               Storage/Calls any sequence of calls of the trait; Storage/Journal is what both
--               storages promise of their records, as an interface with laws
--   Rules       src/rules: a file for each rule (Ofac, Jurisdiction, KycCap, DailyVolume,
--               Structuring), the two traits, and RuleSet, the compilation of a policy
--   Policy      src/policy: Loader and Watcher
--   Api         src/api: Request, Response, Decide (the handler of decisions) and Status (health,
--               readiness and metrics)
--   Engine      src/main.rs without a database: the watcher, the in-memory storage and the requests in
--               flight from their start; a step is a tick, a request that comes in, or one that goes
--               on up to its next await; Engine/Interleaving relates it to Api/Decide/Tasks
--   Config      src/config/mod.rs: the arguments and their defaults
--   Startup     src/main.rs from the configuration on: what it does, in order, until the server ends
--               or something fails
--   Observability   src/observability/metrics.rs: the counters (Metrics) and the text that Prometheus
--               reads (Metrics/Prometheus, in the format of Exposition)
--   Examples    the theorems at concrete inputs
--   UnitTests   the unit tests of src, as tests of the definitions
-- A module's definitions follow the source; the modules below it hold the proofs.
--
-- How the code is rendered. Text is the list of its code points, and case mapping is that of ASCII.
-- A HashSet or HashMap is a list in some order, and no theorem depends on the order. An operation
-- of the storage takes a state and returns a result and the next state. `handle_decision` is one
-- request alone; Api/Decide/Tasks has requests as tasks that interleave at their awaits, over a
-- storage whose operations are single steps. A panic is an outcome that leaves nothing, since the
-- release profile aborts. A u32, u64 or usize, of 64 bits, is a natural number with the wrap-around
-- written out where the code adds. The clock, fresh identifiers and the contents of files are
-- arguments. Every loop is structural recursion on the list that it goes through. Only `run_task`
-- of Api/Decide/Tasks counts its calls of the storage; one for each streaming rule and three more
-- are shown to be enough. Api/Decide/Tasks/Schedule runs a list of events, one after the other, on
-- the service.
--
-- The database. A table is the list of its rows. What PostgreSQL and serde_json do is a parameter
-- (`Server`): any statement may fail. One that breaks a constraint of the schema changes nothing; one
-- that fails otherwise may have taken effect, its answer being lost, and so may a commit. The
-- statements of a transaction see and change a copy of the tables, which the commit puts in place. A
-- SELECT without ORDER BY answers its rows in an order that the server chooses. A NULL where the
-- program reads a String is a panic. Each operation of the storage runs its statements without those
-- of others in between.
--
-- Not modelled: what connecting and migrating do to the database (parameters of Startup), statements
-- of different connections that interleave, how clap reads the command line, the signals that end
-- the server, src/observability/tracing.rs and every log line, the derived serialisation code,
-- `Policy::compute_hash`, which nothing uses, and the timing of the watcher.
pub mod Base
pub mod Crates
pub mod Domain
pub mod Storage
pub mod Rules
pub mod Policy
pub mod Api
pub mod Observability
pub mod Config
pub mod Startup
pub mod Engine
mod Examples
mod UnitTests
