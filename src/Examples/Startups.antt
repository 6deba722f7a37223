-- ===== src/Examples/Startups.antt =====
-- A start with a database whose migrations fail, and one without a database that is served.
use riskr_rs.Base.{◌≡◌, refl, some, true, [], List, Text, codes, ok, err, Result}
use riskr_rs.Domain.Policy.{Policy}
use riskr_rs.Policy.Loader.{Files}
use riskr_rs.Config.{Config, default}
use riskr_rs.Startup.{
  Host, Deed, perform, connect, migrate_if, run_migrations, create_storage, run_server, listen,
  main,
}
use riskr_rs.Startup.Orderly.{plan}
use riskr_rs.Examples.Samples.{plain}
use riskr_rs.Examples.Databases.{database}

abbrev host : Host plain
host = record {
  SocketAddr = Text;
  TcpListener = Text;
  connect = λ url min max. ok database;
  migrate = λ db. err (codes "checksum mismatch");
  parse_addr = λ text. ok text;
  bind = λ addr. ok addr;
  serve = λ graceful storage state listener. ok tt;
}

abbrev parse_yaml : Text → Result (Policy plain)
parse_yaml content = err (codes "not a policy")

abbrev missing : Files
missing path = err (codes "not found")

abbrev migrating : Config
unfolding default
migrating = record default { database_url = some (codes "postgres://db"); run_migrations = true }

abbrev run : Config → Result (Unit {0}) × List Deed
run config = main host parse_yaml missing missing 0 (codes "0.1.0") config []

refused_migration : (run migrating).0 ≡ err (codes "checksum mismatch")
unfolding main perform create_storage connect migrate_if run_migrations migrating
refused_migration = refl

served_without_database : run default ≡ (ok tt, plan default)
unfolding main perform create_storage listen run_server default
served_without_database = refl
