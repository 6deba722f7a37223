-- ===== src/Api/Decide/Persisted.antt =====
-- The handler over the storage of src/storage/postgres.rs.
use riskr_rs.Base.{◌≡◌, List, Text, Option, done}
use riskr_rs.Crates.{Crates}
use riskr_rs.Domain.Policy.{Policy}
use riskr_rs.Rules.RuleSet.{from_policy}
use riskr_rs.Rules.RuleSet.Preserving.{QueriesPreserve}
use riskr_rs.Storage.Tables.{Server, Database}
use riskr_rs.Storage.Postgres.{postgres}
use riskr_rs.Storage.Postgres.Growing.{Grows, Grows-refl, Grows-trans}
use riskr_rs.Storage.Postgres.Growth.{
  upsert_subject-Grows, record_transaction-Grows, record_decision-Grows, get_rolling_volume-Grows,
  get_small_tx_count-Grows,
}
use riskr_rs.Api.Request.{DecisionRequest}
use riskr_rs.Api.Decide.{Ambient, HttpResponse, handle_decision}
use riskr_rs.Api.Decide.Preserving.{WritesPreserve, handle_decision-Preserves}

module _ (X : Crates) (server : Server X) where
  -- From one database state to a later one.
  abbrev pub Later : Database X → Database X → Type 0
  Later db db' = Grows db.tables db'.tables

  pub postgres-QueriesPreserve : QueriesPreserve X (postgres X server) Later
  postgres-QueriesPreserve = record {
    volume = get_rolling_volume-Grows server;
    count = get_small_tx_count-Grows server;
  }

  pub postgres-WritesPreserve : WritesPreserve X (postgres X server) Later
  postgres-WritesPreserve = record {
    upsert = upsert_subject-Grows server;
    transaction = record_transaction-Grows server;
    decision = record_decision-Grows server;
  }

  -- Whatever the server refuses on the way, a request that is answered over the database under the
  -- rules of a policy loses nothing there: rows are added at the end of the transactions and
  -- decisions, sanctions and policies stay, every subject keeps its addresses and every user its
  -- identifier.
  handle_decision-Grows :
      (to_value : DecisionRequest X → Option X.Json) (policy : Policy X) (sanctions : List Text)
      (ambient : Ambient X) (req : DecisionRequest X) (db db' : Database X)
      (response : HttpResponse X)
      → handle_decision X
          (postgres X server)
          to_value
          (from_policy X policy sanctions)
          ambient
          req
          db
        ≡ done (response, db')
      → Grows db.tables db'.tables
  handle_decision-Grows =
      handle_decision-Preserves X (postgres X server) Later (λ db. Grows-refl db.tables)
        (λ a b c p q. Grows-trans a.tables b.tables c.tables p q) postgres-QueriesPreserve
        postgres-WritesPreserve
