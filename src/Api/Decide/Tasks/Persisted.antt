-- ===== src/Api/Decide/Tasks/Persisted.antt =====
-- Requests that interleave over the storage of src/storage/postgres.rs.
use riskr_rs.Base.{◌≡◌, [], List, Text, Option}
use riskr_rs.Crates.{Crates}
use riskr_rs.Domain.Policy.{Policy}
use riskr_rs.Rules.RuleSet.{from_policy}
use riskr_rs.Rules.RuleSet.Preserving.{QueriesPreserve, from_policy-Preserve}
use riskr_rs.Storage.Calls
use riskr_rs.Storage.Calls.{Call, after_call}
use riskr_rs.Storage.Tables.{Server, Database}
use riskr_rs.Storage.Schema.{IsSound}
use riskr_rs.Storage.Postgres.{postgres}
use riskr_rs.Storage.Postgres.Growing.{Grows, Grows-refl, Grows-trans}
use riskr_rs.Storage.Postgres.Integrity.{after_call-IsSound}
use riskr_rs.Api.Request.{DecisionRequest}
use riskr_rs.Api.Decide.Preserving.{WritesPreserve}
use riskr_rs.Api.Decide.Persisted.{postgres-QueriesPreserve, postgres-WritesPreserve}
use riskr_rs.Api.Decide.Tasks.{Service, Moves}
use riskr_rs.Api.Decide.Tasks.Preserving.{Moves-Preserves}

module _ (X : Crates) (server : Server X) where
  -- To a later state of the database that is as sound.
  pub record Continues (db db' : Database X) : Type 0 where
    pub grown : Grows db.tables db'.tables
    pub sound : IsSound db.tables → IsSound db'.tables

  Continues-refl : (db : Database X) → Continues db db
  Continues-refl db = record { grown = Grows-refl db.tables; sound = λ h. h }

  Continues-trans : (a b c : Database X) → Continues a b → Continues b c → Continues a c
  Continues-trans a b c p q = record {
    grown = Grows-trans a.tables b.tables c.tables p.grown q.grown;
    sound = λ h. q.sound (p.sound h);
  }

  call-IsSound :
      (call : Call X) (db : Database X)
      → IsSound db.tables
      → IsSound (after_call (postgres X server) call db).tables
  call-IsSound = after_call-IsSound server

  queries : QueriesPreserve X (postgres X server) Continues
  unfolding after_call
  queries = record {
    volume = λ id window db. record {
      grown = (postgres-QueriesPreserve X server).volume id window db;
      sound = call-IsSound (Calls.get_rolling_volume id window) db;
    };
    count = λ id window threshold db. record {
      grown = (postgres-QueriesPreserve X server).count id window threshold db;
      sound = call-IsSound (Calls.get_small_tx_count id window threshold) db;
    };
  }

  writes : WritesPreserve X (postgres X server) Continues
  unfolding after_call
  writes = record {
    upsert = λ subject db. record {
      grown = (postgres-WritesPreserve X server).upsert subject db;
      sound = call-IsSound (Calls.upsert_subject subject) db;
    };
    transaction = λ tx db. record {
      grown = (postgres-WritesPreserve X server).transaction tx db;
      sound = call-IsSound (Calls.record_transaction tx) db;
    };
    decision = λ d db. record {
      grown = (postgres-WritesPreserve X server).decision d db;
      sound = call-IsSound (Calls.record_decision d) db;
    };
  }

  -- However the awaits of any number of requests over the database interleave, with reloads in
  -- between, and whatever the server refuses, from a moment with no request in flight and the rules
  -- of a policy on: nothing recorded is lost or changed, sanctions and policies stay, every subject
  -- keeps its addresses and every user its identifier, and if the constraints of the schema held at
  -- first they hold at the end.
  pub Moves-Continues :
      (to_value : DecisionRequest X → Option X.Json) (policy : Policy X) (sanctions : List Text)
      (a b : Service X (Database X))
      → a.tasks ≡ []
      → a.current ≡ from_policy X policy sanctions
      → Moves X (postgres X server) to_value a b
      → Continues a.store b.store
  Moves-Continues to_value policy sanctions a b idle rules =
      Moves-Preserves X (postgres X server) Continues Continues-refl writes to_value Continues-trans
        queries a b
        (record {
          tasks = rw idle tt;
          current =
              rw rules
                (from_policy-Preserve X (postgres X server) Continues queries policy sanctions);
        })
