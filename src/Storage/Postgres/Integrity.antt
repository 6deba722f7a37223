-- ===== src/Storage/Postgres/Integrity.antt =====
-- The operations of src/storage/postgres.rs keep the constraints of the schema.
use riskr_rs.Base.{
  ℕ, ◌%◌, ◌^◌, ◌≡◌, arith, Option, some, none, List, [], ◌∷◌, first, Text, Result, ok, err,
}
use riskr_rs.Crates.{Crates}
use riskr_rs.Domain.Subject.{Subject, Address}
use riskr_rs.Domain.Policy.{Policy}
use riskr_rs.Storage.{DecisionRecord}
use riskr_rs.Storage.Calls.{
  Call, get_subject_by_user_id, upsert_subject, record_transaction, get_rolling_volume,
  get_small_tx_count, get_all_sanctions, is_sanctioned, get_active_policy, set_active_policy,
  record_decision, after_call, after_calls, after_calls-keeps,
}
use riskr_rs.Storage.Tables.{
  SubjectRow, PolicyRow, Tables, Server, Database, continue, return, execute, read,
}
use riskr_rs.Storage.Tables.Running.{
  changed, read-elim, read_then-elim, execute-elim, execute_then-elim,
}
use riskr_rs.Storage.Statements.{
  find_subject, addresses_of, actives, put_subject, put_address, put_transaction, put_decision,
  recent_values, recent_count, sum_or_zero, is_listed,
}
use riskr_rs.Storage.Schema.{IsSound}
use riskr_rs.Storage.Schema.Keeping.{
  put_subject-IsSound, put_address-IsSound, put_transaction-IsSound, put_decision-IsSound,
  policies-IsSound,
}
use riskr_rs.Storage.Postgres
use riskr_rs.Storage.Postgres.{postgres, put_addresses, with_addresses, with_columns, decode_policy}
use riskr_rs.Storage.Postgres.Policies.{
  Attempted, succeeded, failed, in_doubt, Settled, tried, gave_up, set_active_policy-Settled,
}

module _ {X : Crates} (server : Server X) where
  -- The tables after an operation.
  abbrev KeepsSound : {A : Type 0} → Result A × Database X → Type 0
  KeepsSound out = IsSound out.1.tables

  read-IsSound :
      {A : Type 0} (statement : ℕ → Tables X → Result A) (db : Database X)
      → IsSound db.tables
      → KeepsSound (read server statement db)
  read-IsSound statement db h = read-elim server statement db KeepsSound (λ message. h) h

  execute-IsSound :
      {A : Type 0} (statement : ℕ → Tables X → Result (A × Tables X)) (db : Database X)
      → ((n : ℕ) (t t' : Tables X) (a : A) → statement n t ≡ ok (a, t') → IsSound t → IsSound t')
      → IsSound db.tables
      → KeepsSound (execute server statement db)
  execute-IsSound statement db keeps h =
      execute-elim server statement db KeepsSound (λ message. h)
        (λ message a t e. keeps db.executed db.tables t a e h)
        (λ a t e. keeps db.executed db.tables t a e h)

  get_subject-IsSound :
      (user_id : Text) (db : Database X)
      → IsSound db.tables
      → KeepsSound (Postgres.get_subject_by_user_id X server user_id db)
  unfolding Postgres.get_subject_by_user_id with_addresses with_columns
  get_subject-IsSound user_id db h =
      read_then-elim server (λ n t. ok (find_subject user_id t.subjects)) (with_addresses X server)
        db KeepsSound (λ message. h) (found (find_subject user_id db.tables.subjects) _ h)
    where
      columns :
          (row : SubjectRow X) (account_id geo_iso : Option Text) (db' : Database X)
          → IsSound db'.tables
          → KeepsSound (with_columns X server row account_id geo_iso db')
      columns row (some account_id) (some geo_iso) db' h' =
          read_then-elim server
            (λ n t. ok (server.row_order n (addresses_of row.id t.subject_addresses))) _ db'
            KeepsSound (λ message. h') h'
      columns row (some account_id) none db' h' = h'
      columns row none geo_iso db' h' = h'

      found :
          (row : Option (SubjectRow X)) (db' : Database X)
          → IsSound db'.tables
          → KeepsSound (with_addresses X server row db')
      found none db' h' = h'
      found (some row) db' h' = columns row row.account_id row.geo_iso db' h'

  put_addresses-IsSound :
      (id : X.Uuid) (addresses : List Address) (db : Database X)
      → IsSound db.tables
      → KeepsSound (put_addresses X server id addresses db)
  unfolding put_addresses
  put_addresses-IsSound id [] db h = h
  put_addresses-IsSound id (address ∷ addresses) db h =
      execute_then-elim server (put_address id address.value)
        (λ _. put_addresses X server id addresses) db KeepsSound (λ message. h)
        (λ message done t e. put_address-IsSound id address.value db.executed db.tables t e h)
        (λ done t e.
          put_addresses-IsSound id addresses (changed db t)
            (put_address-IsSound id address.value db.executed db.tables t e h))

  upsert_subject-IsSound :
      (subject : Subject) (db : Database X)
      → IsSound db.tables
      → KeepsSound (Postgres.upsert_subject X server subject db)
  unfolding Postgres.upsert_subject
  upsert_subject-IsSound subject db h =
      execute_then-elim server (put_subject server subject)
        (λ id. put_addresses X server id subject.addresses) db KeepsSound (λ message. h)
        (λ message id t e. put_subject-IsSound server subject db.executed db.tables t id e h)
        (λ id t e.
          put_addresses-IsSound id subject.addresses (changed db t)
            (put_subject-IsSound server subject db.executed db.tables t id e h))

  get_active_policy-IsSound :
      (db : Database X) → IsSound db.tables → KeepsSound (Postgres.get_active_policy X server db)
  unfolding Postgres.get_active_policy decode_policy
  get_active_policy-IsSound db h =
      read_then-elim server (λ n t. ok (first (actives t.policies))) (decode_policy X server) db
        KeepsSound (λ message. h) (decoded (first (actives db.tables.policies)) _ h)
    where
      answered :
          (r : Result (Policy X)) (db' : Database X)
          → IsSound db'.tables
          → KeepsSound (continue (r, db') (λ policy. return (some policy)))
      answered (ok policy) db' h' = h'
      answered (err message) db' h' = h'

      decoded :
          (row : Option (PolicyRow X)) (db' : Database X)
          → IsSound db'.tables
          → KeepsSound (decode_policy X server row db')
      decoded none db' h' = h'
      decoded (some row) db' h' = answered (server.policy_from_value row.config) db' h'

  Attempted-IsSound :
      (t t' : Tables X) (out : Result (Unit {0}) × Database X)
      → Attempted server t t' out
      → IsSound t
      → IsSound t'
      → KeepsSound out
  Attempted-IsSound t t' _ succeeded h h' = h'
  Attempted-IsSound t t' _ failed h h' = h
  Attempted-IsSound t t' _ (in_doubt lost) h h' = h'

  Settled-IsSound :
      (policy : Policy X) (db : Database X) (out : Result (Unit {0}) × Database X)
      → Settled server policy db out
      → IsSound db.tables
      → KeepsSound out
  Settled-IsSound policy db out (tried config t' encoded a attempted) h =
      Attempted-IsSound db.tables t' out attempted h (
        policies-IsSound db.tables t' a.others
          (record {
            unique_version = a.distinct h.policies.unique_version;
            single_active = rw a.only (omega arith);
          })
          h)
  Settled-IsSound policy db out (gave_up message e same) h = rw same h

  record_decision-IsSound :
      (d : DecisionRecord X) (db : Database X)
      → IsSound db.tables
      → KeepsSound (Postgres.record_decision X server d db)
  unfolding Postgres.record_decision
  record_decision-IsSound d db h = encoded (server.evidence_to_value d.evidence)
    where
      encoded :
          (r : Result X.Json)
          → KeepsSound
              (continue (r, db) (λ evidence. execute server (put_decision server d evidence)))
      encoded (err message) = h
      encoded (ok evidence) =
          execute-IsSound (put_decision server d evidence) db
            (put_decision-IsSound server d evidence) h

  pub after_call-IsSound :
      (call : Call X) (db : Database X)
      → IsSound db.tables
      → IsSound (after_call (postgres X server) call db).tables
  unfolding after_call Postgres.record_transaction Postgres.get_rolling_volume
      Postgres.get_small_tx_count Postgres.get_all_sanctions Postgres.is_sanctioned
  after_call-IsSound (get_subject_by_user_id user_id) db h = get_subject-IsSound user_id db h
  after_call-IsSound (upsert_subject subject) db h = upsert_subject-IsSound subject db h
  after_call-IsSound (record_transaction tx) db h =
      execute-IsSound (put_transaction server tx) db (put_transaction-IsSound server tx) h
  after_call-IsSound (get_rolling_volume id window) db h =
      read-IsSound
        (λ n t. sum_or_zero server (recent_values id window (server.now n) t.transactions)) db h
  after_call-IsSound (get_small_tx_count id window threshold) db h =
      read-IsSound
        (λ n t. ok (recent_count id window (server.now n) threshold t.transactions % 2 ^ 32)) db h
  after_call-IsSound get_all_sanctions db h =
      read-IsSound (λ n t. ok (server.row_order n t.sanctions)) db h
  after_call-IsSound (is_sanctioned address) db h =
      read-IsSound (λ n t. ok (is_listed server address t.sanctions)) db h
  after_call-IsSound get_active_policy db h = get_active_policy-IsSound db h
  after_call-IsSound (set_active_policy policy) db h =
      Settled-IsSound policy db _ (set_active_policy-Settled server policy db) h
  after_call-IsSound (record_decision d) db h = record_decision-IsSound d db h

  -- Whatever operations of the trait are called on the database, with whatever arguments, and
  -- whatever the server refuses, the constraints of the schema hold on: keys stay distinct,
  -- references good, and one policy at most is active.
  after_calls-IsSound :
      (calls : List (Call X)) (db : Database X)
      → IsSound db.tables
      → IsSound (after_calls (postgres X server) calls db).tables
  after_calls-IsSound =
      after_calls-keeps (postgres X server) (λ db. IsSound db.tables) after_call-IsSound
