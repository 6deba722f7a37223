-- ===== src/Storage/Postgres/Journaled.antt =====
-- The database keeps a journal, in its tables of transactions and decisions.
use mathlib.Core.List.{map-append}
use riskr_rs.Base.{
  ℕ, ◌%◌, ◌^◌, ◌≡◌, ok-injective, err-ne_ok, refl, ap, subst, inl, inr, [], ◌∷◌, ◌++◌, map,
  contains, Result, ok, err, Bool-cases,
}
use riskr_rs.Crates.{Crates}
use riskr_rs.Domain.Subject.{Subject}
use riskr_rs.Storage.{TransactionRecord, DecisionRecord}
use riskr_rs.Storage.Journal.{
  Entry, Journal, entry_of, add_transaction, add_decision, Written, written, unanswered, unwritten,
  IsJournaled,
}
use riskr_rs.Storage.Tables.{
  TransactionRow, DecisionRow, Tables, Server, Database, continue, execute, read,
}
use riskr_rs.Storage.Tables.Running.{read-elim, execute-elim}
use riskr_rs.Storage.Statements.{is_known, put_decision, recent_values, recent_count, sum_or_zero}
use riskr_rs.Storage.Postgres.{postgres, record_decision, get_rolling_volume, get_small_tx_count}
use riskr_rs.Storage.Postgres.Subjects.{Upsertion, whole, part, nothing, upsert_subject-Upsertion}
use riskr_rs.Storage.Postgres.Windows
use riskr_rs.Storage.Postgres.Windows.{
  Recording, appended, refused, transaction_row, record_transaction-Recording,
}

module _ (X : Crates) where
  abbrev pub transaction_of_row : TransactionRow X → TransactionRecord X
  transaction_of_row r = record {
    subject_id = r.subject_id;
    tx_type = r.tx_type;
    asset = r.asset;
    amount = r.amount;
    usd_value = r.usd_value;
    dest_address = r.dest_address;
  }

  abbrev pub entry_of_row : DecisionRow X → Entry X
  entry_of_row r = record {
    subject_id = r.subject_id;
    request = r.request;
    decision = r.decision;
    decision_code = r.decision_code;
    policy_version = r.policy_version;
  }

  abbrev pub tables_journal : Tables X → Journal X
  tables_journal t = record {
    transactions = map transaction_of_row t.transactions;
    decisions = map entry_of_row t.decisions;
  }

  abbrev pub database_journal : Database X → Journal X
  database_journal db = tables_journal db.tables

module _ (X : Crates) (server : Server X) where
  appended-journal :
      (tx : TransactionRecord X) (db : Database X)
      → tables_journal X (record db.tables {
        transactions = db.tables.transactions ++ transaction_row server tx db.executed ∷ [];
      })
        ≡ add_transaction tx (database_journal X db)
  appended-journal tx db =
      ap (λ l. record { transactions = l; decisions = map (entry_of_row X) db.tables.decisions })
        (map-append (transaction_of_row X) db.tables.transactions
          (transaction_row server tx db.executed ∷ []))

  Recording-Written :
      (tx : TransactionRecord X) (db : Database X) (out : Result X.Uuid × Database X)
      → Recording server tx db out
      → Written
          (database_journal X db)
          (add_transaction tx (database_journal X db))
          out.0
          (database_journal X out.1)
  Recording-Written tx db out (appended e known) = rw e (written (appended-journal tx db))
  Recording-Written tx db out (Windows.unanswered message e) =
      rw e (unanswered (appended-journal tx db))
  Recording-Written tx db out (refused message e) = rw e (unwritten refl)

  Upsertion-journal :
      (subject : Subject) (db : Database X) (out : Result X.Uuid × Database X)
      → Upsertion server subject db out
      → database_journal X out.1 ≡ database_journal X db
  Upsertion-journal subject db out (whole id e s) = ap (tables_journal X) s.others
  Upsertion-journal subject db out (part message added left id e split s) =
      ap (tables_journal X) s.others
  Upsertion-journal subject db out (nothing message e same) = ap (tables_journal X) same

  put_decision-journal :
      (d : DecisionRecord X) (evidence : X.Json) (n : ℕ) (t t' : Tables X) (id : X.Uuid)
      → put_decision server d evidence n t ≡ ok (id, t')
      → tables_journal X t' ≡ add_decision d (tables_journal X t)
  unfolding put_decision entry_of
  put_decision-journal d evidence n t t' id e =
      elim (Bool-cases (
        contains ⦃e = X.uuid_eq⦄ (map (λ (r : DecisionRow X). r.id) t.decisions)
          (server.gen_random_uuid n))) [
            | inl clash ↦ absurd (err-ne_ok (rw clash at e))
            | inr new ↦ elim (Bool-cases (is_known t d.subject_id)) [
              | inl known ↦
                  subst
                    (λ (r : X.Uuid × Tables X).
                      tables_journal X r.1 ≡ add_decision d (tables_journal X t))
                    (ok-injective (rw known at (rw new at e)))
                    (ap
                      (λ l. record {
                        transactions = map (transaction_of_row X) t.transactions;
                        decisions = l;
                      })
                      (map-append (entry_of_row X) t.decisions _))
              | inr unknown ↦ absurd (err-ne_ok (rw unknown at (rw new at e)))
            ]
          ]

  record_decision-Written :
      (d : DecisionRecord X) (db : Database X)
      → let (r, db') = record_decision X server d db in
        Written
          (database_journal X db)
          (add_decision d (database_journal X db))
          r
          (database_journal X db')
  unfolding record_decision
  record_decision-Written d db = encoded (server.evidence_to_value d.evidence)
    where
      Outcomes : Result X.Uuid × Database X → Type 0
      Outcomes out =
          Written (database_journal X db) (add_decision d (database_journal X db)) out.0
            (database_journal X out.1)

      encoded :
          (r : Result X.Json)
          → Outcomes
              (continue (r, db) (λ evidence. execute server (put_decision server d evidence)))
      encoded (err message) = unwritten refl
      encoded (ok evidence) =
          execute-elim server (put_decision server d evidence) db Outcomes
            (λ message. unwritten refl)
            (λ message id t' e.
              unanswered (put_decision-journal d evidence db.executed db.tables t' id e))
            (λ id t' e. written (put_decision-journal d evidence db.executed db.tables t' id e))

  read-journal :
      {A : Type 0} (statement : ℕ → Tables X → Result A) (db : Database X)
      → database_journal X (read server statement db).1 ≡ database_journal X db
  read-journal statement db =
      read-elim server statement db (λ out. database_journal X out.1 ≡ database_journal X db)
        (λ message. refl) refl

  pub postgres-IsJournaled : IsJournaled X (postgres X server) (database_journal X)
  unfolding get_rolling_volume get_small_tx_count
  postgres-IsJournaled = record {
    transaction = λ tx db. Recording-Written tx db _ (record_transaction-Recording server tx db);
    decision = record_decision-Written;
    upsert =
        λ subject db. Upsertion-journal subject db _ (upsert_subject-Upsertion server subject db);
    volume = λ id window db.
        read-journal
          (λ n t. sum_or_zero server (recent_values id window (server.now n) t.transactions)) db;
    count = λ id window threshold db.
        read-journal
          (λ n t. ok (recent_count id window (server.now n) threshold t.transactions % 2 ^ 32)) db;
  }
