-- ===== src/Storage/Postgres/Windows.antt =====
-- The windows of src/storage/postgres.rs: what a recorded transaction adds to the queries that the
-- streaming rules ask.
use riskr_rs.Base.{
  ℕ, suc, ◌+◌, ◌*◌, ◌%◌, ◌^◌, ◌≡◌, inl, inr, ok-injective, err-ne_ok, refl, sym, ap, ◌∙◌, true,
  ◌&&◌, none, Text, ◌==◌, List, [], ◌∷◌, ◌++◌, map, keep_if, length, contains, ltb, Result, ok, err,
  if◌then◌else◌, Bool-cases,
}
use riskr_rs.Crates.{Crates}
use riskr_rs.Storage.{TransactionRecord}
use riskr_rs.Storage.Tables.{TransactionRow, Tables, Server, Database, read}
use riskr_rs.Storage.Tables.Running.{counted, changed, execute-elim}
use riskr_rs.Storage.Statements.{
  is_subject, is_recent, recent_values, recent_count, sum_or_zero, put_transaction,
}
use riskr_rs.Storage.Postgres.{record_transaction, get_rolling_volume, get_small_tx_count}

module _ {X : Crates} (server : Server X) where
  abbrev pub transaction_row : TransactionRecord X → (n : ℕ) → TransactionRow X
  transaction_row tx n = record {
    id = server.gen_random_uuid n;
    subject_id = tx.subject_id;
    tx_type = tx.tx_type;
    asset = tx.asset;
    amount = tx.amount;
    usd_value = tx.usd_value;
    dest_address = tx.dest_address;
    created_at = server.now n;
  }

  -- A record is added at the end of its table, for a subject that exists, though the answer may be lost,
  -- or nothing changes.
  pub data Recording (tx : TransactionRecord X) (db : Database X) (out : Result X.Uuid × Database X)
      : Type 0 where
    appended :
        out ≡ (
          ok (server.gen_random_uuid db.executed),
          changed db (record db.tables {
            transactions = db.tables.transactions ++ transaction_row tx db.executed ∷ [];
          }),
        )
        → is_subject db.tables tx.subject_id ≡ true
        → Recording tx db out
    unanswered :
        (message : Text)
        → out ≡ (
          err message,
          changed db (record db.tables {
            transactions = db.tables.transactions ++ transaction_row tx db.executed ∷ [];
          }),
        )
        → Recording tx db out
    refused : (message : Text) → out ≡ (err message, counted db) → Recording tx db out

  -- What the statement that succeeds puts.
  put_transaction-eq :
      (tx : TransactionRecord X) (db : Database X) (id : X.Uuid) (t : Tables X)
      → put_transaction server tx db.executed db.tables ≡ ok (id, t)
      → (◌≡◌ {A = X.Uuid × Tables X}
          (id, t)
          (
            server.gen_random_uuid db.executed,
            record db.tables {
              transactions = db.tables.transactions ++ transaction_row tx db.executed ∷ [];
            },
          ))
        × (is_subject db.tables tx.subject_id ≡ true)
  unfolding put_transaction
  put_transaction-eq tx db id t e =
      elim (Bool-cases (
        contains ⦃e = X.uuid_eq⦄ (map (λ (r : TransactionRow X). r.id) db.tables.transactions)
          (server.gen_random_uuid db.executed))) [
            | inl clash ↦ absurd (err-ne_ok (rw clash at e))
            | inr new ↦ elim (Bool-cases (is_subject db.tables tx.subject_id)) [
              | inl known ↦ (sym (ok-injective (rw known at (rw new at e))), known)
              | inr unknown ↦ absurd (err-ne_ok (rw unknown at (rw new at e)))
            ]
          ]

  pub record_transaction-Recording :
      (tx : TransactionRecord X) (db : Database X)
      → Recording tx db (record_transaction X server tx db)
  unfolding record_transaction
  record_transaction-Recording tx db =
      execute-elim server (put_transaction server tx) db (Recording tx db)
        (λ message. refused message refl)
        (λ message id t e. unanswered message (
          ap (λ (r : X.Uuid × Tables X). (err message, changed db r.1))
            (put_transaction-eq tx db id t e).0))
        (λ id t e.
          let (same, known) = put_transaction-eq tx db id t e in
          appended (ap (λ (r : X.Uuid × Tables X). (ok r.0, changed db r.1)) same) known)

  recent_values-append :
      (id : X.Uuid) (window now : ℕ) (rows : List (TransactionRow X)) (row : TransactionRow X)
      → recent_values id window now (rows ++ row ∷ [])
        ≡ recent_values id window now rows
          ++ (if is_recent id window now row then row.usd_value ∷ [] else [])
  unfolding recent_values
  recent_values-append id window now [] row = elim (Bool-cases (is_recent id window now row)) [
    | inl y ↦ rw y refl
    | inr n ↦ rw n refl
  ]
  recent_values-append id window now (r ∷ rows) row =
      elim (Bool-cases (is_recent id window now r)) [
        | inl y ↦ rw y (ap (λ l. r.usd_value ∷ l) (recent_values-append id window now rows row))
        | inr n ↦ rw n (recent_values-append id window now rows row)
      ]

  -- The part of a window that a record adds, asked at `now`.
  abbrev pub newly : TransactionRecord X → (n : ℕ) → X.Uuid → (window now : ℕ) → List X.Decimal
  newly tx n id window now =
      if ◌==◌ ⦃test = X.uuid_eq⦄ tx.subject_id id && ltb now (server.now n + window * 10 ^ 6)
      then tx.usd_value ∷ []
      else []

  -- The small transactions are counted among those whose values are summed.
  count-values :
      (id : X.Uuid) (window now : ℕ) (threshold : X.Decimal) (rows : List (TransactionRow X))
      → recent_count id window now threshold rows
        ≡ length (keep_if (λ v. X.decimal_lt v threshold) (recent_values id window now rows))
  unfolding recent_count recent_values
  count-values id window now threshold [] = refl
  count-values id window now threshold (r ∷ rows) = elim (Bool-cases (is_recent id window now r)) [
    | inr n ↦ rw n (count-values id window now threshold rows)
    | inl y ↦ elim (Bool-cases (X.decimal_lt r.usd_value threshold)) [
      | inl small ↦ rw y (rw small (ap suc (count-values id window now threshold rows)))
      | inr big ↦ rw y (rw big (count-values id window now threshold rows))
    ]
  ]

  Recording-ok :
      (tx : TransactionRecord X) (db : Database X) (out : Result X.Uuid × Database X) (id : X.Uuid)
      → Recording tx db out
      → out.0 ≡ ok id
      → out.1
        ≡ changed db (record db.tables {
          transactions = db.tables.transactions ++ transaction_row tx db.executed ∷ [];
        })
  Recording-ok tx db out id (appended e known) done = ap (λ r. r.1) e
  Recording-ok tx db out id (unanswered message e) done = cc
  Recording-ok tx db out id (refused message e) done = cc

  module _ (tx : TransactionRecord X) (db : Database X) (id : X.Uuid) (window : ℕ) where
    abbrev after : Database X
    after = (record_transaction X server tx db).1

    -- The values of a subject's transactions in a window, asked after the record.
    abbrev pub values_after : List X.Decimal
    values_after =
        recent_values id window (server.now after.executed) db.tables.transactions
        ++ newly tx db.executed id window (server.now after.executed)

    values_after-eq :
        (tx_id : X.Uuid)
        → (record_transaction X server tx db).0 ≡ ok tx_id
        → recent_values id window (server.now after.executed) after.tables.transactions
          ≡ values_after
    values_after-eq tx_id done =
        ap
          (λ (a : Database X).
            recent_values id window (server.now after.executed) a.tables.transactions)
          (Recording-ok tx db _ tx_id (record_transaction-Recording tx db) done)
        ∙ recent_values-append id window _ db.tables.transactions (transaction_row tx db.executed)

    -- Once a transaction was recorded, and the server answers, the volume of a subject in a window
    -- is the sum of its earlier values there, and of the new one where it is the subject's and the
    -- window reaches back to it; and the count of small transactions is the number of those of these
    -- values that are below the threshold, modulo 2^32.
    pub record_transaction-windows :
        (tx_id : X.Uuid) (threshold : X.Decimal)
        → (record_transaction X server tx db).0 ≡ ok tx_id
        → server.fault (record_transaction X server tx db).1.executed ≡ none
        → ((get_rolling_volume X server id window (record_transaction X server tx db).1).0
            ≡ sum_or_zero server values_after)
          × ((get_small_tx_count X server id window threshold
                (record_transaction X server tx db).1).0
              ≡ ok (length (keep_if (λ v. X.decimal_lt v threshold) values_after) % 2 ^ 32))
    unfolding get_rolling_volume get_small_tx_count read
    record_transaction-windows tx_id threshold done up = (
      rw up (ap (sum_or_zero server) (values_after-eq tx_id done)),
      rw up (
          ap (λ n. ok (n % 2 ^ 32))
            (count-values id window _ threshold after.tables.transactions
              ∙ ap (λ l. length (keep_if (λ v. X.decimal_lt v threshold) l))
                  (values_after-eq tx_id done))),
    )
