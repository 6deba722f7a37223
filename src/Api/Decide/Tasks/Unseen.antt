-- ===== src/Api/Decide/Tasks/Unseen.antt =====
-- What the streaming rules of requests in flight do not see: the transactions of one another.
use riskr_rs.Base.{
  same_of_few, ℕ, ◌%◌, ◌^◌, ◌≡◌, ◌⊎◌, inl, inr, refl, sym, Option, List, [], Text, Result, ok, err,
}
use riskr_rs.Crates.{Crates}
use riskr_rs.Domain.Policy.{Policy}
use riskr_rs.Rules.RuleSet.{from_policy}
use riskr_rs.Storage.Tables.{Tables, Server, Database, read}
use riskr_rs.Storage.Tables.Running.{read-elim}
use riskr_rs.Storage.Statements.{sum_or_zero, recent_values, recent_count}
use riskr_rs.Storage.Postgres.{postgres, get_rolling_volume, get_small_tx_count}
use riskr_rs.Storage.Postgres.Journaled.{transaction_of_row, database_journal, postgres-IsJournaled}
use riskr_rs.Api.Request.{DecisionRequest}
use riskr_rs.Api.Decide.Tasks.{Service, Moves}
use riskr_rs.Api.Decide.Tasks.Counts.{total, transactions_of}
use riskr_rs.Api.Decide.Tasks.Journaled.{Moves-Attributed}
use riskr_rs.Api.Decide.Tasks.Persisted.{Moves-Continues}

module _ (X : Crates) (server : Server X) where
  -- The server refuses the query, or answers it so.
  abbrev pub RefusedOr : {A : Type 0} → (expected answer : Result A) → Type 0
  RefusedOr expected answer = ((message : Text) × (answer ≡ err message)) ⊎ (answer ≡ expected)

  read-RefusedOr :
      {A : Type 0} (statement : ℕ → Tables X → Result A) (db : Database X)
      → RefusedOr (statement db.executed db.tables) (read server statement db).0
  read-RefusedOr statement db =
      read-elim server statement db (λ out. RefusedOr (statement db.executed db.tables) out.0)
        (λ message. inl (message, refl)) (inr refl)

  module _ (to_value : DecisionRequest X → Option X.Json) (policy : Policy X)
      (sanctions : List Text) (a b : Service X (Database X)) (idle : a.tasks ≡ [])
      (rules : a.current ≡ from_policy X policy sanctions)
      (moves : Moves X (postgres X server) to_value a b)
      (unrecorded : total X (transactions_of X) b.tasks ≡ 0) where
    same_rows : b.store.tables.transactions ≡ a.store.tables.transactions
    same_rows =
        same_of_few (transaction_of_row X) _ a.store.tables.transactions b.store.tables.transactions
          (Moves-Continues X server to_value policy sanctions a b idle rules
            moves).grown.transactions
          (Moves-Attributed X (postgres X server) (database_journal X)
            (postgres-IsJournaled X server) to_value policy sanctions a b idle rules
            moves).transactions
          unrecorded

    -- Requests in flight do not see one another. From a moment with no request in flight and the
    -- rules of a policy on, however the requests that come in interleave over the database, as long as
    -- none of them has recorded its transaction: the volume and the count that a streaming rule
    -- asks for at that time, where the server answers, are those of the transactions of the first
    -- moment.
    pub queries-unseen :
        (id : X.Uuid) (window : ℕ) (threshold : X.Decimal)
        → RefusedOr
            (sum_or_zero server
              (recent_values id window (server.now b.store.executed) a.store.tables.transactions))
            (get_rolling_volume X server id window b.store).0
          × RefusedOr
              (ok (
                recent_count id window
                  (server.now b.store.executed)
                  threshold
                  a.store.tables.transactions
                % 2 ^ 32))
              (get_small_tx_count X server id window threshold b.store).0
    unfolding get_rolling_volume get_small_tx_count
    queries-unseen id window threshold = rw (sym same_rows) (
      read-RefusedOr
          (λ n t. sum_or_zero server (recent_values id window (server.now n) t.transactions))
          b.store,
      read-RefusedOr
          (λ n t. ok (recent_count id window (server.now n) threshold t.transactions % 2 ^ 32))
          b.store,
    )
