-- ===== src/Storage/Tables.antt =====
-- The tables of migrations/0001_initial_schema.sql, and how src/storage/postgres.rs executes a
-- statement on them. A table is the list of its rows, oldest first, with the columns that some
-- statement reads, or writes a value of the program to.
pub mod Running
use riskr_rs.Base.{
  ℕ, suc, ℤ, Bool, Option, none, some, List, Text, Result, ok, err, Fallible, if◌then◌else◌,
}
use riskr_rs.Crates.{Crates}
use riskr_rs.Domain.Evidence.{Evidence}
use riskr_rs.Domain.Policy.{Policy}

pub record SubjectRow (X : Crates) : Type 0 where
  pub id : X.Uuid
  pub user_id : Text
  pub account_id : Option Text
  pub kyc_level : Text
  pub geo_iso : Option Text

pub record AddressRow (X : Crates) : Type 0 where
  pub subject_id : X.Uuid
  pub address : Text

pub record TransactionRow (X : Crates) : Type 0 where
  pub id : X.Uuid
  pub subject_id : X.Uuid
  pub tx_type : Text
  pub asset : Text
  pub amount : X.Decimal
  pub usd_value : X.Decimal
  pub dest_address : Option Text
  pub created_at : ℕ

pub record PolicyRow (X : Crates) : Type 0 where
  pub version : Text
  pub config : X.Json
  pub active : Bool

pub record DecisionRow (X : Crates) : Type 0 where
  pub id : X.Uuid
  pub subject_id : Option X.Uuid
  pub request : X.Json
  pub decision : Text
  pub decision_code : Text
  pub policy_version : Text
  pub evidence : X.Json
  pub latency_ms : ℤ

pub record Tables (X : Crates) : Type 0 where
  pub subjects : List (SubjectRow X)
  pub subject_addresses : List (AddressRow X)
  pub transactions : List (TransactionRow X)
  pub sanctions : List Text
  pub policies : List (PolicyRow X)
  pub decisions : List (DecisionRow X)

-- What the program talks to: the server, and serde_json on the types that it stores. Statements are
-- numbered in the order of their execution; any of them may fail.
pub record Server (X : Crates) : Type 0 where
  -- `now()`, in microseconds, `gen_random_uuid()` and `LOWER`
  pub now : ℕ → ℕ
  pub gen_random_uuid : ℕ → X.Uuid
  pub fault : ℕ → Option Text
  -- whether a statement or a commit that fails has taken effect, its answer being lost
  pub answer_lost : ℕ → Bool
  -- the order in which a SELECT without ORDER BY answers its rows
  pub row_order : ℕ → List Text → List Text
  pub lower : Text → Text
  -- `SUM` on NUMERIC, read as a `Decimal`
  pub sum : List X.Decimal → Result X.Decimal
  pub policy_to_value : Policy X → Result X.Json
  pub policy_from_value : X.Json → Result (Policy X)
  pub evidence_to_value : List Evidence → Result X.Json

pub record Database (X : Crates) : Type 0 where
  pub tables : Tables X
  pub executed : ℕ

-- `?` on `anyhow::Result`.
abbrev pub continue : {S A B : Type 0} → Result A × S → (A → Fallible S B) → Result B × S
continue (ok a, s) f = f a s
continue (err message, s) f = (err message, s)

infixl 5 ◌>>=◌
abbrev pub ◌>>=◌ : {S A B : Type 0} → Fallible S A → (A → Fallible S B) → Fallible S B
◌>>=◌ m f s = continue (m s) f

abbrev pub return : {S A : Type 0} → A → Fallible S A
return a s = (ok a, s)

abbrev pub of_result : {S A : Type 0} → Result A → Fallible S A
of_result r s = (r, s)

module _ {X : Crates} (server : Server X) where
  -- A query, or a statement of a transaction, that the server refuses.
  abbrev pub refusal_or : {A : Type 0} → Option Text → Result A → Result A
  refusal_or (some message) r = err message
  refusal_or none r = r

  -- A statement outside a transaction commits by itself: where it fails, it has taken effect all the
  -- same if only its answer was lost. One that breaks a constraint changes nothing.
  finish : {A : Type 0} → Database X → Option Text → Result (A × Tables X) → Result A × Database X
  finish db none (ok (a, tables)) = (ok a, record { tables = tables; executed = suc db.executed })
  finish db (some message) (ok (a, tables)) = (
    err message,
    record {
      tables = if server.answer_lost db.executed then tables else db.tables;
      executed = suc db.executed;
    },
  )
  finish db refusal (err message) = (err message, record db { executed = suc db.executed })

  -- One statement outside a transaction.
  unfoldable pub execute :
      {A : Type 0} → (ℕ → Tables X → Result (A × Tables X)) → Fallible (Database X) A
  unfolding finish
  execute statement db = finish db (server.fault db.executed) (statement db.executed db.tables)

  reading : {A : Type 0} → Database X → Result A → Result A × Database X
  reading db r = (r, record db { executed = suc db.executed })

  unfoldable pub read : {A : Type 0} → (ℕ → Tables X → Result A) → Fallible (Database X) A
  unfolding reading
  read statement db =
      reading db (refusal_or (server.fault db.executed) (statement db.executed db.tables))

  -- `begin`, a statement within the transaction, which sees and changes a copy, and `commit`.
  unfoldable pub begin : Fallible (Database X) (Tables X)
  unfolding read
  begin = read (λ n t. ok t)

  unfoldable pub within :
      (Tables X → Result (Tables X)) → Tables X → Fallible (Database X) (Tables X)
  unfolding read
  within statement copy = read (λ n t. statement copy)

  commit_refused : Database X → Tables X → Option Text → Result (Unit {0}) × Database X
  commit_refused db copy none = (ok tt, record { tables = copy; executed = suc db.executed })
  commit_refused db copy (some message) = (
    err message,
    record {
      tables = if server.answer_lost db.executed then copy else db.tables;
      executed = suc db.executed;
    },
  )

  unfoldable pub commit : Tables X → Fallible (Database X) (Unit {0})
  unfolding commit_refused
  commit copy db = commit_refused db copy (server.fault db.executed)
