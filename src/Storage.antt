-- ===== src/Storage.antt =====
-- src/storage/traits.rs: what the engine asks of its storage. A type `S` of storage states comes
-- with the operations; each returns its result and the next state.
pub mod Mock
pub mod Tables
pub mod Statements
pub mod Schema
pub mod Calls
pub mod Journal
pub mod Postgres
use riskr_rs.Base.{Outcome, ℕ, ◌*◌, Bool, Option, List, Text, Fallible}
use riskr_rs.Crates.{Crates}
use riskr_rs.Domain.Decision.{Decision}
use riskr_rs.Domain.Evidence.{Evidence}
use riskr_rs.Domain.Subject.{Subject}
use riskr_rs.Domain.Policy.{Policy}

pub record TransactionRecord (X : Crates) : Type 0 where
  pub subject_id : X.Uuid
  pub tx_type : Text
  pub asset : Text
  pub amount : X.Decimal
  pub usd_value : X.Decimal
  pub dest_address : Option Text

pub record DecisionRecord (X : Crates) : Type 0 where
  pub subject_id : Option X.Uuid
  pub request : X.Json
  pub decision : Decision
  pub decision_code : Text
  pub policy_version : Text
  pub evidence : List Evidence
  pub latency_ms : ℕ

-- A window of time, in seconds.
abbrev pub hours : ℕ → ℕ
hours n = n * 3600

pub record Storage (X : Crates) (S : Type 0) : Type 0 where
  pub get_subject_by_user_id : Text → Fallible S (Outcome (Option (X.Uuid × Subject)))
  pub upsert_subject : Subject → Fallible S X.Uuid
  pub record_transaction : TransactionRecord X → Fallible S X.Uuid
  pub get_rolling_volume : X.Uuid → (window : ℕ) → Fallible S X.Decimal
  pub get_small_tx_count : X.Uuid → (window : ℕ) → (threshold : X.Decimal) → Fallible S ℕ
  pub get_all_sanctions : Fallible S (List Text)
  pub is_sanctioned : Text → Fallible S Bool
  pub get_active_policy : Fallible S (Option (Policy X))
  pub set_active_policy : Policy X → Fallible S Unit
  pub record_decision : DecisionRecord X → Fallible S X.Uuid
