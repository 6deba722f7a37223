-- ===== src/Storage/Schema.antt =====
-- The constraints of migrations/0001_initial_schema.sql on the tables: primary keys, UNIQUE,
-- REFERENCES, and the partial index that allows one active policy.
pub mod Rows
pub mod Keeping
use riskr_rs.Base.{ℕ, ◌≤◌, List, map, length, All, In, Distinct, Option, none, some, Text}
use riskr_rs.Crates.{Crates}
use riskr_rs.Storage.Tables.{SubjectRow, AddressRow, TransactionRow, PolicyRow, DecisionRow, Tables}
use riskr_rs.Storage.Statements.{subject_ids, actives}

-- A reference that may be NULL.
abbrev pub Refers : {A : Type 0} → List A → Option A → Type 0
Refers ids none = Unit
Refers ids (some id) = In id ids

module _ {X : Crates} where
  abbrev pub user_ids : List (SubjectRow X) → List Text
  user_ids rows = map (λ (r : SubjectRow X). r.user_id) rows

  -- The columns of `UNIQUE(subject_id, address)`.
  abbrev pub address_keys : List (AddressRow X) → List (X.Uuid × Text)
  address_keys rows = map (λ (r : AddressRow X). (r.subject_id, r.address)) rows

  abbrev pub transaction_ids : List (TransactionRow X) → List X.Uuid
  transaction_ids rows = map (λ (r : TransactionRow X). r.id) rows

  abbrev pub versions : List (PolicyRow X) → List Text
  versions rows = map (λ (r : PolicyRow X). r.version) rows

  abbrev pub decision_ids : List (DecisionRow X) → List X.Uuid
  decision_ids rows = map (λ (r : DecisionRow X). r.id) rows

  pub record SubjectsSound (rows : List (SubjectRow X)) : Type 0 where
    pub primary_key : Distinct (map (λ (r : SubjectRow X). r.id) rows)
    pub unique_user : Distinct (user_ids rows)

  pub record AddressesSound (subjects : List X.Uuid) (rows : List (AddressRow X)) : Type 0 where
    pub unique : Distinct (address_keys rows)
    pub references : All (λ (r : AddressRow X). In r.subject_id subjects) rows

  pub record TransactionsSound (subjects : List X.Uuid) (rows : List (TransactionRow X))
      : Type 0 where
    pub primary_key : Distinct (transaction_ids rows)
    pub references : All (λ (r : TransactionRow X). In r.subject_id subjects) rows

  pub record PoliciesSound (rows : List (PolicyRow X)) : Type 0 where
    pub unique_version : Distinct (versions rows)
    pub single_active : length (actives rows) ≤ 1

  pub record DecisionsSound (subjects : List X.Uuid) (rows : List (DecisionRow X)) : Type 0 where
    pub primary_key : Distinct (decision_ids rows)
    pub references : All (λ (r : DecisionRow X). Refers subjects r.subject_id) rows

  pub record IsSound (t : Tables X) : Type 0 where
    pub subjects : SubjectsSound t.subjects
    pub addresses : AddressesSound (subject_ids t) t.subject_addresses
    pub transactions : TransactionsSound (subject_ids t) t.transactions
    pub sanctions : Distinct t.sanctions
    pub policies : PoliciesSound t.policies
    pub decisions : DecisionsSound (subject_ids t) t.decisions
