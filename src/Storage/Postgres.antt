-- ===== src/Storage/Postgres.antt =====
-- src/storage/postgres.rs: the storage on a PostgreSQL server. An operation is the sequence of the
-- statements that it sends.
pub mod PolicyRows
pub mod Policies
pub mod SubjectRows
pub mod Subjects
pub mod Rereading
pub mod Windows
pub mod Growing
pub mod Growth
pub mod Integrity
pub mod Journaled
use riskr_rs.Base.{
  ℕ, ◌+◌, ◌*◌, ◌%◌, ◌^◌, Bool, true, false, not, as_i32, ◌&&◌, ◌||◌, Option, none, some, List, [],
  ◌∷◌, ◌++◌, map, any, first, keep_if, length, Text, codes, text_eq, ◌==◌, ltb, contains, Result,
  ok, err, Outcome, done, panic, Fallible, if◌then◌else◌,
}
use riskr_rs.Crates.{Crates}
use mathlib.Core.Option
use riskr_rs.Domain.Subject.{
  Subject, Address, from_str, default_tier, new_address, new_country_code,
}
use riskr_rs.Domain.Policy.{Policy}
use riskr_rs.Storage.Tables.{
  SubjectRow, TransactionRow, PolicyRow, Tables, Server, Database, ◌>>=◌, return, of_result,
  execute, read, begin, within, commit,
}
use riskr_rs.Storage.Statements.{
  find_subject, addresses_of, subject_ids, is_subject, put_row, is_user, put_subject, put_address,
  put_transaction, is_recent, recent_values, recent_count, sum_or_zero, is_listed, actives,
  deactivate_all, put_policy_row, is_other_active, put_policy, is_known, put_decision,
}
use riskr_rs.Storage.{Storage, TransactionRecord, DecisionRecord}

module _ {X : Crates} where
  abbrev pub subject_of_row : SubjectRow X → (account_id geo_iso : Text) → List Text → Subject
  subject_of_row row account_id geo_iso addresses = record {
    user_id = record { value = row.user_id };
    account_id = record { value = account_id };
    addresses = map new_address addresses;
    geo_iso = new_country_code geo_iso;
    kyc_tier = Option.get_or (from_str row.kyc_level) default_tier;
  }

module _ (X : Crates) (server : Server X) where
  -- Where the first statement of `get_subject_by_user_id` found a row: `row.get` panics on a NULL, and
  -- then the second statement reads the addresses.
  with_columns :
      SubjectRow X
      → (account_id geo_iso : Option Text)
      → Fallible (Database X) (Outcome (Option (X.Uuid × Subject)))
  unfolding read
  with_columns row (some account_id) (some geo_iso) = do
    addresses ←
        read server (λ n t. ok (server.row_order n (addresses_of row.id t.subject_addresses)))
    return (done (some (row.id, subject_of_row row account_id geo_iso addresses)))
  with_columns row (some account_id) none = return panic
  with_columns row none geo_iso = return panic

  with_addresses :
      Option (SubjectRow X) → Fallible (Database X) (Outcome (Option (X.Uuid × Subject)))
  unfolding with_columns
  with_addresses none = return (done none)
  with_addresses (some row) = with_columns row row.account_id row.geo_iso

  unfoldable pub get_subject_by_user_id :
      Text → Fallible (Database X) (Outcome (Option (X.Uuid × Subject)))
  unfolding read with_addresses
  get_subject_by_user_id user_id = do
    row ← read server (λ n t. ok (find_subject user_id t.subjects))
    with_addresses row

  -- `for address in &subject.addresses`
  unfoldable pub put_addresses : X.Uuid → List Address → Fallible (Database X) X.Uuid
  unfolding execute put_address
  put_addresses subject_id [] = return subject_id
  put_addresses subject_id (address ∷ addresses) = do
    _ ← execute server (put_address subject_id address.value)
    put_addresses subject_id addresses

  unfoldable pub upsert_subject : Subject → Fallible (Database X) X.Uuid
  unfolding execute put_subject put_addresses
  upsert_subject subject = do
    subject_id ← execute server (put_subject server subject)
    put_addresses subject_id subject.addresses

  unfoldable pub record_transaction : TransactionRecord X → Fallible (Database X) X.Uuid
  unfolding execute put_transaction
  record_transaction tx = execute server (put_transaction server tx)

  unfoldable pub get_rolling_volume : X.Uuid → (window : ℕ) → Fallible (Database X) X.Decimal
  unfolding read recent_values
  get_rolling_volume subject_id window =
      read server
        (λ n t. sum_or_zero server (recent_values subject_id window (server.now n) t.transactions))

  -- `count as u32`
  unfoldable pub get_small_tx_count :
      X.Uuid → (window : ℕ) → (threshold : X.Decimal) → Fallible (Database X) ℕ
  unfolding read recent_count
  get_small_tx_count subject_id window threshold =
      read server (λ n t.
        ok (recent_count subject_id window (server.now n) threshold t.transactions % 2 ^ 32))

  unfoldable pub get_all_sanctions : Fallible (Database X) (List Text)
  unfolding read
  get_all_sanctions = read server (λ n t. ok (server.row_order n t.sanctions))

  unfoldable pub is_sanctioned : Text → Fallible (Database X) Bool
  unfolding read
  is_sanctioned address = read server (λ n t. ok (is_listed server address t.sanctions))

  decode_policy : Option (PolicyRow X) → Fallible (Database X) (Option (Policy X))
  decode_policy none = return none
  decode_policy (some row) = do
    policy ← of_result (server.policy_from_value row.config)
    return (some policy)

  unfoldable pub get_active_policy : Fallible (Database X) (Option (Policy X))
  unfolding read decode_policy
  get_active_policy = do
    row ← read server (λ n t. ok (first (actives t.policies)))
    decode_policy row

  unfoldable pub set_active_policy : Policy X → Fallible (Database X) (Unit {0})
  unfolding begin within put_policy commit
  set_active_policy policy = do
    start ← begin server
    inactive ← within server (λ t. ok (record t { policies = deactivate_all t.policies })) start
    config ← of_result (server.policy_to_value policy)
    active ← within server (put_policy policy.version config) inactive
    commit server active

  unfoldable pub record_decision : DecisionRecord X → Fallible (Database X) X.Uuid
  unfolding execute put_decision
  record_decision d = do
    evidence ← of_result (server.evidence_to_value d.evidence)
    execute server (put_decision server d evidence)

  -- `impl Storage for PostgresStorage`
  abbrev pub postgres : Storage X (Database X)
  postgres = record {
    get_subject_by_user_id = get_subject_by_user_id;
    upsert_subject = upsert_subject;
    record_transaction = record_transaction;
    get_rolling_volume = get_rolling_volume;
    get_small_tx_count = get_small_tx_count;
    get_all_sanctions = get_all_sanctions;
    is_sanctioned = is_sanctioned;
    get_active_policy = get_active_policy;
    set_active_policy = set_active_policy;
    record_decision = record_decision;
  }
