-- ===== src/Storage/Statements.antt =====
-- The SQL statements of src/storage/postgres.rs, as functions of the tables that
-- migrations/0001_initial_schema.sql creates; the constraints of the schema are tests of the
-- statements. The argument `n` numbers the execution of a statement.
use riskr_rs.Base.{
  ℕ, ◌+◌, ◌*◌, ◌^◌, Bool, true, false, not, as_i32, ◌&&◌, Option, none, some, List, [], ◌∷◌, ◌++◌,
  map, any, length, keep_if, Text, codes, text_eq, ◌==◌, ltb, contains, Result, ok, err,
  if◌then◌else◌,
}
use riskr_rs.Crates.{Crates}
use riskr_rs.Domain.Decision.{debug}
use riskr_rs.Domain.Subject.{Subject, as_str}
use riskr_rs.Storage.Tables.{
  SubjectRow, AddressRow, TransactionRow, PolicyRow, DecisionRow, Tables, Server,
}
use riskr_rs.Storage.{TransactionRecord, DecisionRecord}

module _ {X : Crates} where
  -- SELECT ... FROM subjects WHERE user_id = $1
  abbrev pub find_subject : Text → List (SubjectRow X) → Option (SubjectRow X)
  find_subject user_id [] = none
  find_subject user_id (r ∷ rows) =
      if r.user_id == user_id then some r else find_subject user_id rows

  -- The rows of SELECT address FROM subject_addresses WHERE subject_id = $1, which the server answers
  -- in an order of its own.
  abbrev pub addresses_of : X.Uuid → List (AddressRow X) → List Text
  addresses_of subject_id [] = []
  addresses_of subject_id (r ∷ rows) =
      let rest = addresses_of subject_id rows in
      if ◌==◌ ⦃test = X.uuid_eq⦄ r.subject_id subject_id then r.address ∷ rest else rest

  abbrev pub subject_ids : Tables X → List X.Uuid
  subject_ids t = map (λ (r : SubjectRow X). r.id) t.subjects

  abbrev pub is_subject : Tables X → X.Uuid → Bool
  is_subject t id = contains ⦃e = X.uuid_eq⦄ (subject_ids t) id

  -- INSERT INTO subjects ... ON CONFLICT (user_id) DO UPDATE ... RETURNING id
  abbrev pub put_row : SubjectRow X → List (SubjectRow X) → X.Uuid × List (SubjectRow X)
  put_row row [] = (row.id, row ∷ [])
  put_row row (r ∷ rows) =
      let (id, rest) = put_row row rows in
      if r.user_id == row.user_id then (r.id, record row { id = r.id } ∷ rows) else (id, r ∷ rest)

  abbrev pub is_user : Text → List (SubjectRow X) → Bool
  is_user user_id rows = any (λ (r : SubjectRow X). r.user_id == user_id) rows

  -- INSERT INTO subject_addresses ... ON CONFLICT (subject_id, address) DO NOTHING
  unfoldable pub put_address : X.Uuid → Text → ℕ → Tables X → Result (Unit {0} × Tables X)
  put_address subject_id address n t =
      if contains (addresses_of subject_id t.subject_addresses) address
      then ok (tt, t)
      else if is_subject t subject_id
      then ok (
        tt,
        record t {
          subject_addresses =
              t.subject_addresses ++ record { subject_id = subject_id; address = address } ∷ [];
        },
      )
      else err (codes "violates foreign key constraint")

  -- WHERE subject_id = $1 AND created_at > now() - ($2 || ' seconds')::interval
  abbrev pub is_recent : X.Uuid → (window now : ℕ) → TransactionRow X → Bool
  is_recent subject_id window now r =
      ◌==◌ ⦃test = X.uuid_eq⦄ r.subject_id subject_id && ltb now (r.created_at + window * 10 ^ 6)

  -- The values of the rows that `SUM` adds up.
  unfoldable pub recent_values :
      X.Uuid → (window now : ℕ) → List (TransactionRow X) → List X.Decimal
  recent_values subject_id window now rows =
      map (λ (r : TransactionRow X). r.usd_value) (keep_if (is_recent subject_id window now) rows)

  -- `COUNT(*)`, with AND usd_value < $3
  unfoldable pub recent_count : X.Uuid → (window now : ℕ) → X.Decimal → List (TransactionRow X) → ℕ
  recent_count subject_id window now threshold rows = length (
      keep_if
        (λ (r : TransactionRow X).
          is_recent subject_id window now r && X.decimal_lt r.usd_value threshold)
        rows)

  abbrev pub actives : List (PolicyRow X) → List (PolicyRow X)
  actives rows = keep_if (λ (r : PolicyRow X). r.active) rows

  -- UPDATE policies SET active = false WHERE active = true
  abbrev pub deactivate_all : List (PolicyRow X) → List (PolicyRow X)
  deactivate_all rows = map (λ (r : PolicyRow X). record r { active = false }) rows

  -- INSERT INTO policies ... ON CONFLICT (version) DO UPDATE, with one active row at most.
  abbrev pub put_policy_row : Text → X.Json → List (PolicyRow X) → List (PolicyRow X)
  put_policy_row version config [] =
      record { version = version; config = config; active = true } ∷ []
  put_policy_row version config (r ∷ rows) =
      let rest = put_policy_row version config rows in
      if r.version == version then record r { config = config; active = true } ∷ rows else r ∷ rest

  abbrev pub is_other_active : Text → List (PolicyRow X) → Bool
  is_other_active version rows =
      any (λ (r : PolicyRow X). r.active && not (r.version == version)) rows

  unfoldable pub put_policy : Text → X.Json → Tables X → Result (Tables X)
  put_policy version config t =
      if is_other_active version t.policies
      then err (codes "duplicate key value violates unique constraint")
      else ok (record t { policies = put_policy_row version config t.policies })

  abbrev pub is_known : Tables X → Option X.Uuid → Bool
  is_known t none = true
  is_known t (some id) = is_subject t id

module _ {X : Crates} (server : Server X) where
  unfoldable pub put_subject : Subject → ℕ → Tables X → Result (X.Uuid × Tables X)
  put_subject subject n t =
      let row : SubjectRow X = record {
        id = server.gen_random_uuid n;
        user_id = subject.user_id.value;
        account_id = some subject.account_id.value;
        kyc_level = as_str subject.kyc_tier;
        geo_iso = some subject.geo_iso.value;
      } in
      if not (is_user row.user_id t.subjects) && is_subject t row.id
      then err (codes "duplicate key value violates unique constraint")
      else (let (id, rows) = put_row row t.subjects in ok (id, record t { subjects = rows }))

  unfoldable pub put_transaction : TransactionRecord X → ℕ → Tables X → Result (X.Uuid × Tables X)
  put_transaction tx n t =
      let row : TransactionRow X = record {
        id = server.gen_random_uuid n;
        subject_id = tx.subject_id;
        tx_type = tx.tx_type;
        asset = tx.asset;
        amount = tx.amount;
        usd_value = tx.usd_value;
        dest_address = tx.dest_address;
        created_at = server.now n;
      } in
      if contains ⦃e = X.uuid_eq⦄ (map (λ (r : TransactionRow X). r.id) t.transactions) row.id
      then err (codes "duplicate key value violates unique constraint")
      else if is_subject t tx.subject_id
      then ok (row.id, record t { transactions = t.transactions ++ row ∷ [] })
      else err (codes "violates foreign key constraint")

  -- `COALESCE(SUM(usd_value), 0)`
  abbrev pub sum_or_zero : List X.Decimal → Result X.Decimal
  sum_or_zero [] = ok X.decimal_zero
  sum_or_zero (v ∷ values) = server.sum (v ∷ values)

  -- SELECT EXISTS(... WHERE LOWER(address) = LOWER($1))
  abbrev pub is_listed : Text → List Text → Bool
  is_listed address rows = any (λ a. server.lower a == server.lower address) rows

  unfoldable pub put_decision :
      DecisionRecord X → X.Json → ℕ → Tables X → Result (X.Uuid × Tables X)
  unfolding debug as_i32
  put_decision d evidence n t =
      let row : DecisionRow X = record {
        id = server.gen_random_uuid n;
        subject_id = d.subject_id;
        request = d.request;
        decision = debug d.decision;
        decision_code = d.decision_code;
        policy_version = d.policy_version;
        evidence = evidence;
        latency_ms = as_i32 d.latency_ms;
      } in
      if contains ⦃e = X.uuid_eq⦄ (map (λ (r : DecisionRow X). r.id) t.decisions) row.id
      then err (codes "duplicate key value violates unique constraint")
      else if is_known t d.subject_id
      then ok (row.id, record t { decisions = t.decisions ++ row ∷ [] })
      else err (codes "violates foreign key constraint")
