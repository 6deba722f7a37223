-- ===== src/Storage/Postgres/Growth.antt =====
-- The operations of src/storage/postgres.rs that a request calls lose nothing.
use mathlib.Core.List.{append-nil}
use riskr_rs.Base.{
  IsPrefix, IsPrefix-refl, ℕ, ◌%◌, ◌^◌, ◌≡◌, ok-injective, err-ne_ok, refl, subst, sym, ap, ◌∙◌,
  inl, inr, Bool, true, false, Option, some, Text, text_eq, ◌==◌, text_beq_iff, List, [], map,
  contains, Result, ok, err, if◌then◌else◌, Bool-cases,
}
use riskr_rs.Crates.{Crates}
use riskr_rs.Domain.Subject.{Subject, Address}
use riskr_rs.Storage.{TransactionRecord, DecisionRecord}
use riskr_rs.Storage.Tables.{
  SubjectRow, DecisionRow, Tables, Server, Database, continue, execute, read,
}
use riskr_rs.Storage.Tables.Running.{read-elim, execute-elim}
use riskr_rs.Storage.Statements.{
  find_subject, addresses_of, is_known, put_decision, recent_values, recent_count, sum_or_zero,
}
use riskr_rs.Storage.Postgres.{
  record_decision, record_transaction, upsert_subject, get_rolling_volume, get_small_tx_count,
}
use riskr_rs.Storage.Postgres.SubjectRows.{add_all, id_or}
use riskr_rs.Storage.Postgres.Subjects.{
  Saved, Upsertion, whole, part, nothing, row_of, upsert_subject-Upsertion,
}
use riskr_rs.Storage.Postgres.Windows.{
  Recording, appended, unanswered, refused, record_transaction-Recording,
}
use riskr_rs.Storage.Postgres.Growing.{IsPrefix-add_all, Grows, Grows-refl, Grows-records}

module _ {X : Crates} (server : Server X) where
  kept_or_row :
      (subject : Subject) (id : X.Uuid) (user : Text) (row : SubjectRow X)
      (old : Option (SubjectRow X)) (other : Option (SubjectRow X)) (fresh : X.Uuid)
      → id ≡ id_or fresh old
      → ((subject.user_id.value ≡ user) → old ≡ other)
      → other ≡ some row
      → (row' : SubjectRow X) × ((if subject.user_id.value == user
            then some (row_of server subject id)
            else other)
          ≡ some row')
        × (row'.id ≡ row.id)
  kept_or_row subject id user row old other fresh is_id same e =
      elim (Bool-cases (subject.user_id.value == user)) [
        | inl y ↦ rw y (
          row_of server subject id,
          refl,
          is_id ∙ ap (id_or fresh) (same ((text_beq_iff subject.user_id.value user).0 y) ∙ e),
        )
        | inr n ↦ rw n (row, e, refl)
      ]

  Saved-Grows :
      (subject : Subject) (added : List Address) (db : Database X) (id : X.Uuid) (t' : Tables X)
      → Saved server subject added db id t'
      → Grows db.tables t'
  Saved-Grows subject added db id t' s = record {
    transactions = ([], ap (λ (t : Tables X). t.transactions) s.others ∙ sym (append-nil _));
    decisions = ([], ap (λ (t : Tables X). t.decisions) s.others ∙ sym (append-nil _));
    sanctions = ap (λ (t : Tables X). t.sanctions) s.others;
    policies = ap (λ (t : Tables X). t.policies) s.others;
    addresses = λ owner. rw (s.owned owner) (grown owner _ refl);
    identifiers = λ user row e. rw (s.rows user) (
        kept_or_row subject id user row _ _ _ s.identity
          (λ p. ap (λ u. find_subject u db.tables.subjects) p) e);
  }
    where
      grown :
          (owner : X.Uuid) (b : Bool)
          → ◌==◌ ⦃test = X.uuid_eq⦄ id owner ≡ b
          → IsPrefix (addresses_of owner db.tables.subject_addresses) (
              if b
              then add_all added (addresses_of id db.tables.subject_addresses)
              else addresses_of owner db.tables.subject_addresses)
      grown owner true y = rw ((X.uuid_eq.eqb_iff id owner).0 y) (IsPrefix-add_all added _)
      grown owner false n = IsPrefix-refl _

  Upsertion-Grows :
      (subject : Subject) (db : Database X) (out : Result X.Uuid × Database X)
      → Upsertion server subject db out
      → Grows db.tables out.1.tables
  Upsertion-Grows subject db out (whole id e s) = Saved-Grows subject subject.addresses db id _ s
  Upsertion-Grows subject db out (part message some_of left id e split s) =
      Saved-Grows subject some_of db id _ s
  Upsertion-Grows subject db out (nothing message e same) = rw same (Grows-refl db.tables)

  Recording-Grows :
      (tx : TransactionRecord X) (db : Database X) (out : Result X.Uuid × Database X)
      → Recording server tx db out
      → Grows db.tables out.1.tables
  Recording-Grows tx db out (appended e known) =
      rw e (Grows-records db.tables _ (_, refl) (IsPrefix-refl _) refl)
  Recording-Grows tx db out (unanswered message e) =
      rw e (Grows-records db.tables _ (_, refl) (IsPrefix-refl _) refl)
  Recording-Grows tx db out (refused message e) = rw e (Grows-refl db.tables)

  put_decision-Grows :
      (d : DecisionRecord X) (evidence : X.Json) (n : ℕ) (t t' : Tables X) (id : X.Uuid)
      → put_decision server d evidence n t ≡ ok (id, t')
      → Grows t t'
  unfolding put_decision
  put_decision-Grows d evidence n t t' id e =
      elim (Bool-cases (
        contains ⦃e = X.uuid_eq⦄ (map (λ (r : DecisionRow X). r.id) t.decisions)
          (server.gen_random_uuid n))) [
            | inl clash ↦ absurd (err-ne_ok (rw clash at e))
            | inr new ↦ elim (Bool-cases (is_known t d.subject_id)) [
              | inl known ↦
                  subst (λ (r : X.Uuid × Tables X). Grows t r.1)
                    (ok-injective (rw known at (rw new at e)))
                    (Grows-records t _ (IsPrefix-refl _) (_, refl) refl)
              | inr unknown ↦ absurd (err-ne_ok (rw unknown at (rw new at e)))
            ]
          ]

  pub record_decision-Grows :
      (d : DecisionRecord X) (db : Database X)
      → Grows db.tables (record_decision X server d db).1.tables
  unfolding record_decision
  record_decision-Grows d db = encoded (server.evidence_to_value d.evidence)
    where
      encoded :
          (r : Result X.Json)
          → Grows db.tables
              (continue
                (r, db)
                (λ evidence. execute server (put_decision server d evidence))).1.tables
      encoded (err message) = Grows-refl db.tables
      encoded (ok evidence) =
          execute-elim server (put_decision server d evidence) db
            (λ out. Grows db.tables out.1.tables) (λ message. Grows-refl db.tables)
            (λ message id t' e. put_decision-Grows d evidence db.executed db.tables t' id e)
            (λ id t' e. put_decision-Grows d evidence db.executed db.tables t' id e)

  read-Grows :
      {A : Type 0} (statement : ℕ → Tables X → Result A) (db : Database X)
      → Grows db.tables (read server statement db).1.tables
  read-Grows statement db =
      read-elim server statement db (λ out. Grows db.tables out.1.tables)
        (λ message. Grows-refl db.tables) (Grows-refl db.tables)

  pub upsert_subject-Grows :
      (subject : Subject) (db : Database X)
      → Grows db.tables (upsert_subject X server subject db).1.tables
  upsert_subject-Grows subject db =
      Upsertion-Grows subject db _ (upsert_subject-Upsertion server subject db)

  pub record_transaction-Grows :
      (tx : TransactionRecord X) (db : Database X)
      → Grows db.tables (record_transaction X server tx db).1.tables
  record_transaction-Grows tx db =
      Recording-Grows tx db _ (record_transaction-Recording server tx db)

  pub get_rolling_volume-Grows :
      (id : X.Uuid) (window : ℕ) (db : Database X)
      → Grows db.tables (get_rolling_volume X server id window db).1.tables
  unfolding get_rolling_volume
  get_rolling_volume-Grows id window db =
      read-Grows (λ n t. sum_or_zero server (recent_values id window (server.now n) t.transactions))
        db

  pub get_small_tx_count-Grows :
      (id : X.Uuid) (window : ℕ) (threshold : X.Decimal) (db : Database X)
      → Grows db.tables (get_small_tx_count X server id window threshold db).1.tables
  unfolding get_small_tx_count
  get_small_tx_count-Grows id window threshold db =
      read-Grows
        (λ n t. ok (recent_count id window (server.now n) threshold t.transactions % 2 ^ 32)) db
