-- ===== src/Storage/Schema/Keeping.antt =====
-- The statements of src/storage/postgres.rs keep the constraints of the schema.
use riskr_rs.Base.{
  ℕ, ◌≡◌, ap, subst, inl, inr, Bool, true, false, not, ◌&&◌, Option, none, some, Text, text_eq,
  List, map, contains, contains_iff, not-In-of-contains, All-append, All-map, In, ok, ok-injective,
  err-ne_ok, Bool-cases, arith,
}
use riskr_rs.Crates.{Crates}
use riskr_rs.Domain.Subject.{Subject}
use riskr_rs.Storage.{TransactionRecord, DecisionRecord}
use riskr_rs.Storage.Tables.{SubjectRow, AddressRow, TransactionRow, DecisionRow, Tables, Server}
use riskr_rs.Storage.Statements.{
  subject_ids, is_subject, is_known, addresses_of, is_user, put_row, put_subject, put_address,
  put_transaction, put_decision,
}
use riskr_rs.Storage.Postgres.Subjects.{row_of}
use riskr_rs.Storage.Postgres.Windows.{transaction_row}
use riskr_rs.Storage.Schema.{
  user_ids, transaction_ids, decision_ids, Refers, SubjectsSound, PoliciesSound, IsSound,
}
use riskr_rs.Storage.Schema.Rows.{
  Distinct-row, Distinct-add_end, In-add_end, put_row-subject_ids, put_row-user_ids, any-In,
  addresses_of-In,
}

module _ {X : Crates} where
  subject_In : (t : Tables X) (id : X.Uuid) → is_subject t id ≡ true → In id (subject_ids t)
  subject_In t id = (contains_iff ⦃e = X.uuid_eq⦄ (subject_ids t) id).0

  not_subject_In : (t : Tables X) (id : X.Uuid) → is_subject t id ≡ false → ¬ In id (subject_ids t)
  not_subject_In t id = not-In-of-contains ⦃e = X.uuid_eq⦄ (subject_ids t) id

  -- References stay good where the subjects stay.
  subjects-IsSound :
      (t : Tables X) (subjects : List (SubjectRow X))
      → SubjectsSound subjects
      → ((id : X.Uuid) → In id (subject_ids t) → In id (map (λ (r : SubjectRow X). r.id) subjects))
      → IsSound t
      → IsSound (record t { subjects = subjects })
  subjects-IsSound t subjects sound stay h = record {
    subjects = sound;
    addresses = record {
      unique = h.addresses.unique;
      references =
          All-map (λ (r : AddressRow X) m. stay r.subject_id m) t.subject_addresses
            h.addresses.references;
    };
    transactions = record {
      primary_key = h.transactions.primary_key;
      references =
          All-map (λ (r : TransactionRow X) m. stay r.subject_id m) t.transactions
            h.transactions.references;
    };
    sanctions = h.sanctions;
    policies = h.policies;
    decisions = record {
      primary_key = h.decisions.primary_key;
      references =
          All-map (λ (r : DecisionRow X) m. refers r.subject_id m) t.decisions
            h.decisions.references;
    };
  }
    where
      refers :
          (id : Option X.Uuid)
          → Refers (subject_ids t) id
          → Refers (map (λ (r : SubjectRow X). r.id) subjects) id
      refers none m = tt
      refers (some id) m = stay id m

  put_row-IsSound :
      (t : Tables X) (row : SubjectRow X)
      → (not (is_user row.user_id t.subjects) && is_subject t row.id) ≡ false
      → IsSound t
      → IsSound (record t { subjects = (put_row row t.subjects).1 })
  put_row-IsSound t row free h =
      subjects-IsSound t (put_row row t.subjects).1
        (record {
          primary_key = rw (put_row-subject_ids row t.subjects) (
              Distinct-add_end there_is (subject_ids t) row.id
                (λ new. not_subject_In t row.id (ground (arith, new))) h.subjects.primary_key);
          unique_user = rw (put_row-user_ids row t.subjects) (
              Distinct-add_end there_is (user_ids t.subjects) row.user_id
                (any-In (λ (r : SubjectRow X). r.user_id) row.user_id t.subjects)
                h.subjects.unique_user);
        })
        (λ id m.
          rw (put_row-subject_ids row t.subjects) (In-add_end there_is (subject_ids t) row.id id m))
        h
    where
      there_is : Bool
      there_is = is_user row.user_id t.subjects

  pub put_address-IsSound :
      (id : X.Uuid) (address : Text) (n : ℕ) (t t' : Tables X)
      → put_address id address n t ≡ ok (tt, t')
      → IsSound t
      → IsSound t'
  unfolding put_address
  put_address-IsSound id address n t t' e h =
      elim (Bool-cases (contains (addresses_of id t.subject_addresses) address)) [
        | inl there_is ↦ subst IsSound (ap (λ r. r.1) (ok-injective (rw there_is at e))) h
        | inr new ↦ elim (Bool-cases (is_subject t id)) [
          | inl known ↦
              subst IsSound (ap (λ r. r.1) (ok-injective (rw known at (rw new at e)))) (record {
                subjects = h.subjects;
                addresses = record {
                  unique =
                      Distinct-row (λ (r : AddressRow X). (r.subject_id, r.address))
                        t.subject_addresses (record { subject_id = id; address = address })
                        (λ m.
                          not-In-of-contains (addresses_of id t.subject_addresses) address new
                            (addresses_of-In id address t.subject_addresses m))
                        h.addresses.unique;
                  references =
                      All-append _ t.subject_addresses _ h.addresses.references
                        (subject_In t id known, tt);
                };
                transactions = h.transactions;
                sanctions = h.sanctions;
                policies = h.policies;
                decisions = h.decisions;
              })
          | inr unknown ↦ absurd (err-ne_ok (rw unknown at (rw new at e)))
        ]
      ]

  -- A change of the policies alone.
  pub policies-IsSound :
      (t t' : Tables X)
      → t' ≡ record t { policies = t'.policies }
      → PoliciesSound t'.policies
      → IsSound t
      → IsSound t'
  policies-IsSound t t' same sound h = rw same (record {
    subjects = h.subjects;
    addresses = h.addresses;
    transactions = h.transactions;
    sanctions = h.sanctions;
    policies = sound;
    decisions = h.decisions;
  })

module _ {X : Crates} (server : Server X) where
  pub put_subject-IsSound :
      (subject : Subject) (n : ℕ) (t t' : Tables X) (id : X.Uuid)
      → put_subject server subject n t ≡ ok (id, t')
      → IsSound t
      → IsSound t'
  unfolding put_subject
  put_subject-IsSound subject n t t' id e h =
      elim (Bool-cases (not (is_user row.user_id t.subjects) && is_subject t row.id)) [
        | inl clash ↦ absurd (err-ne_ok (rw clash at e))
        | inr free ↦
            subst IsSound (ap (λ r. r.1) (ok-injective (rw free at e)))
              (put_row-IsSound t row free h)
      ]
    where
      row : SubjectRow X
      row = row_of server subject (server.gen_random_uuid n)

  pub put_transaction-IsSound :
      (tx : TransactionRecord X) (n : ℕ) (t t' : Tables X) (id : X.Uuid)
      → put_transaction server tx n t ≡ ok (id, t')
      → IsSound t
      → IsSound t'
  unfolding put_transaction
  put_transaction-IsSound tx n t t' id e h =
      elim (Bool-cases
        (contains ⦃e = X.uuid_eq⦄ (transaction_ids t.transactions) (server.gen_random_uuid n))) [
          | inl clash ↦ absurd (err-ne_ok (rw clash at e))
          | inr new ↦ elim (Bool-cases (is_subject t tx.subject_id)) [
            | inl known ↦
                subst IsSound (ap (λ r. r.1) (ok-injective (rw known at (rw new at e)))) (record {
                  subjects = h.subjects;
                  addresses = h.addresses;
                  transactions = record {
                    primary_key =
                        Distinct-row (λ (r : TransactionRow X). r.id) t.transactions
                          (transaction_row server tx n)
                          (not-In-of-contains ⦃e = X.uuid_eq⦄ (transaction_ids t.transactions) _
                            new)
                          h.transactions.primary_key;
                    references =
                        All-append _ t.transactions _ h.transactions.references
                          (subject_In t tx.subject_id known, tt);
                  };
                  sanctions = h.sanctions;
                  policies = h.policies;
                  decisions = h.decisions;
                })
            | inr unknown ↦ absurd (err-ne_ok (rw unknown at (rw new at e)))
          ]
        ]

  known-Refers :
      (t : Tables X) (id : Option X.Uuid) → is_known t id ≡ true → Refers (subject_ids t) id
  known-Refers t none e = tt
  known-Refers t (some id) e = subject_In t id e

  pub put_decision-IsSound :
      (d : DecisionRecord X) (evidence : X.Json) (n : ℕ) (t t' : Tables X) (id : X.Uuid)
      → put_decision server d evidence n t ≡ ok (id, t')
      → IsSound t
      → IsSound t'
  unfolding put_decision
  put_decision-IsSound d evidence n t t' id e h =
      elim (Bool-cases
        (contains ⦃e = X.uuid_eq⦄ (decision_ids t.decisions) (server.gen_random_uuid n))) [
          | inl clash ↦ absurd (err-ne_ok (rw clash at e))
          | inr new ↦ elim (Bool-cases (is_known t d.subject_id)) [
            | inl known ↦
                subst IsSound (ap (λ r. r.1) (ok-injective (rw known at (rw new at e)))) (record {
                  subjects = h.subjects;
                  addresses = h.addresses;
                  transactions = h.transactions;
                  sanctions = h.sanctions;
                  policies = h.policies;
                  decisions = record {
                    primary_key =
                        Distinct-row (λ (r : DecisionRow X). r.id) t.decisions _
                          (not-In-of-contains ⦃e = X.uuid_eq⦄ (decision_ids t.decisions) _ new)
                          h.decisions.primary_key;
                    references =
                        All-append _ t.decisions _ h.decisions.references
                          (known-Refers t d.subject_id known, tt);
                  };
                })
            | inr unknown ↦ absurd (err-ne_ok (rw unknown at (rw new at e)))
          ]
        ]
