-- ===== src/Storage/Postgres/Rereading.antt =====
-- Reading a subject back from src/storage/postgres.rs.
use mathlib.Core.List.{Perm}
use riskr_rs.Base.{
  ℕ, subst, done, suc, ◌≡◌, ok-injective, refl, sym, ap, ◌∙◌, some, none, Text, text_eq,
  text_beq_iff, List, map, Result, ok, arith,
}
use riskr_rs.Crates.{Crates}
use riskr_rs.Domain.Subject.Tiers.{from_str-as_str}
use riskr_rs.Domain.Subject.{Subject, new_address, new_country_code}
use riskr_rs.Storage.Tables.{SubjectRow, Server, Database, read}
use riskr_rs.Storage.Statements.{find_subject, addresses_of}
use riskr_rs.Storage.Postgres.{
  upsert_subject, with_addresses, with_columns, get_subject_by_user_id, subject_of_row,
}
use riskr_rs.Storage.Postgres.SubjectRows.{add_all}
use riskr_rs.Storage.Postgres.Subjects.{
  Saved, Upsertion, whole, part, nothing, row_of, upsert_subject-Upsertion,
}

module _ {X : Crates} (server : Server X) where
  -- The subject as it reads back with the given rows of addresses.
  abbrev pub reread : Subject → List Text → Subject
  reread subject addresses = record subject {
    addresses = map new_address addresses;
    geo_iso = new_country_code subject.geo_iso.value;
  }

  Upsertion-ok :
      (subject : Subject) (db : Database X) (out : Result X.Uuid × Database X) (id : X.Uuid)
      → Upsertion server subject db out
      → out.0 ≡ ok id
      → Saved server subject subject.addresses db id out.1.tables
  Upsertion-ok subject db out id (whole i e s) answered =
      rw (sym (ok-injective (sym e ∙ answered))) s
  Upsertion-ok subject db out id (part message added left i e split s) answered = cc
  Upsertion-ok subject db out id (nothing message e same) answered = cc

  -- Reading a user who has a row without NULLs.
  get_subject_by_user_id-found :
      (user : Text) (db : Database X) (row : SubjectRow X) (account_id geo_iso : Text)
      → find_subject user db.tables.subjects ≡ some row
      → row.account_id ≡ some account_id
      → row.geo_iso ≡ some geo_iso
      → server.fault db.executed ≡ none
      → server.fault (suc db.executed) ≡ none
      → (get_subject_by_user_id X server user db).0
        ≡ ok (
            done (
              some (
                row.id,
                subject_of_row row account_id geo_iso (
                    server.row_order
                      (suc db.executed)
                      (addresses_of row.id db.tables.subject_addresses)),
              )))
  unfolding get_subject_by_user_id with_addresses with_columns read
  get_subject_by_user_id-found user db row account_id geo_iso found account geo up up' =
      rw up (rw found (rw account (rw geo (rw up' refl))))

  subject_of_row-row_of :
      (subject : Subject) (id : X.Uuid) (addresses : List Text)
      → subject_of_row
          (row_of server subject id)
          subject.account_id.value
          subject.geo_iso.value
          addresses
        ≡ reread subject addresses
  subject_of_row-row_of subject id addresses = rw (from_str-as_str subject.kyc_tier) refl

  -- Where the server answers a SELECT without ORDER BY with its rows in some order: after a
  -- successful upsert, reading the user gives the answered identifier and the subject, its country in
  -- upper case and its addresses in lower case, which are those stored before and those that the
  -- upsert added, in some order, where the server answers both statements.
  pub get_subject_by_user_id-upsert_subject :
      ((n : ℕ) (rows : List Text) → Perm (server.row_order n rows) rows)
      → (subject : Subject) (db : Database X) (id : X.Uuid)
      → (upsert_subject X server subject db).0 ≡ ok id
      → server.fault (upsert_subject X server subject db).1.executed ≡ none
      → server.fault (suc (upsert_subject X server subject db).1.executed) ≡ none
      → (rows : List Text) × Perm rows
          (add_all subject.addresses (addresses_of id db.tables.subject_addresses))
        × ((get_subject_by_user_id X server subject.user_id.value
              (upsert_subject X server subject db).1).0
            ≡ ok (done (some (id, reread subject rows))))
  get_subject_by_user_id-upsert_subject reorders subject db id answered up up' =
      let s = Upsertion-ok subject db _ id (upsert_subject-Upsertion server subject db) answered in
      let db' : Database X = (upsert_subject X server subject db).1 in
      let there_is : find_subject subject.user_id.value db'.tables.subjects
          ≡ some (row_of server subject id) =
        ground (
          arith,
          s.rows subject.user_id.value,
          text_beq_iff subject.user_id.value subject.user_id.value,
        ) in
      let owned : addresses_of id db'.tables.subject_addresses
          ≡ add_all subject.addresses (addresses_of id db.tables.subject_addresses) =
        ground (arith, s.owned id, X.uuid_eq.eqb_iff id id) in
      let rows =
        server.row_order (suc db'.executed) (addresses_of id db'.tables.subject_addresses) in
      (
        rows,
        subst (λ l. Perm rows l) owned (reorders (suc db'.executed) _),
        get_subject_by_user_id-found subject.user_id.value db' (row_of server subject id)
              subject.account_id.value subject.geo_iso.value there_is refl refl up up'
            ∙ ap (λ s. ok (done (some (id, s)))) (subject_of_row-row_of subject id rows),
      )
