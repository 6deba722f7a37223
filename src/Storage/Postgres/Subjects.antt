-- ===== src/Storage/Postgres/Subjects.antt =====
-- The subjects of src/storage/postgres.rs: what `upsert_subject` leaves in the tables.
use riskr_rs.Base.{
  ◌≡◌, ok-injective, err-ne_ok, refl, subst, ap, ◌∙◌, inl, inr, not, ◌&&◌, some, Text, text_eq,
  ◌==◌, List, [], ◌∷◌, ◌++◌, Result, ok, err, if◌then◌else◌, Bool-cases, arith,
}
use riskr_rs.Crates.{Crates}
use riskr_rs.Domain.Subject.{Subject, Address, as_str}
use riskr_rs.Storage.Tables.{SubjectRow, Tables, Server, Database}
use riskr_rs.Storage.Tables.Running.{changed, execute_then-elim}
use riskr_rs.Storage.Statements.{
  find_subject, addresses_of, is_subject, is_user, put_row, put_subject, put_address,
}
use riskr_rs.Storage.Postgres.{put_addresses, upsert_subject}
use riskr_rs.Storage.Postgres.SubjectRows.{
  Added, add_all, id_or, put_row-find, put_row-id, put_address-Added, Added-trans, Added-none,
}

module _ {X : Crates} (server : Server X) where
  -- The loop over the addresses adds them all and answers the identifier, or stops at a failure.
  pub data Looped (id : X.Uuid) (addresses : List Address) (t : Tables X)
      (out : Result X.Uuid × Database X) : Type 0 where
    all : out.0 ≡ ok id → Added id addresses t out.1.tables → Looped id addresses t out
    stopped :
        (message : Text) (added left : List Address)
        → out.0 ≡ err message
        → addresses ≡ added ++ left
        → Added id added t out.1.tables
        → Looped id addresses t out

  Looped-cons :
      (id : X.Uuid) (address : Address) (addresses : List Address) (t t₁ : Tables X)
      (out : Result X.Uuid × Database X)
      → Added id (address ∷ []) t t₁
      → Looped id addresses t₁ out
      → Looped id (address ∷ addresses) t out
  Looped-cons id address addresses t t₁ out first (all answered rest) =
      all answered (Added-trans id address addresses t t₁ out.1.tables first rest)
  Looped-cons id address addresses t t₁ out first (stopped message added left e split rest) =
      stopped message (address ∷ added) left e (ap (λ l. address ∷ l) split)
        (Added-trans id address added t t₁ out.1.tables first rest)

  put_addresses-Looped :
      (id : X.Uuid) (addresses : List Address) (db : Database X)
      → Looped id addresses db.tables (put_addresses X server id addresses db)
  unfolding put_addresses
  put_addresses-Looped id [] db = all refl (Added-none id db.tables)
  put_addresses-Looped id (address ∷ addresses) db =
      execute_then-elim server (put_address id address.value)
        (λ _. put_addresses X server id addresses) db (Looped id (address ∷ addresses) db.tables)
        (λ message. stopped message [] (address ∷ addresses) refl refl (Added-none id db.tables))
        (λ message done t e.
          stopped message (address ∷ []) addresses refl refl
            (put_address-Added id address db.executed db.tables t e))
        (λ done t e.
          Looped-cons id address addresses db.tables t _
            (put_address-Added id address db.executed db.tables t e)
            (put_addresses-Looped id addresses (changed db t)))

  abbrev pub row_of : Subject → X.Uuid → SubjectRow X
  row_of subject id = record {
    id = id;
    user_id = subject.user_id.value;
    account_id = some subject.account_id.value;
    kyc_level = as_str subject.kyc_tier;
    geo_iso = some subject.geo_iso.value;
  }

  -- The subject's row is put under the identifier that the user has, or else under a new one, no
  -- other row of a subject changes, and the addresses are added.
  pub record Saved (subject : Subject) (added : List Address) (db : Database X) (id : X.Uuid)
      (t' : Tables X) : Type 0 where
    pub identity :
        id
        ≡ id_or
            (server.gen_random_uuid db.executed)
            (find_subject subject.user_id.value db.tables.subjects)
    pub rows :
        (user : Text)
        → find_subject user t'.subjects ≡ (
            if subject.user_id.value == user
            then some (row_of subject id)
            else find_subject user db.tables.subjects)
    pub owned :
        (owner : X.Uuid)
        → addresses_of owner t'.subject_addresses ≡ (
            if ◌==◌ ⦃test = X.uuid_eq⦄ id owner
            then add_all added (addresses_of id db.tables.subject_addresses)
            else addresses_of owner db.tables.subject_addresses)
    pub others :
        t' ≡ record db.tables { subjects = t'.subjects; subject_addresses = t'.subject_addresses }

  pub data Upsertion (subject : Subject) (db : Database X) (out : Result X.Uuid × Database X)
      : Type 0 where
    whole :
        (id : X.Uuid)
        → out.0 ≡ ok id
        → Saved subject subject.addresses db id out.1.tables
        → Upsertion subject db out
    part :
        (message : Text) (added left : List Address) (id : X.Uuid)
        → out.0 ≡ err message
        → subject.addresses ≡ added ++ left
        → Saved subject added db id out.1.tables
        → Upsertion subject db out
    nothing :
        (message : Text) → out.0 ≡ err message → out.1.tables ≡ db.tables → Upsertion subject db out

  put_subject-Saved :
      (subject : Subject) (db : Database X) (id : X.Uuid) (t : Tables X)
      → put_subject server subject db.executed db.tables ≡ ok (id, t)
      → Saved subject [] db id t
  unfolding put_subject
  put_subject-Saved subject db id t e =
      elim (Bool-cases
        (not (is_user subject.user_id.value db.tables.subjects) && is_subject db.tables row.id)) [
          | inl clash ↦ absurd (err-ne_ok (rw clash at e))
          | inr free ↦
              subst (λ (r : X.Uuid × Tables X). Saved subject [] db r.0 r.1)
                (ok-injective (rw free at e))
                (record {
                  identity = put_row-id row db.tables.subjects;
                  rows = λ user. put_row-find row user db.tables.subjects;
                  owned = λ owner.
                      ground (arith, X.uuid_eq.eqb_iff (put_row row db.tables.subjects).0 owner);
                  others = refl;
                })
        ]
    where
      row : SubjectRow X
      row = row_of subject (server.gen_random_uuid db.executed)

  Saved-Added :
      (subject : Subject) (added : List Address) (db : Database X) (id : X.Uuid) (t t' : Tables X)
      → Saved subject [] db id t
      → Added id added t t'
      → Saved subject added db id t'
  Saved-Added subject added db id t t' s a = record {
    identity = s.identity;
    rows = λ user. ap (λ (x : Tables X). find_subject user x.subjects) a.others ∙ s.rows user;
    owned = λ owner. ground (
      arith,
      s.owned owner,
      s.owned id,
      a.owned owner,
      X.uuid_eq.eqb_iff id owner,
      X.uuid_eq.eqb_iff id id,
    );
    others = cc (s.others, a.others);
  }

  Looped-Upsertion :
      (subject : Subject) (db : Database X) (id : X.Uuid) (t : Tables X)
      (out : Result X.Uuid × Database X)
      → Saved subject [] db id t
      → Looped id subject.addresses t out
      → Upsertion subject db out
  Looped-Upsertion subject db id t out s (all e a) =
      whole id e (Saved-Added subject subject.addresses db id t out.1.tables s a)
  Looped-Upsertion subject db id t out s (stopped message added left e split a) =
      part message added left id e split (Saved-Added subject added db id t out.1.tables s a)

  -- An upsert keeps the user's identifier or draws one, and writes the user's row and no other
  -- subject's. It adds the subject's addresses after the stored ones, removes none, and changes no
  -- other table. It is not one transaction: a failure leaves nothing, or the row with a first part
  -- of the addresses.
  pub upsert_subject-Upsertion :
      (subject : Subject) (db : Database X)
      → Upsertion subject db (upsert_subject X server subject db)
  unfolding upsert_subject
  upsert_subject-Upsertion subject db =
      execute_then-elim server (put_subject server subject)
        (λ id. put_addresses X server id subject.addresses) db (Upsertion subject db)
        (λ message. nothing message refl refl)
        (λ message id t e.
          part message [] subject.addresses id refl refl (put_subject-Saved subject db id t e))
        (λ id t e.
          Looped-Upsertion subject db id t _ (put_subject-Saved subject db id t e)
            (put_addresses-Looped id subject.addresses (changed db t)))
