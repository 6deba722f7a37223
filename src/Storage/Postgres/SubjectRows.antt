-- ===== src/Storage/Postgres/SubjectRows.antt =====
-- What the statements of `upsert_subject` in src/storage/postgres.rs do to the rows.
use riskr_rs.Base.{
  ℕ, ◌≡◌, ok-injective, err-ne_ok, refl, sym, ap, inl, inr, Option, some, none, Text, text_eq, ◌==◌,
  text_beq_iff, List, [], ◌∷◌, ◌++◌, contains, ok, if◌then◌else◌, Bool-cases, arith,
}
use riskr_rs.Crates.{Crates}
use riskr_rs.Domain.Subject.{Address}
use riskr_rs.Storage.Tables.{SubjectRow, AddressRow, Tables}
use riskr_rs.Storage.Statements.{find_subject, addresses_of, is_subject, put_row, put_address}

-- An address that is there is not added again.
abbrev pub add_address : Text → List Text → List Text
add_address address old = if contains old address then old else old ++ address ∷ []

abbrev pub add_all : List Address → List Text → List Text
add_all [] old = old
add_all (a ∷ addresses) old = add_all addresses (add_address a.value old)

module _ {X : Crates} where
  -- The row of a user after the upsert: the old identifier, or that of the new row.
  pub put_row-find :
      (row : SubjectRow X) (user : Text) (rows : List (SubjectRow X))
      → find_subject user (put_row row rows).1 ≡ (
          if row.user_id == user
          then some (record row { id = (put_row row rows).0 })
          else find_subject user rows)
  put_row-find row user [] = refl
  put_row-find row user (r ∷ rows) = ground (
    arith,
    text_beq_iff r.user_id row.user_id,
    text_beq_iff r.user_id user,
    text_beq_iff row.user_id user,
    put_row-find row user rows,
  )

  abbrev pub id_or : X.Uuid → Option (SubjectRow X) → X.Uuid
  id_or id none = id
  id_or id (some r) = r.id

  pub put_row-id :
      (row : SubjectRow X) (rows : List (SubjectRow X))
      → (put_row row rows).0 ≡ id_or row.id (find_subject row.user_id rows)
  put_row-id row [] = refl
  put_row-id row (r ∷ rows) = ground (arith, put_row-id row rows)

  addresses_of-append :
      (owner id : X.Uuid) (address : Text) (rows : List (AddressRow X))
      → addresses_of owner (rows ++ record { subject_id = id; address = address } ∷ []) ≡ (
          if ◌==◌ ⦃test = X.uuid_eq⦄ id owner
          then addresses_of id rows ++ address ∷ []
          else addresses_of owner rows)
  addresses_of-append owner id address [] = refl
  addresses_of-append owner id address (r ∷ rows) = ground (
    arith,
    X.uuid_eq.eqb_iff id owner,
    X.uuid_eq.eqb_iff r.subject_id owner,
    X.uuid_eq.eqb_iff r.subject_id id,
    addresses_of-append owner id address rows,
  )

  -- The tables `t'` are `t` with the addresses added to those of the subject `id`.
  pub record Added (id : X.Uuid) (addresses : List Address) (t t' : Tables X) : Type 0 where
    pub owned :
        (owner : X.Uuid)
        → addresses_of owner t'.subject_addresses ≡ (
            if ◌==◌ ⦃test = X.uuid_eq⦄ id owner
            then add_all addresses (addresses_of id t.subject_addresses)
            else addresses_of owner t.subject_addresses)
    pub others : t' ≡ record t { subject_addresses = t'.subject_addresses }

  pub put_address-Added :
      (id : X.Uuid) (address : Address) (n : ℕ) (t t' : Tables X)
      → put_address id address.value n t ≡ ok (tt, t')
      → Added id (address ∷ []) t t'
  unfolding put_address
  put_address-Added id address n t t' e =
      elim (Bool-cases (contains (addresses_of id t.subject_addresses) address.value)) [
        | inl there_is ↦
            rw (sym (ap (λ (r : Unit {0} × Tables X). r.1) (ok-injective (rw there_is at e))))
              (record {
                owned = λ owner. ground (arith, there_is, X.uuid_eq.eqb_iff id owner);
                others = refl;
              })
        | inr new ↦ elim (Bool-cases (is_subject t id)) [
          | inl known ↦
              rw
                (sym (
                  ap (λ (r : Unit {0} × Tables X). r.1) (ok-injective (rw known at (rw new at e)))))
                (record {
                  owned = λ owner.
                      rw new (addresses_of-append owner id address.value t.subject_addresses);
                  others = refl;
                })
          | inr unknown ↦ absurd (err-ne_ok (rw unknown at (rw new at e)))
        ]
      ]

  pub Added-trans :
      (id : X.Uuid) (address : Address) (addresses : List Address) (t t₁ t' : Tables X)
      → Added id (address ∷ []) t t₁
      → Added id addresses t₁ t'
      → Added id (address ∷ addresses) t t'
  Added-trans id address addresses t t₁ t' p q = record {
    owned = λ owner. ground (
      arith,
      p.owned owner,
      p.owned id,
      q.owned owner,
      X.uuid_eq.eqb_iff id owner,
      X.uuid_eq.eqb_iff id id,
    );
    others = cc (p.others, q.others);
  }

  pub Added-none : (id : X.Uuid) (t : Tables X) → Added id [] t t
  Added-none id t = record {
    owned = λ owner. ground (arith, X.uuid_eq.eqb_iff id owner);
    others = refl;
  }
