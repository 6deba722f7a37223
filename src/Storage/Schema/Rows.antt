-- ===== src/Storage/Schema/Rows.antt =====
-- What the statements of src/storage/postgres.rs do to the keys of the rows.
use mathlib.Core.List.{map-append}
use riskr_rs.Base.{
  ◌≡◌, ◌⊎◌, refl, sym, ap, inl, inr, Bool, true, false, Text, text_eq, ◌==◌, text_beq_iff, List, [],
  ◌∷◌, ◌++◌, map, any, here, there, In, Any-append_left, Distinct, nil, cons, if◌then◌else◌,
  Bool-cases, arith,
}
use riskr_rs.Crates.{Crates}
use riskr_rs.Storage.Tables.{SubjectRow, AddressRow, PolicyRow}
use riskr_rs.Storage.Statements.{addresses_of, put_row, is_user, deactivate_all, put_policy_row}
use riskr_rs.Storage.Schema.{user_ids, address_keys, versions}

-- One more at the end.
abbrev pub add_end : {A : Type 0} → Bool → A → List A → List A
add_end there_is a xs = if there_is then xs else xs ++ a ∷ []

module _ {A : Type 0} where
  In-end : (xs : List A) (a b : A) → In b (xs ++ a ∷ []) → In b xs ⊎ (a ≡ b)
  In-end [] a b (here e) = inr e
  In-end [] a b (there h) = elim h [ ]
  In-end (x ∷ xs) a b (here e) = inl (here e)
  In-end (x ∷ xs) a b (there h) = elim (In-end xs a b h) [ inl m ↦ inl (there m) | inr e ↦ inr e ]

  Distinct-end : (xs : List A) (a : A) → ¬ In a xs → Distinct xs → Distinct (xs ++ a ∷ [])
  Distinct-end [] a new nil = cons (λ h. elim h [ ]) nil
  Distinct-end (x ∷ xs) a new (cons fresh d) =
      cons (λ h. elim (In-end xs a x h) [ inl m ↦ fresh m | inr e ↦ new (here (sym e)) ])
        (Distinct-end xs a (λ m. new (there m)) d)

  pub Distinct-add_end :
      (b : Bool) (xs : List A) (a : A)
      → (b ≡ false → ¬ In a xs)
      → Distinct xs
      → Distinct (add_end b a xs)
  Distinct-add_end true xs a new d = d
  Distinct-add_end false xs a new d = Distinct-end xs a (new refl) d

  pub In-add_end : (b : Bool) (xs : List A) (a c : A) → In c xs → In c (add_end b a xs)
  In-add_end true xs a c m = m
  In-add_end false xs a c m = Any-append_left xs (a ∷ []) m

-- One more row whose key is new.
pub Distinct-row :
    {A K : Type 0} (key : A → K) (rows : List A) (row : A)
    → ¬ In (key row) (map key rows)
    → Distinct (map key rows)
    → Distinct (map key (rows ++ row ∷ []))
Distinct-row key rows row new d =
    rw (map-append key rows (row ∷ [])) (Distinct-end (map key rows) (key row) new d)

module _ {A : Type 0} (key : A → Text) where
  -- No row has the key.
  pub any-In :
      (k : Text) (rows : List A) → any (λ r. key r == k) rows ≡ false → ¬ In k (map key rows)
  any-In k [] e h = elim h [ ]
  any-In k (r ∷ rows) e (here p) = ground (arith, text_beq_iff (key r) k)
  any-In k (r ∷ rows) e (there h) = ground (arith, any-In k rows)

module _ {X : Crates} where
  pub put_row-subject_ids :
      (row : SubjectRow X) (rows : List (SubjectRow X))
      → map (λ (r : SubjectRow X). r.id) (put_row row rows).1
        ≡ add_end (is_user row.user_id rows) row.id (map (λ (r : SubjectRow X). r.id) rows)
  put_row-subject_ids row [] = refl
  put_row-subject_ids row (r ∷ rows) = ground (arith, put_row-subject_ids row rows)

  pub put_row-user_ids :
      (row : SubjectRow X) (rows : List (SubjectRow X))
      → user_ids (put_row row rows).1
        ≡ add_end (is_user row.user_id rows) row.user_id (user_ids rows)
  put_row-user_ids row [] = refl
  put_row-user_ids row (r ∷ rows) =
      ground (arith, text_beq_iff r.user_id row.user_id, put_row-user_ids row rows)

  pub addresses_of-In :
      (id : X.Uuid) (address : Text) (rows : List (AddressRow X))
      → In (id, address) (address_keys rows)
      → In address (addresses_of id rows)
  addresses_of-In id address [] h = elim h [ ]
  addresses_of-In id address (r ∷ rows) (here p) =
      rw ((X.uuid_eq.eqb_iff r.subject_id id).1 (ap (λ k. k.0) p)) (here (ap (λ k. k.1) p))
  addresses_of-In id address (r ∷ rows) (there h) =
      elim (Bool-cases (◌==◌ ⦃test = X.uuid_eq⦄ r.subject_id id)) [
        | inl y ↦ rw y (there (addresses_of-In id address rows h))
        | inr n ↦ rw n (addresses_of-In id address rows h)
      ]

  deactivate_all-versions :
      (rows : List (PolicyRow X)) → versions (deactivate_all rows) ≡ versions rows
  deactivate_all-versions [] = refl
  deactivate_all-versions (r ∷ rows) = ap (λ l. r.version ∷ l) (deactivate_all-versions rows)

  put_policy_row-versions :
      (version : Text) (config : X.Json) (rows : List (PolicyRow X))
      → versions (put_policy_row version config rows)
        ≡ add_end (any (λ (r : PolicyRow X). r.version == version) rows) version (versions rows)
  put_policy_row-versions version config [] = refl
  put_policy_row-versions version config (r ∷ rows) =
      ground (arith, put_policy_row-versions version config rows)

  pub put_policy_row-Distinct :
      (version : Text) (config : X.Json) (rows : List (PolicyRow X))
      → Distinct (versions rows)
      → Distinct (versions (put_policy_row version config (deactivate_all rows)))
  put_policy_row-Distinct version config rows d =
      let inactive = deactivate_all rows in
      rw (put_policy_row-versions version config inactive) (
        Distinct-add_end _ (versions inactive) version
          (any-In (λ (r : PolicyRow X). r.version) version inactive)
          (rw (deactivate_all-versions rows) d))
