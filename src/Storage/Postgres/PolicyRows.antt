-- ===== src/Storage/Postgres/PolicyRows.antt =====
-- What the two statements of `set_active_policy` in src/storage/postgres.rs do to the rows.
use riskr_rs.Base.{
  ◌≡◌, refl, true, false, Option, some, none, Text, text_eq, ◌==◌, text_beq_iff, List, [], ◌∷◌,
  if◌then◌else◌, arith,
}
use riskr_rs.Crates.{Crates}
use riskr_rs.Storage.Tables.{PolicyRow}
use riskr_rs.Storage.Statements.{actives, deactivate_all, put_policy_row, is_other_active}

module _ {X : Crates} where
  abbrev pub active_row : Text → X.Json → PolicyRow X
  active_row version config = record { version = version; config = config; active = true }

  -- The row of a version.
  abbrev pub find_policy : Text → List (PolicyRow X) → Option (PolicyRow X)
  find_policy version [] = none
  find_policy version (r ∷ rows) = if r.version == version then some r else find_policy version rows

  abbrev pub deactivated : Option (PolicyRow X) → Option (PolicyRow X)
  deactivated none = none
  deactivated (some r) = some (record r { active = false })

  none_active : (rows : List (PolicyRow X)) → actives (deactivate_all rows) ≡ []
  none_active [] = refl
  none_active (r ∷ rows) = none_active rows

  pub none_other_active :
      (version : Text) (rows : List (PolicyRow X))
      → is_other_active version (deactivate_all rows) ≡ false
  none_other_active version [] = refl
  none_other_active version (r ∷ rows) = none_other_active version rows

  -- After the two statements the policy's row is the only active one.
  pub one_active :
      (version : Text) (config : X.Json) (rows : List (PolicyRow X))
      → actives (put_policy_row version config (deactivate_all rows))
        ≡ active_row version config ∷ []
  one_active version config [] = refl
  one_active version config (r ∷ rows) =
      ground
        (arith, text_beq_iff r.version version, none_active rows, one_active version config rows)

  find-deactivate :
      (other : Text) (rows : List (PolicyRow X))
      → find_policy other (deactivate_all rows) ≡ deactivated (find_policy other rows)
  find-deactivate other [] = refl
  find-deactivate other (r ∷ rows) = ground (arith, find-deactivate other rows)

  -- They give the version its new row, and deactivate the rows of the others.
  pub rows_after :
      (version other : Text) (config : X.Json) (rows : List (PolicyRow X))
      → find_policy other (put_policy_row {X = X} version config (deactivate_all rows)) ≡ (
          if version == other
          then some (active_row version config)
          else deactivated (find_policy other rows))
  rows_after version other config [] = refl
  rows_after version other config (r ∷ rows) = ground (
    arith,
    text_beq_iff r.version version,
    text_beq_iff r.version other,
    text_beq_iff version other,
    find-deactivate other rows,
    rows_after version other config rows,
  )
