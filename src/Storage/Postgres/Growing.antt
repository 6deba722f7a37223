-- ===== src/Storage/Postgres/Growing.antt =====
-- Tables that lost nothing since.
use mathlib.Core.List.{append-nil}
use riskr_rs.Base.{
  IsPrefix, IsPrefix-refl, IsPrefix-trans, ◌≡◌, refl, sym, ap, ◌∙◌, inl, inr, some, Text, text_eq,
  List, [], ◌∷◌, contains, Bool-cases,
}
use riskr_rs.Crates.{Crates}
use riskr_rs.Domain.Subject.{Address}
use riskr_rs.Storage.Tables.{SubjectRow, Tables}
use riskr_rs.Storage.Statements.{find_subject, addresses_of}
use riskr_rs.Storage.Postgres.SubjectRows.{add_all, add_address}

pub IsPrefix-add_all :
    (addresses : List Address) (old : List Text) → IsPrefix old (add_all addresses old)
IsPrefix-add_all [] old = IsPrefix-refl old
IsPrefix-add_all (a ∷ addresses) old =
    IsPrefix-trans old (add_address a.value old) _ one
      (IsPrefix-add_all addresses (add_address a.value old))
  where
    one : IsPrefix old (add_address a.value old)
    one = elim (Bool-cases (contains old a.value)) [
      | inl y ↦ rw y (IsPrefix-refl old)
      | inr n ↦ rw n (a.value ∷ [], refl)
    ]

module _ {X : Crates} where
  -- Rows are added at the end of the records; sanctions and policies stay; a subject's addresses
  -- stay, before the new ones; and a user who has an identifier keeps it.
  pub record Grows (t t' : Tables X) : Type 0 where
    pub transactions : IsPrefix t.transactions t'.transactions
    pub decisions : IsPrefix t.decisions t'.decisions
    pub sanctions : t'.sanctions ≡ t.sanctions
    pub policies : t'.policies ≡ t.policies
    pub addresses :
        (owner : X.Uuid)
        → IsPrefix
            (addresses_of owner t.subject_addresses)
            (addresses_of owner t'.subject_addresses)
    pub identifiers :
        (user : Text) (row : SubjectRow X)
        → find_subject user t.subjects ≡ some row
        → (row' : SubjectRow X) × (find_subject user t'.subjects ≡ some row') × (row'.id ≡ row.id)

  pub Grows-refl : (t : Tables X) → Grows t t
  Grows-refl t = record {
    transactions = IsPrefix-refl _;
    decisions = IsPrefix-refl _;
    sanctions = refl;
    policies = refl;
    addresses = λ owner. IsPrefix-refl _;
    identifiers = λ user row e. (row, e, refl);
  }

  pub Grows-records :
      (t t' : Tables X)
      → IsPrefix t.transactions t'.transactions
      → IsPrefix t.decisions t'.decisions
      → t' ≡ record t { transactions = t'.transactions; decisions = t'.decisions }
      → Grows t t'
  Grows-records t t' transactions decisions same = record {
    transactions = transactions;
    decisions = decisions;
    sanctions = ap (λ (u : Tables X). u.sanctions) same;
    policies = ap (λ (u : Tables X). u.policies) same;
    addresses = λ owner. (
      [],
      ap (λ (u : Tables X). addresses_of owner u.subject_addresses) same ∙ sym (append-nil _),
    );
    identifiers =
        λ user row e. (row, ap (λ (u : Tables X). find_subject user u.subjects) same ∙ e, refl);
  }

  pub Grows-trans : (t t₁ t' : Tables X) → Grows t t₁ → Grows t₁ t' → Grows t t'
  Grows-trans t t₁ t' p q = record {
    transactions = IsPrefix-trans _ _ _ p.transactions q.transactions;
    decisions = IsPrefix-trans _ _ _ p.decisions q.decisions;
    sanctions = q.sanctions ∙ p.sanctions;
    policies = q.policies ∙ p.policies;
    addresses = λ owner. IsPrefix-trans _ _ _ (p.addresses owner) (q.addresses owner);
    identifiers = λ user row e.
        let (row₁, e₁, same₁) = p.identifiers user row e in
        let (row', e', same') = q.identifiers user row₁ e₁ in (row', e', same' ∙ same₁);
  }
