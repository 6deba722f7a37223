-- ===== src/Storage/Mock/Records.antt =====
-- The records and the sanctions of the in-memory storage.
use riskr_rs.Base.{
  ℕ, ◌≡◌, refl, ap, Bool, ◌||◌, List, [], ◌∷◌, ◌++◌, any, Text, text_eq, ◌==◌, to_lowercase, ok,
  arith,
}
use riskr_rs.Crates.{Crates}
use riskr_rs.Storage.{TransactionRecord}
use riskr_rs.Storage.Mock.{
  MockStorage, add_sanction, is_sanctioned, record_transaction, get_rolling_volume,
}

any-snoc : (p : Text → Bool) (l : List Text) (a : Text) → any p (l ++ a ∷ []) ≡ (any p l || p a)
any-snoc p [] a = ground arith
any-snoc p (x ∷ l) a = ground (arith, any-snoc p l a)

module _ (X : Crates) where
  -- After an address is added, it is sanctioned in every spelling by case, and every other address
  -- is sanctioned exactly if it was before.
  is_sanctioned-add_sanction :
      (added asked : Text) (s : MockStorage X)
      → (is_sanctioned X asked (add_sanction X added s)).0
        ≡ ok (
            any (λ t. t == to_lowercase asked) s.sanctions
            || to_lowercase added == to_lowercase asked)
  unfolding is_sanctioned add_sanction
  is_sanctioned-add_sanction added asked s =
      ap ok (any-snoc (λ t. t == to_lowercase asked) s.sanctions (to_lowercase added))

  -- Recording a transaction does not change any rolling volume.
  get_rolling_volume-record_transaction :
      (tx : TransactionRecord X) (s : MockStorage X) (subject_id : X.Uuid) (window : ℕ)
      → (get_rolling_volume X subject_id window (record_transaction X tx s).1).0
        ≡ (get_rolling_volume X subject_id window s).0
  unfolding get_rolling_volume record_transaction
  get_rolling_volume-record_transaction tx s subject_id window = refl
