-- ===== src/Storage/Mock/Journaled.antt =====
-- The in-memory storage keeps a journal.
use mathlib.Core.List.{map-append}
use riskr_rs.Base.{refl, ap, [], ◌∷◌, map}
use riskr_rs.Crates.{Crates}
use riskr_rs.Storage.Mock.{
  MockStorage, mock, record_transaction, record_decision, get_rolling_volume, get_small_tx_count,
}
use riskr_rs.Storage.Mock.Subjects.{upsert_subject-Upserted}
use riskr_rs.Storage.Journal.{Journal, entry_of, written, IsJournaled}

module _ (X : Crates) where
  abbrev pub mock_journal : MockStorage X → Journal X
  mock_journal s = record {
    transactions = s.recorded_transactions;
    decisions = map entry_of s.recorded_decisions;
  }

  -- The in-memory storage keeps the journal that its two lists of records hold.
  pub mock-IsJournaled : IsJournaled X (mock X) mock_journal
  unfolding record_transaction record_decision get_rolling_volume get_small_tx_count
  mock-IsJournaled = record {
    transaction = λ tx s. written refl;
    decision = λ d s. written (
        ap (λ l. record { transactions = s.recorded_transactions; decisions = l })
          (map-append entry_of s.recorded_decisions (d ∷ [])));
    upsert = λ subject s.
        let u = upsert_subject-Upserted X subject s in
        λ i. record { transactions = u.records i; decisions = map entry_of (u.decisions i) };
    volume = λ id window s. refl;
    count = λ id window threshold s. refl;
  }
