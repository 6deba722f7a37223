-- ===== src/Rules/RuleSet/Readers.antt =====
-- Over the in-memory storage the streaming rules of a policy only read.
use riskr_rs.Base.{◌≡◌, refl, List, Text, Result, done, All}
use riskr_rs.Crates.{Crates}
use riskr_rs.Domain.Evidence.{RuleResult}
use riskr_rs.Domain.Event.{TxEvent}
use riskr_rs.Domain.Policy.{Policy}
use riskr_rs.Rules.Traits.{StreamingRule}
use riskr_rs.Rules.RuleSet.{RuleSet, from_policy}
use riskr_rs.Rules.RuleSet.Preserving.{QueriesPreserve, from_policy-Preserve}
use riskr_rs.Storage.Mock.{MockStorage, mock, get_rolling_volume, get_small_tx_count}

module _ (X : Crates) where
  -- The state after an evaluation is the state before it.
  abbrev pub IsReader : StreamingRule X (MockStorage X) → Type 0
  IsReader rule =
      (event : TxEvent X) (subject_id : X.Uuid) (s s' : MockStorage X) (r : Result RuleResult)
      → rule.evaluate (mock X) event subject_id s ≡ done (r, s')
      → s' ≡ s

  abbrev pub Readers : RuleSet X (MockStorage X) → Type 0
  Readers set = All IsReader set.streaming

  mock-QueriesPreserve : QueriesPreserve X (mock X) (λ s s'. s' ≡ s)
  unfolding get_rolling_volume get_small_tx_count
  mock-QueriesPreserve = record {
    volume = λ id window s. refl;
    count = λ id window threshold s. refl;
  }

  -- Over the in-memory storage, every streaming rule that a policy compiles to leaves the storage
  -- as it was, whenever it ends.
  pub from_policy-Readers :
      (policy : Policy X) (sanctions : List Text) → Readers (from_policy X policy sanctions)
  from_policy-Readers = from_policy-Preserve X (mock X) (λ s s'. s' ≡ s) mock-QueriesPreserve
