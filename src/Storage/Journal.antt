-- ===== src/Storage/Journal.antt =====
-- What a storage promises about its records, whatever keeps them: a journal of the transactions and
-- of the decisions, which only the two calls that record write to.
use riskr_rs.Base.{ℕ, ◌≡◌, ◌⊎◌, inl, inr, Option, List, [], ◌∷◌, ◌++◌, Text, Result, ok, err}
use riskr_rs.Crates.{Crates}
use riskr_rs.Domain.Decision.{debug}
use riskr_rs.Domain.Subject.{Subject}
use riskr_rs.Storage.{Storage, TransactionRecord, DecisionRecord}

-- What every storage keeps of a decision.
pub record Entry (X : Crates) : Type 0 where
  pub subject_id : Option X.Uuid
  pub request : X.Json
  pub decision : Text
  pub decision_code : Text
  pub policy_version : Text

pub record Journal (X : Crates) : Type 0 where
  pub transactions : List (TransactionRecord X)
  pub decisions : List (Entry X)

module _ {X : Crates} where
  unfoldable pub entry_of : DecisionRecord X → Entry X
  unfolding debug
  entry_of d = record {
    subject_id = d.subject_id;
    request = d.request;
    decision = debug d.decision;
    decision_code = d.decision_code;
    policy_version = d.policy_version;
  }

  abbrev pub add_transaction : TransactionRecord X → Journal X → Journal X
  add_transaction tx j = record j { transactions = j.transactions ++ tx ∷ [] }

  abbrev pub add_decision : DecisionRecord X → Journal X → Journal X
  add_decision d j = record j { decisions = j.decisions ++ entry_of d ∷ [] }

  -- A success wrote; a failure did, its answer being lost, or did not.
  pub data Written {A : Type 0} (before after : Journal X) : Result A → Journal X → Type 0 where
    written : {a : A} {j : Journal X} → j ≡ after → Written before after (ok a) j
    unanswered : {message : Text} {j : Journal X} → j ≡ after → Written before after (err message) j
    unwritten : {message : Text} {j : Journal X} → j ≡ before → Written before after (err message) j

  pub Written-cases :
      {A : Type 0} {before after j : Journal X} {r : Result A}
      → Written before after r j
      → (j ≡ before) ⊎ (j ≡ after)
  Written-cases (written e) = inr e
  Written-cases (unanswered e) = inr e
  Written-cases (unwritten e) = inl e

module _ (X : Crates) {S : Type 0} (storage : Storage X S) (journal : S → Journal X) where
  pub record IsJournaled : Type 0 where
    pub transaction :
        (tx : TransactionRecord X) (s : S)
        → let (r, s') = storage.record_transaction tx s in
          Written (journal s) (add_transaction tx (journal s)) r (journal s')
    pub decision :
        (d : DecisionRecord X) (s : S)
        → let (r, s') = storage.record_decision d s in
          Written (journal s) (add_decision d (journal s)) r (journal s')
    pub upsert :
        (subject : Subject) (s : S) → journal (storage.upsert_subject subject s).1 ≡ journal s
    pub volume :
        (id : X.Uuid) (window : ℕ) (s : S)
        → journal (storage.get_rolling_volume id window s).1 ≡ journal s
    pub count :
        (id : X.Uuid) (window : ℕ) (threshold : X.Decimal) (s : S)
        → journal (storage.get_small_tx_count id window threshold s).1 ≡ journal s
