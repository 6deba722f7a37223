-- ===== src/Storage/Calls.antt =====
-- The calls of the trait in src/storage/traits.rs, and what a sequence of them leaves.
use riskr_rs.Base.{ℕ, List, [], ◌∷◌, Text}
use riskr_rs.Crates.{Crates}
use riskr_rs.Domain.Subject.{Subject}
use riskr_rs.Domain.Policy.{Policy}
use riskr_rs.Storage.{Storage, TransactionRecord, DecisionRecord}

pub data Call (X : Crates) : Type 0 where
  get_subject_by_user_id : Text → Call X
  upsert_subject : Subject → Call X
  record_transaction : TransactionRecord X → Call X
  get_rolling_volume : X.Uuid → (window : ℕ) → Call X
  get_small_tx_count : X.Uuid → (window : ℕ) → (threshold : X.Decimal) → Call X
  get_all_sanctions : Call X
  is_sanctioned : Text → Call X
  get_active_policy : Call X
  set_active_policy : Policy X → Call X
  record_decision : DecisionRecord X → Call X

module _ {X : Crates} {S : Type 0} (storage : Storage X S) where
  -- The state after a call, whatever it answers.
  unfoldable pub after_call : Call X → S → S
  after_call (get_subject_by_user_id user_id) s = (storage.get_subject_by_user_id user_id s).1
  after_call (upsert_subject subject) s = (storage.upsert_subject subject s).1
  after_call (record_transaction tx) s = (storage.record_transaction tx s).1
  after_call (get_rolling_volume id window) s = (storage.get_rolling_volume id window s).1
  after_call (get_small_tx_count id window threshold) s =
      (storage.get_small_tx_count id window threshold s).1
  after_call get_all_sanctions s = (storage.get_all_sanctions s).1
  after_call (is_sanctioned address) s = (storage.is_sanctioned address s).1
  after_call get_active_policy s = (storage.get_active_policy s).1
  after_call (set_active_policy policy) s = (storage.set_active_policy policy s).1
  after_call (record_decision d) s = (storage.record_decision d s).1

  unfoldable pub after_calls : List (Call X) → S → S
  unfolding after_call
  after_calls [] s = s
  after_calls (call ∷ calls) s = after_calls calls (after_call call s)

  -- What every call keeps, every sequence of calls keeps.
  pub after_calls-keeps :
      (P : S → Type 0)
      → ((call : Call X) (s : S) → P s → P (after_call call s))
      → (calls : List (Call X)) (s : S) → P s
      → P (after_calls calls s)
  unfolding after_calls
  after_calls-keeps P keeps [] s h = h
  after_calls-keeps P keeps (call ∷ calls) s h =
      after_calls-keeps P keeps calls (after_call call s) (keeps call s h)
