-- ===== src/Storage/Mock.antt =====
-- src/storage/mock.rs: the storage in memory. A lock guards each field, and no operation awaits
-- while it holds one, so an operation is one step. `drawn` counts the identifiers drawn so far.
pub mod Subjects
pub mod Records
pub mod Journaled
use riskr_rs.Base.{
  Outcome, done, ℕ, suc, Bool, Option, none, some, List, [], ◌∷◌, ◌++◌, any, Text, text_eq, ◌==◌,
  to_lowercase, get, insert, Result, ok, Fallible,
}
use mathlib.Core.Option
use riskr_rs.Crates.{Crates}
use riskr_rs.Domain.Subject.{Subject}
use riskr_rs.Domain.Policy.{Policy}
use riskr_rs.Storage.{Storage, TransactionRecord, DecisionRecord}

pub record MockStorage (X : Crates) : Type 0 where
  pub subjects : List (Text × (X.Uuid × Subject))
  pub rolling_volumes : List (X.Uuid × X.Decimal)
  pub small_tx_counts : List (X.Uuid × ℕ)
  pub sanctions : List Text
  pub active_policy : Option (Policy X)
  pub recorded_transactions : List (TransactionRecord X)
  pub recorded_decisions : List (DecisionRecord X)
  pub drawn : ℕ

module _ (X : Crates) where
  abbrev pub new : MockStorage X
  new = record {
    subjects = [];
    rolling_volumes = [];
    small_tx_counts = [];
    sanctions = [];
    active_policy = none;
    recorded_transactions = [];
    recorded_decisions = [];
    drawn = 0;
  }

  unfoldable pub set_rolling_volume : X.Uuid → X.Decimal → MockStorage X → MockStorage X
  set_rolling_volume subject_id volume s = record s {
    rolling_volumes = insert ⦃e = X.uuid_eq⦄ subject_id volume s.rolling_volumes;
  }

  unfoldable pub set_small_tx_count : X.Uuid → ℕ → MockStorage X → MockStorage X
  set_small_tx_count subject_id count s = record s {
    small_tx_counts = insert ⦃e = X.uuid_eq⦄ subject_id count s.small_tx_counts;
  }

  unfoldable pub add_sanction : Text → MockStorage X → MockStorage X
  add_sanction address s = record s { sanctions = s.sanctions ++ to_lowercase address ∷ [] }

  unfoldable pub set_policy : Policy X → MockStorage X → MockStorage X
  set_policy policy s = record s { active_policy = some policy }

  -- A fresh identifier.
  abbrev draw : MockStorage X → X.Uuid × MockStorage X
  draw s = (X.new_v4 s.drawn, record s { drawn = suc s.drawn })

  -- The write of `add_subject` and of `upsert_subject`.
  abbrev put_subject : Subject → X.Uuid → MockStorage X → MockStorage X
  put_subject subject id s = record s {
    subjects = insert subject.user_id.value (id, subject) s.subjects;
  }

  unfoldable pub add_subject : Subject → MockStorage X → X.Uuid × MockStorage X
  add_subject subject s = let (id, drawn) = draw s in (id, put_subject subject id drawn)

  unfoldable pub get_subject_by_user_id :
      Text → Fallible (MockStorage X) (Outcome (Option (X.Uuid × Subject)))
  get_subject_by_user_id user_id s = (ok (done (get s.subjects user_id)), s)

  -- The two branches of `upsert_subject`: the entry of the user, or a fresh identifier.
  upsert_entry : Option (X.Uuid × Subject) → Subject → Fallible (MockStorage X) X.Uuid
  upsert_entry (some (id, old)) subject s = (ok id, put_subject subject id s)
  upsert_entry none subject s = let (id, drawn) = draw s in (ok id, put_subject subject id drawn)

  unfoldable pub upsert_subject : Subject → Fallible (MockStorage X) X.Uuid
  unfolding upsert_entry
  upsert_subject subject s = upsert_entry (get s.subjects subject.user_id.value) subject s

  unfoldable pub record_transaction : TransactionRecord X → Fallible (MockStorage X) X.Uuid
  record_transaction tx s =
      let (id, drawn) = draw s in
      (ok id, record drawn { recorded_transactions = s.recorded_transactions ++ tx ∷ [] })

  unfoldable pub get_rolling_volume : X.Uuid → ℕ → Fallible (MockStorage X) X.Decimal
  get_rolling_volume subject_id _ s =
      (ok (Option.get_or (get ⦃e = X.uuid_eq⦄ s.rolling_volumes subject_id) X.decimal_zero), s)

  unfoldable pub get_small_tx_count : X.Uuid → ℕ → X.Decimal → Fallible (MockStorage X) ℕ
  get_small_tx_count subject_id _ _ s =
      (ok (Option.get_or (get ⦃e = X.uuid_eq⦄ s.small_tx_counts subject_id) 0), s)

  unfoldable pub get_all_sanctions : Fallible (MockStorage X) (List Text)
  get_all_sanctions s = (ok s.sanctions, s)

  unfoldable pub is_sanctioned : Text → Fallible (MockStorage X) Bool
  is_sanctioned address s =
      let normalized = to_lowercase address in (ok (any (λ t. t == normalized) s.sanctions), s)

  unfoldable pub get_active_policy : Fallible (MockStorage X) (Option (Policy X))
  get_active_policy s = (ok s.active_policy, s)

  unfoldable pub set_active_policy : Policy X → Fallible (MockStorage X) Unit
  set_active_policy policy s = (ok tt, record s { active_policy = some policy })

  unfoldable pub record_decision : DecisionRecord X → Fallible (MockStorage X) X.Uuid
  record_decision decision s =
      let (id, drawn) = draw s in
      (ok id, record drawn { recorded_decisions = s.recorded_decisions ++ decision ∷ [] })

  -- `impl Storage for MockStorage`
  abbrev pub mock : Storage X (MockStorage X)
  mock = record {
    get_subject_by_user_id = get_subject_by_user_id;
    upsert_subject = upsert_subject;
    record_transaction = record_transaction;
    get_rolling_volume = get_rolling_volume;
    get_small_tx_count = get_small_tx_count;
    get_all_sanctions = get_all_sanctions;
    is_sanctioned = is_sanctioned;
    get_active_policy = get_active_policy;
    set_active_policy = set_active_policy;
    record_decision = record_decision;
  }
