-- ===== src/Engine/Records.antt =====
-- What holds of the engine's storage after any run.
use riskr_rs.Base.{
  ℕ, ◌+◌, ◌≤◌, ◌≡◌, refl, sym, ◌∙◌, subst, arith, Option, List, [], ◌∷◌, map, length, All, Any,
  Text, Result, ok, get,
}
use riskr_rs.Crates.{Crates}
use riskr_rs.Domain.Policy.{Policy}
use riskr_rs.Rules.RuleSet.Preserving.{QueriesPreserve}
use riskr_rs.Storage.Journal.{entry_of}
use riskr_rs.Storage.Mock
use riskr_rs.Storage.Mock.{
  MockStorage, mock, get_rolling_volume, get_small_tx_count, record_transaction, record_decision,
}
use riskr_rs.Storage.Mock.Journaled.{mock_journal, mock-IsJournaled}
use riskr_rs.Storage.Mock.Subjects.{HasOwnIds, upsert_subject-Upserted, upsert_subject-HasOwnIds}
use riskr_rs.Policy.Loader.{PolicyLoader, Files}
use riskr_rs.Api.Request.{DecisionRequest}
use riskr_rs.Api.Decide.Preserving.{WritesPreserve}
use riskr_rs.Api.Decide.Tasks.{Task, upserting, evaluating, recording, answered}
use riskr_rs.Api.Decide.Tasks.Counts.{total, transactions_of, decisions_of}
use riskr_rs.Api.Decide.Tasks.Noting.{Answers}
use riskr_rs.Api.Decide.Tasks.Interleaved.{Moves-Accounted}
use riskr_rs.Api.Decide.Tasks.Journaled.{Preserved-Attributed}
use riskr_rs.Api.Decide.Tasks.Preserving.{Moves-Preserves}
use riskr_rs.Engine.{Engine, boot, Run}
use riskr_rs.Engine.Interleaving.{service_of, Run-boot-Moves, boot-Preserve, boot-Readers}

module _ (X : Crates) where
  HasOwnIds-grown :
      (s s' : MockStorage X)
      → s'.subjects ≡ s.subjects
      → s.drawn ≤ s'.drawn
      → HasOwnIds X s
      → HasOwnIds X s'
  HasOwnIds-grown s s' same grown h = record {
    drawn_before = λ user id subject e.
        let (n, below, is_n) = h.drawn_before user id subject (rw same at e) in
        (n, omega arith, is_n);
    own = λ user other id a b e f. h.own user other id a b (rw same at e) (rw same at f);
  }

  new-HasOwnIds : HasOwnIds X (Mock.new X)
  unfolding get
  new-HasOwnIds = record {
    drawn_before = λ user id subject e. ground arith;
    own = λ user other id a b e f. ground arith;
  }

  -- A request between its two records.
  abbrev pub between_records : Task X (MockStorage X) → ℕ
  between_records (recording q id v) = 1
  between_records _ = 0

  between-eq :
      (tasks : List (Task X (MockStorage X)))
      → total X (transactions_of X) tasks
        ≡ total X (decisions_of X) tasks + total X between_records tasks
  between-eq [] = omega arith
  between-eq (upserting q v ∷ tasks) = omega (arith, between-eq tasks)
  between-eq (evaluating q id rules v ∷ tasks) = omega (arith, between-eq tasks)
  between-eq (recording q id v ∷ tasks) = omega (arith, between-eq tasks)
  between-eq (answered ending response ∷ tasks) = ground (arith, between-eq tasks)

  -- The records are those of the requests.
  pub record InStep (e : Engine X) : Type 0 where
    pub transactions :
        length e.store.recorded_transactions
        ≡ length e.store.recorded_decisions + total X between_records e.tasks
    pub decisions : length e.store.recorded_decisions ≡ total X (decisions_of X) e.tasks
    pub answers :
        All (λ entry. Any (Answers X entry) e.tasks) (map entry_of e.store.recorded_decisions)

module _ (X : Crates) (parse_yaml : Text → Result (Policy X))
    (to_value : DecisionRequest X → Option X.Json) where
  -- What the operations keep, a run from the start keeps.
  Run-boot-Preserves :
      (R : MockStorage X → MockStorage X → Type 0)
      → ((s : MockStorage X) → R s s)
      → ((a b c : MockStorage X) → R a b → R b c → R a c)
      → WritesPreserve X (mock X) R
      → QueriesPreserve X (mock X) R
      → (loader : PolicyLoader) (f g : Files) (e : Engine X)
      → Run X parse_yaml to_value (boot X parse_yaml to_value loader f g) e
      → R (Mock.new X) e.store
  unfolding boot
  Run-boot-Preserves R R_refl R_trans writes queries loader f g e run =
      Moves-Preserves X (mock X) R R_refl writes to_value R_trans queries _ _
        (record { tasks = tt; current = boot-Preserve X parse_yaml to_value loader f g R queries })
        (Run-boot-Moves X parse_yaml to_value loader f g e run)

  -- Where the drawn identifiers are all different, at every moment of a run from the start every
  -- identifier of a user was drawn before and no two users share one.
  pub Run-boot-HasOwnIds :
      ((m n : ℕ) → X.new_v4 m ≡ X.new_v4 n → m ≡ n)
      → (loader : PolicyLoader) (f g : Files) (e : Engine X)
      → Run X parse_yaml to_value (boot X parse_yaml to_value loader f g) e
      → HasOwnIds X e.store
  unfolding record_transaction record_decision get_rolling_volume get_small_tx_count
  Run-boot-HasOwnIds differ loader f g e run =
      Run-boot-Preserves (λ s s'. HasOwnIds X s → HasOwnIds X s') (λ s h. h)
        (λ a b c p q h. q (p h))
        (record {
          upsert = λ subject s h. upsert_subject-HasOwnIds X differ subject s h;
          transaction = λ tx s h. HasOwnIds-grown X s _ refl (omega arith) h;
          decision = λ d s h. HasOwnIds-grown X s _ refl (omega arith) h;
        })
        (record { volume = λ id window s h. h; count = λ id window threshold s h. h }) loader f g e
        run (new-HasOwnIds X)

  -- However the engine runs from its start without a database, the storage answers zero for the
  -- volume of every subject over every window, whatever transactions it has recorded.
  pub Run-boot-volume :
      (loader : PolicyLoader) (f g : Files) (e : Engine X)
      → Run X parse_yaml to_value (boot X parse_yaml to_value loader f g) e
      → (subject_id : X.Uuid) (window : ℕ)
      → ((mock X).get_rolling_volume subject_id window e.store).0 ≡ ok X.decimal_zero
  unfolding record_transaction record_decision get_rolling_volume get_small_tx_count get
  Run-boot-volume loader f g e run subject_id window =
      let same : e.store.rolling_volumes ≡ (Mock.new X).rolling_volumes =
        Run-boot-Preserves (λ s s'. s'.rolling_volumes ≡ s.rolling_volumes) (λ s. refl)
          (λ a b c p q. q ∙ p)
          (record {
            upsert = λ subject s. (upsert_subject-Upserted X subject s).volumes;
            transaction = λ tx s. refl;
            decision = λ d s. refl;
          })
          (record { volume = λ id window s. refl; count = λ id window threshold s. refl }) loader f
          g e run in
      rw same refl

  -- However the engine runs from its start, with requests that interleave at their awaits and
  -- reloads in between, the records stay in step with the requests: there are as many decisions as
  -- requests that were decided, and more transactions than decisions by the requests that have
  -- recorded the one and not yet the other; and every recorded decision is what one of the
  -- decided requests answered, with its code and its version of the policy.
  pub Run-boot-InStep :
      (loader : PolicyLoader) (f g : Files) (e : Engine X)
      → Run X parse_yaml to_value (boot X parse_yaml to_value loader f g) e
      → InStep X e
  unfolding boot
  Run-boot-InStep loader f g e run =
      let moves = Run-boot-Moves X parse_yaml to_value loader f g e run in
      let counts =
        Moves-Accounted X to_value _ (service_of X e) refl
          (boot-Readers X parse_yaml to_value loader f g) moves in
      let journal =
        Preserved-Attributed X (mock X) (mock_journal X) (mock-IsJournaled X) to_value _
          (service_of X e) refl
          (boot-Preserve X parse_yaml to_value loader f g _
            (record { volume = (mock-IsJournaled X).volume; count = (mock-IsJournaled X).count }))
          moves in
      record {
        transactions =
            omega
              (arith, counts.transactions_counted, counts.decisions_counted, between-eq X e.tasks);
        decisions = omega (arith, counts.decisions_counted);
        answers =
            subst (λ l. All (λ entry. Any (Answers X entry) e.tasks) l)
              (sym journal.decisions.grown) journal.answered;
      }
