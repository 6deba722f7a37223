-- ===== src/Api/Decide/Phases.antt =====
-- What a request may lead to, phase by phase.
use riskr_rs.Base.{
  ◌≡◌, ◌⊎◌, inl, inr, refl, List, [], ◌∷◌, Text, Result, ok, err, Outcome, done, panic,
}
use riskr_rs.Crates.{Crates}
use riskr_rs.Domain.Evidence.{RuleResult}
use riskr_rs.Domain.Event.{TxEvent}
use riskr_rs.Rules.Traits.{StreamingRule}
use riskr_rs.Storage.{Storage}
use riskr_rs.Api.Decide.{Verdict, absorb, evaluate_streaming}
use riskr_rs.Api.Decide.Verdicts.{absorb_all}

module _ (X : Crates) {S : Type 0} (storage : Storage X S) (event : TxEvent X)
    (subject_id : X.Uuid) where
  -- The streaming rules ran from one storage state to another and gave these results, one for each
  -- rule but those that failed.
  pub data Streamed : List (StreamingRule X S) → S → List RuleResult → S → Type 0 where
    finished : {s s' : S} → s ≡ s' → Streamed [] s [] s'
    answered :
        {rule : StreamingRule X S} {rules : List (StreamingRule X S)} {s s₁ s' : S} {r : RuleResult}
        {rs : List RuleResult}
        → rule.evaluate storage event subject_id s ≡ done (ok r, s₁)
        → Streamed rules s₁ rs s'
        → Streamed (rule ∷ rules) s (r ∷ rs) s'
    skipped :
        {rule : StreamingRule X S} {rules : List (StreamingRule X S)} {s s₁ s' : S}
        {rs : List RuleResult} (message : Text)
        → rule.evaluate storage event subject_id s ≡ done (err message, s₁)
        → Streamed rules s₁ rs s'
        → Streamed (rule ∷ rules) s rs s'

  -- Some streaming rule panics when its turn comes.
  pub data Panics : List (StreamingRule X S) → S → Type 0 where
    now :
        {rule : StreamingRule X S} {rules : List (StreamingRule X S)} {s : S}
        → rule.evaluate storage event subject_id s ≡ panic
        → Panics (rule ∷ rules) s
    later :
        {rule : StreamingRule X S} {rules : List (StreamingRule X S)} {s s₁ : S}
        {result : Result RuleResult}
        → rule.evaluate storage event subject_id s ≡ done (result, s₁)
        → Panics rules s₁
        → Panics (rule ∷ rules) s

  -- Phase 3 absorbs the results of the rules that answer, in order, or panics with one of them.
  pub data Phase3 (rules : List (StreamingRule X S)) (v : Verdict) (s : S)
      (out : Outcome (Verdict × S)) : Type 0 where
    completed :
        (results : List RuleResult) (s' : S)
        → Streamed rules s results s'
        → out ≡ done (absorb_all results v, s')
        → Phase3 rules v s out
    aborted : Panics rules s → out ≡ panic → Phase3 rules v s out

  Phase3-answered :
      (rule : StreamingRule X S) (rules : List (StreamingRule X S)) (v : Verdict) (s s₁ : S)
      (r : RuleResult) (out : Outcome (Verdict × S))
      → rule.evaluate storage event subject_id s ≡ done (ok r, s₁)
      → Phase3 rules (absorb r v) s₁ out
      → Phase3 (rule ∷ rules) v s out
  unfolding absorb_all
  Phase3-answered rule rules v s s₁ r out e (completed results s' t o) =
      completed (r ∷ results) s' (answered e t) o
  Phase3-answered rule rules v s s₁ r out e (aborted p o) = aborted (later e p) o

  Phase3-skipped :
      (rule : StreamingRule X S) (rules : List (StreamingRule X S)) (v : Verdict) (s s₁ : S)
      (message : Text) (out : Outcome (Verdict × S))
      → rule.evaluate storage event subject_id s ≡ done (err message, s₁)
      → Phase3 rules v s₁ out
      → Phase3 (rule ∷ rules) v s out
  Phase3-skipped rule rules v s s₁ message out e (completed results s' t o) =
      completed results s' (skipped message e t) o
  Phase3-skipped rule rules v s s₁ message out e (aborted p o) = aborted (later e p) o

Outcome-cases :
    {S A : Type 0} (o : Outcome (Result A × S))
    → (o ≡ panic)
      ⊎ ((a : A) × (s : S) × (o ≡ done (ok a, s)))
      ⊎ ((m : Text) × (s : S) × (o ≡ done (err m, s)))
Outcome-cases panic = inl refl
Outcome-cases (done (ok a, s)) = inr (inl (a, s, refl))
Outcome-cases (done (err m, s)) = inr (inr (m, s, refl))

module _ (X : Crates) {S : Type 0} (storage : Storage X S) (event : TxEvent X)
    (subject_id : X.Uuid) where
  -- Phase 3 runs the streaming rules in order, each from the storage state that the one before it
  -- left, and absorbs the results of those that answer into the verdict, passing over those that
  -- fail; or it panics, and then some rule panicked at its turn.
  pub evaluate_streaming-Phase3 :
      (rules : List (StreamingRule X S)) (v : Verdict) (s : S)
      → Phase3 X storage event subject_id rules v s
          (evaluate_streaming X storage event subject_id rules v s)
  unfolding evaluate_streaming absorb_all
  evaluate_streaming-Phase3 [] v s = completed [] s (finished refl) refl
  evaluate_streaming-Phase3 (rule ∷ rules) v s =
      elim (Outcome-cases (rule.evaluate storage event subject_id s)) [
        | inl e ↦ aborted (now e) (rw e)
        | inr (inl (r, s₁, e)) ↦ rw e (
            Phase3-answered X storage event subject_id rule rules v s s₁ r _ e
              (evaluate_streaming-Phase3 rules (absorb r v) s₁))
        | inr (inr (m, s₁, e)) ↦ rw e (
            Phase3-skipped X storage event subject_id rule rules v s s₁ m _ e
              (evaluate_streaming-Phase3 rules v s₁))
      ]
