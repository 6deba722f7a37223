-- ===== src/Api/Decide/Turns.antt =====
-- A streaming rule's turn: its result is among those of the phase.
use riskr_rs.Base.{
  ◌≡◌, sym, ◌∙◌, subst, arith, List, Result, ok, err, Outcome, done, All, In, here, there,
}
use riskr_rs.Crates.{Crates}
use riskr_rs.Domain.Evidence.{RuleResult}
use riskr_rs.Domain.Event.{TxEvent}
use riskr_rs.Rules.Traits.{StreamingRule}
use riskr_rs.Rules.RuleSet.Readers.{IsReader}
use riskr_rs.Storage.Mock.{MockStorage, mock}
use riskr_rs.Api.Decide.Phases.{Streamed, finished, answered, skipped}

same_result :
    {S : Type 0} {r r' : RuleResult} {a b : S}
    → ◌≡◌ {A = Outcome (Result RuleResult × S)} (done (ok r, a)) (done (ok r', b))
    → r ≡ r'
same_result e = ground arith

module _ (X : Crates) (ev : TxEvent X) (id : X.Uuid) (rule : StreamingRule X (MockStorage X))
    (r : RuleResult) where
  -- The rule answers this in this state.
  abbrev pub Answers : MockStorage X → Type 0
  Answers s = (after : MockStorage X) × (rule.evaluate (mock X) ev id s ≡ done (ok r, after))

  -- Among rules that only read, what a rule answers in the first state is among the results.
  pub Streamed-In :
      {rules : List (StreamingRule X (MockStorage X))} {s s' : MockStorage X}
      {results : List RuleResult}
      → Streamed X (mock X) ev id rules s results s'
      → All (IsReader X) rules
      → In rule rules
      → Answers s
      → In r results
  Streamed-In (finished _) h m e = elim m [ ]
  Streamed-In (answered {s = a} {s₁ = b} {r = other} {rs} e' t) h (here p) (after, e) =
      here {xs = rs}
        (same_result (sym (subst (λ x. x.evaluate (mock X) ev id a ≡ done (ok other, b)) p e') ∙ e))
  Streamed-In (answered {s = a} {s₁ = b} {r = other} e' t) h (there m) e =
      there (Streamed-In t h.1 m (subst Answers (sym (h.0 ev id a b (ok other) e')) e))
  Streamed-In (skipped {s = a} {s₁ = b} message e' t) h (here p) (after, e) =
      failed_and_answered
        (sym (subst (λ x. x.evaluate (mock X) ev id a ≡ done (err message, b)) p e') ∙ e)
    where
      failed_and_answered :
          {A : Type 0} {c d : MockStorage X}
          → ◌≡◌ {A = Outcome (Result RuleResult × MockStorage X)}
              (done (err message, c))
              (done (ok r, d))
          → A
      failed_and_answered q = cc
  Streamed-In (skipped {s = a} {s₁ = b} message e' t) h (there m) e =
      Streamed-In t h.1 m (subst Answers (sym (h.0 ev id a b (err message) e')) e)
