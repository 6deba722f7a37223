-- ===== src/Api/Decide/Inline.antt =====
-- The verdict of the inline rules.
use riskr_rs.Base.{
  ◌≤◌, ◌≡◌, inl, inr, refl, subst, true, List, [], ◌∷◌, map, All, Any, In, here, there, Bool-cases,
  arith, Any-of-All, Any-map, Any-of-map, In-of-Any, Any-of-In,
}
use riskr_rs.Crates.{Crates}
use riskr_rs.Domain.Decision.{Decision, reject_fatal, severity}
use riskr_rs.Domain.Decision.Order.{severity-injective}
use riskr_rs.Domain.Evidence.{RuleResult}
use riskr_rs.Domain.Event.{TxEvent}
use riskr_rs.Rules.Traits.{InlineRule}
use riskr_rs.Api.Decide.{Verdict, initial, absorb, evaluate_inline}
use riskr_rs.Api.Decide.Verdicts.{
  absorb_all, hits, IsVerdict, initial-IsVerdict, absorb_all-IsVerdict, severity-allow-le,
}

All-of-hits {κ} :
    (Q : RuleResult → Type κ) (rs : List RuleResult)
    → All Q (hits rs)
    → All (λ (r : RuleResult). r.hit ≡ true → Q r) rs
All-of-hits Q [] h = tt
All-of-hits Q (r ∷ rs) h = elim (Bool-cases r.hit) [
  | inl y ↦ let h' : All Q (r ∷ hits rs) = simp y at h in (λ _. h'.0, All-of-hits Q rs h'.1)
  | inr n ↦ let h' : All Q (hits rs) = simp n at h in (λ y. cc, All-of-hits Q rs h')
]

Any-of-hits {κ} :
    {P : RuleResult → Type κ} (rs : List RuleResult)
    → Any P (hits rs)
    → (r : RuleResult) × In r rs × (r.hit ≡ true) × P r
Any-of-hits [] h = elim h [ ]
Any-of-hits {P} (r ∷ rs) h = elim (Bool-cases r.hit) [
  | inl y ↦ let h' : Any P (r ∷ hits rs) = simp y at h in first_or_later y h' (Any-of-hits rs)
  | inr n ↦
      let h' : Any P (hits rs) = simp n at h in
      let (x, m, y, p) = Any-of-hits rs h' in (x, there m, y, p)
]
  where
    first_or_later :
        r.hit ≡ true
        → Any P (r ∷ hits rs)
        → (Any P (hits rs) → (x : RuleResult) × In x rs × (x.hit ≡ true) × P x)
        → (x : RuleResult) × In x (r ∷ rs) × (x.hit ≡ true) × P x
    first_or_later y (here p) later = (r, here refl, y, p)
    first_or_later y (there q) later = let (x, m, z, p) = later q in (x, there m, z, p)

-- A hit among the results is at most as severe as the verdict.
pub severity-hit-le :
    (rs : List RuleResult) (v : Verdict) (r : RuleResult)
    → IsVerdict rs v
    → In r rs
    → r.hit ≡ true
    → severity r.decision ≤ severity v.decision
severity-hit-le rs v r w m y =
    Any-of-All rs (All-of-hits _ rs w.worst.bound) m
      (λ x le e. subst (λ z. z.hit ≡ true → severity z.decision ≤ severity v.decision) e le y)

-- More results, a verdict at least as severe.
severity-IsVerdict-le :
    (rs rs' : List RuleResult) (v v' : Verdict)
    → ((r : RuleResult) → In r rs → In r rs')
    → IsVerdict rs v
    → IsVerdict rs' v'
    → severity v.decision ≤ severity v'.decision
severity-IsVerdict-le rs rs' v v' sub w w' = elim w.worst.reached [
  | inl e ↦ severity-allow-le v.decision _ e
  | inr found ↦
      let (r, m, y, e) = Any-of-hits rs found in rw e at (severity-hit-le rs' v' r w' (sub r m) y)
]

reject_fatal_of_le : (d : Decision) → severity reject_fatal ≤ severity d → d ≡ reject_fatal
unfolding severity
reject_fatal_of_le d h = ground arith

module _ (X : Crates) (event : TxEvent X) where
  abbrev pub inline_results : List (InlineRule X) → List RuleResult
  inline_results rules = map (λ (rule : InlineRule X). rule.evaluate event) rules

  evaluate_inline-eq_absorb_all :
      (rules : List (InlineRule X)) (v : Verdict)
      → evaluate_inline X event rules v ≡ absorb_all (inline_results rules) v
  unfolding evaluate_inline absorb_all
  evaluate_inline-eq_absorb_all [] v = refl
  evaluate_inline-eq_absorb_all (rule ∷ rules) v =
      evaluate_inline-eq_absorb_all rules (absorb (rule.evaluate event) v)

  abbrev pub inline_verdict : List (InlineRule X) → Verdict
  inline_verdict rules = evaluate_inline X event rules initial

  -- Phase 1 gives the most severe decision of the inline rules that hit, or Allow if none hits, and
  -- the evidence of those rules in order.
  pub evaluate_inline-IsVerdict :
      (rules : List (InlineRule X)) → IsVerdict (inline_results rules) (inline_verdict rules)
  evaluate_inline-IsVerdict rules =
      rw (evaluate_inline-eq_absorb_all rules initial)
        (absorb_all-IsVerdict [] (inline_results rules) initial initial-IsVerdict)

  inline_results-In :
      (rules rules' : List (InlineRule X))
      → ((rule : InlineRule X) → In rule rules → In rule rules')
      → (r : RuleResult) → In r (inline_results rules)
      → In r (inline_results rules')
  inline_results-In rules rules' sub r m =
      let (rule, known, e) = In-of-Any rules (Any-of-map (λ rule. rule.evaluate event) rules m) in
      Any-map (λ rule. rule.evaluate event) rules' (Any-of-In rule rules' (sub rule known) e)

  -- If every rule of one list is also in another, the verdict of the other is at least as severe.
  evaluate_inline_mono :
      (rules rules' : List (InlineRule X))
      → ((rule : InlineRule X) → In rule rules → In rule rules')
      → severity (inline_verdict rules).decision ≤ severity (inline_verdict rules').decision
  evaluate_inline_mono rules rules' sub =
      severity-IsVerdict-le (inline_results rules) (inline_results rules') _ _
        (inline_results-In rules rules' sub) (evaluate_inline-IsVerdict rules)
        (evaluate_inline-IsVerdict rules')

  -- Two lists of the same inline rules, in any order and with any repetition, lead to the same
  -- decision.
  evaluate_inline-same_rules :
      (rules rules' : List (InlineRule X))
      → ((rule : InlineRule X) → In rule rules → In rule rules')
      → ((rule : InlineRule X) → In rule rules' → In rule rules)
      → (inline_verdict rules).decision ≡ (inline_verdict rules').decision
  evaluate_inline-same_rules rules rules' sub sup =
      severity-injective _ _ (
        omega (arith, evaluate_inline_mono rules rules' sub, evaluate_inline_mono rules' rules sup))

  -- One rule that hits with a fatal decision makes the verdict fatal.
  pub fatal_of_hit :
      (rules : List (InlineRule X)) (rule : InlineRule X)
      → In rule rules
      → (rule.evaluate event).hit ≡ true
      → (rule.evaluate event).decision ≡ reject_fatal
      → (inline_verdict rules).decision ≡ reject_fatal
  fatal_of_hit rules rule m y e = reject_fatal_of_le _ (
      subst (λ d. severity d ≤ severity (inline_verdict rules).decision) e
        (severity-hit-le (inline_results rules) (inline_verdict rules) (rule.evaluate event)
          (evaluate_inline-IsVerdict rules)
          (Any-map (λ r. r.evaluate event) rules (Any-of-In rule rules m refl)) y))
