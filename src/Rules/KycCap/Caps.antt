-- ===== src/Rules/KycCap/Caps.antt =====
-- When a cap applies, and what follows from it.
use riskr_rs.Base.{
  ◌≡◌, true, false, Option, some, none, text_eq, get, arith, codes, Bool-cases, Option-cases, inl,
  inr,
}
use riskr_rs.Crates.{Crates, DecimalLaws}
use riskr_rs.Domain.Evidence
use riskr_rs.Domain.Evidence.{RuleResult, pass, trigger}
use riskr_rs.Domain.Subject.{as_str}
use riskr_rs.Domain.Event.{TxEvent}
use riskr_rs.Rules.KycCap.{KycCapRule, evaluate}

module _ (X : Crates) (rule : KycCapRule X) (event : TxEvent X) where
  -- The tier has a positive cap, and the value of the transaction exceeds it.
  abbrev pub IsOverCap : Type 0
  IsOverCap =
      (cap : X.Decimal) × (get rule.caps (as_str event.subject.kyc_tier) ≡ some cap)
      × (X.decimal_lt X.decimal_zero cap ≡ true)
      × (X.decimal_lt cap event.usd_value ≡ true)

  -- What the rule may say.
  pub data Capped (r : RuleResult) : Type 0 where
    over :
        (o : IsOverCap)
        → r
          ≡ trigger rule.action (
              Evidence.with_limit rule.id
                (codes "usd_value")
                (X.decimal_to_string event.usd_value)
                (X.decimal_to_string o.0))
        → Capped r
    within : ¬ IsOverCap → r ≡ pass → Capped r

  abbrev tier_cap : Option X.Decimal
  tier_cap = get rule.caps (as_str event.subject.kyc_tier)

  no_cap : tier_cap ≡ none → ¬ IsOverCap
  no_cap e o = cc (e, o.1)

  not_positive :
      (c : X.Decimal) → tier_cap ≡ some c → X.decimal_lt X.decimal_zero c ≡ false → ¬ IsOverCap
  not_positive c e n (cap, f, p, q) = ground arith

  not_above :
      (c : X.Decimal) → tier_cap ≡ some c → X.decimal_lt c event.usd_value ≡ false → ¬ IsOverCap
  not_above c e n (cap, f, p, q) = ground arith

  -- The rule triggers exactly above a positive cap of the tier; a tier without a cap, or with a cap
  -- that is not positive, has no limit.
  evaluate-Capped : Capped (evaluate X rule event)
  unfolding evaluate
  evaluate-Capped = elim (Option-cases tier_cap) [
    | inl e ↦ within (no_cap e) (rw e)
    | inr (c, e) ↦ elim (Bool-cases (X.decimal_lt X.decimal_zero c)) [
      | inr n ↦ within (not_positive c e n) (rw e (rw n))
      | inl p ↦ elim (Bool-cases (X.decimal_lt c event.usd_value)) [
        | inl q ↦ over (c, e, p, q) (rw e (rw p (rw q)))
        | inr n ↦ within (not_above c e n) (rw e (rw p (rw n)))
      ]
    ]
  ]

  Capped-pass : (r : RuleResult) → ¬ IsOverCap → Capped r → r ≡ pass
  Capped-pass r n (over o e) = absurd (n o)
  Capped-pass r n (within _ e) = e

  -- A value that is not positive is under every cap.
  pub evaluate-not_positive :
      DecimalLaws X
      → X.decimal_lt X.decimal_zero event.usd_value ≡ false
      → evaluate X rule event ≡ pass
  evaluate-not_positive laws low =
      Capped-pass _ (λ (cap, _, p, q). cc (laws.lt_trans X.decimal_zero cap event.usd_value p q))
        evaluate-Capped
