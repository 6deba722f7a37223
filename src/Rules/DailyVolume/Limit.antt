-- ===== src/Rules/DailyVolume/Limit.antt =====
-- The daily limit on every branch: the query's error, the overflow, over and within the limit.
use riskr_rs.Base.{
  sym, ap, ◌∙◌, arith, Option, ◌≡◌, true, false, some, none, Text, codes, Result, ok, err, Outcome,
  done, panic, Bool-cases, Option-cases, inl, inr, refl,
}
use riskr_rs.Crates.{Crates}
use riskr_rs.Domain.Evidence
use riskr_rs.Domain.Evidence.{RuleResult, pass, trigger}
use riskr_rs.Domain.Event.{TxEvent}
use riskr_rs.Storage.{Storage, hours}
use riskr_rs.Rules.DailyVolume.{DailyVolumeRule, judge_volume, evaluate}

module _ (X : Crates) (rule : DailyVolumeRule X) (event : TxEvent X) where
  abbrev over : X.Decimal → RuleResult
  over total = trigger rule.action (
      Evidence.with_limit rule.id (codes "daily_usd") (X.decimal_to_string total)
        (X.decimal_to_string rule.limit))

  module _ {S : Type 0} where
    -- What the rule may make of the storage's answer: an error is passed on, a sum out of range
    -- panics, a sum above the limit triggers, and a sum up to the limit passes.
    pub data Limited (answer : Result X.Decimal × S) (out : Outcome (Result RuleResult × S))
        : Type 0 where
      failed :
          (message : Text)
          → answer.0 ≡ err message
          → out ≡ done (err message, answer.1)
          → Limited answer out
      overflowed :
          (volume : X.Decimal)
          → answer.0 ≡ ok volume
          → X.decimal_add volume event.usd_value ≡ none
          → out ≡ panic
          → Limited answer out
      exceeded :
          (volume total : X.Decimal)
          → answer.0 ≡ ok volume
          → X.decimal_add volume event.usd_value ≡ some total
          → X.decimal_lt rule.limit total ≡ true
          → out ≡ done (ok (over total), answer.1)
          → Limited answer out
      within :
          (volume total : X.Decimal)
          → answer.0 ≡ ok volume
          → X.decimal_add volume event.usd_value ≡ some total
          → X.decimal_lt rule.limit total ≡ false
          → out ≡ done (ok pass, answer.1)
          → Limited answer out

    judge_total :
        (volume total : X.Decimal) (s : S)
        → X.decimal_add volume event.usd_value ≡ some total
        → Limited (ok volume, s) (judge_volume X rule event.usd_value (ok volume, s))
    unfolding judge_volume
    judge_total volume total s e = elim (Bool-cases (X.decimal_lt rule.limit total)) [
      | inl y ↦ exceeded volume total refl e y (rw e (rw y))
      | inr n ↦ within volume total refl e n (rw e (rw n))
    ]

    judge_volume-Limited :
        (answer : Result X.Decimal × S)
        → Limited answer (judge_volume X rule event.usd_value answer)
    unfolding judge_volume
    judge_volume-Limited (err message, s) = failed message refl refl
    judge_volume-Limited (ok volume, s) =
        elim (Option-cases (X.decimal_add volume event.usd_value)) [
          | inl e ↦ overflowed volume refl e (rw e)
          | inr (total, e) ↦ judge_total volume total s e
        ]

    -- The rule asks for the volume of the last 24 hours and adds the value of the transaction. It
    -- triggers exactly if the sum is above the limit, with the sum as evidence; it passes an error
    -- of the storage on, and it panics exactly if the sum is out of range. The storage is left as
    -- the query left it.
    pub evaluate-Limited :
        (storage : Storage X S) (subject_id : X.Uuid) (s : S)
        → Limited
            (storage.get_rolling_volume subject_id 86400 s)
            (evaluate X rule storage event subject_id s)
    unfolding evaluate
    evaluate-Limited storage subject_id s =
        judge_volume-Limited (storage.get_rolling_volume subject_id (hours 24) s)

module _ (X : Crates) (rule : DailyVolumeRule X) (ev : TxEvent X) where
  same_volume : {a b : X.Decimal} → ◌≡◌ {A = Result X.Decimal} (ok a) (ok b) → a ≡ b
  same_volume e = ground arith

  same_total : {a b : X.Decimal} → ◌≡◌ {A = Option X.Decimal} (some a) (some b) → a ≡ b
  same_total e = ground arith

  -- What the rule answers above the limit.
  pub above-Limited :
      {S : Type 0} (vol total : X.Decimal) (answer : Result X.Decimal × S)
      (out : Outcome (Result RuleResult × S))
      → Limited X rule ev answer out
      → answer.0 ≡ ok vol
      → X.decimal_add vol ev.usd_value ≡ some total
      → X.decimal_lt rule.limit total ≡ true
      → (r : RuleResult) × (after : S) × (out ≡ done (ok r, after))
        × (r.hit ≡ true)
        × (r.decision ≡ rule.action)
  unfolding trigger
  above-Limited vol total answer out (failed m e o) a s l = cc (e, a)
  above-Limited vol total answer out (overflowed v e n o) a s l =
      let same = same_volume (sym e ∙ a) in cc (ap (λ x. X.decimal_add x ev.usd_value) same, n, s)
  above-Limited vol total answer out (exceeded v t e s' y o) a s l = (_, answer.1, o, refl, refl)
  above-Limited vol total answer out (within v t e s' n o) a s l =
      let same = same_volume (sym e ∙ a) in
      let same_sum = same_total (sym s' ∙ ap (λ x. X.decimal_add x ev.usd_value) same ∙ s) in
      cc (ap (λ x. X.decimal_lt rule.limit x) same_sum, n, l)

module _ (X : Crates) {S : Type 0} (rule : DailyVolumeRule X) where
  judge_volume-state :
      (usd : X.Decimal) (answer : Result X.Decimal × S) (s' : S) (r : Result RuleResult)
      → judge_volume X rule usd answer ≡ done (r, s')
      → answer.1 ≡ s'
  unfolding judge_volume
  judge_volume-state usd (ok volume, s) s' r e = ground arith
  judge_volume-state usd (err message, s) s' r e = ground arith

  -- After the rule the storage is as its query left it.
  pub evaluate-volume_state :
      (storage : Storage X S) (event : TxEvent X) (id : X.Uuid) (s s' : S) (r : Result RuleResult)
      → evaluate X rule storage event id s ≡ done (r, s')
      → (storage.get_rolling_volume id (hours 24) s).1 ≡ s'
  unfolding evaluate
  evaluate-volume_state storage event id s s' r e = judge_volume-state event.usd_value _ s' r e
