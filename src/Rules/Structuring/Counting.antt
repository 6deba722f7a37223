-- ===== src/Rules/Structuring/Counting.antt =====
-- The count of small transactions, this one included.
use riskr_rs.Base.{
  ℕ, ◌+◌, ◌<◌, ◌^◌, ◌≡◌, Bool, Text, codes, Result, ok, err, Outcome, done, ltb, arith,
  if◌then◌else◌, Bool-cases, inl, inr, refl, ◌≤◌, decimal_digits,
}
use riskr_rs.Crates.{Crates}
use riskr_rs.Domain.Evidence
use riskr_rs.Domain.Evidence.{RuleResult, pass, trigger}
use riskr_rs.Domain.Event.{TxEvent}
use riskr_rs.Storage.{Storage, hours}
use riskr_rs.Rules.Structuring.{StructuringRule, total_count, judge_count, evaluate}

module _ (X : Crates) (rule : StructuringRule X) (event : TxEvent X) where
  abbrev over : ℕ → RuleResult
  over total = trigger rule.action (
      Evidence.with_limit rule.id (codes "small_cnt_24h") (decimal_digits total)
        (decimal_digits rule.count_threshold))

  abbrev is_small : Bool
  is_small = X.decimal_lt event.usd_value rule.amount_threshold

  -- The number of small transactions, this one included if it is small.
  abbrev pub counted : ℕ → ℕ
  counted n = n + (if is_small then 1 else 0)

  total_count-eq_counted :
      (n : ℕ) → counted n < 2 ^ 32 → total_count X rule event.usd_value n ≡ counted n
  unfolding total_count
  total_count-eq_counted n h = ground arith

  module _ {S : Type 0} where
    -- What the rule may make of the storage's answer: an error is passed on, and otherwise it
    -- triggers exactly above the threshold.
    pub data Counted (answer : Result ℕ × S) (out : Outcome (Result RuleResult × S)) : Type 0 where
      failed :
          (message : Text)
          → answer.0 ≡ err message
          → out ≡ done (err message, answer.1)
          → Counted answer out
      exceeded :
          (n : ℕ)
          → answer.0 ≡ ok n
          → rule.count_threshold < counted n
          → out ≡ done (ok (over (counted n)), answer.1)
          → Counted answer out
      within :
          (n : ℕ)
          → answer.0 ≡ ok n
          → counted n ≤ rule.count_threshold
          → out ≡ done (ok pass, answer.1)
          → Counted answer out

    -- The stored count, with this transaction, fits a `u32`.
    abbrev pub Fits : Result ℕ × S → Type 0
    Fits answer = (n : ℕ) → answer.0 ≡ ok n → counted n < 2 ^ 32

    judge_count-Counted :
        (answer : Result ℕ × S)
        → Fits answer
        → Counted answer (judge_count X rule event.usd_value answer)
    unfolding judge_count
    judge_count-Counted (err message, s) fits = failed message refl refl
    judge_count-Counted (ok n, s) fits =
        let e = total_count-eq_counted n (fits n refl) in
        elim (Bool-cases (ltb rule.count_threshold (counted n))) [
          | inl y ↦ exceeded n refl (ground arith) (rw e (rw y))
          | inr m ↦ within n refl (ground arith) (rw e (rw m))
        ]

    -- Where the count of the last 24 hours that the storage answers, this transaction included,
    -- fits 32 bits, the rule triggers exactly if that count is above the threshold, with the count
    -- as evidence, and passes an error of the storage on. The storage is left as the query left it.
    pub evaluate-Counted :
        (storage : Storage X S) (subject_id : X.Uuid) (s : S)
        → Fits (storage.get_small_tx_count subject_id 86400 rule.amount_threshold s)
        → Counted
            (storage.get_small_tx_count subject_id 86400 rule.amount_threshold s)
            (evaluate X rule storage event subject_id s)
    unfolding evaluate
    evaluate-Counted storage subject_id s fits =
        judge_count-Counted
          (storage.get_small_tx_count subject_id (hours 24) rule.amount_threshold s) fits

module _ (X : Crates) {S : Type 0} (rule : StructuringRule X) where
  judge_count-state :
      (usd : X.Decimal) (answer : Result ℕ × S) (s' : S) (r : Result RuleResult)
      → judge_count X rule usd answer ≡ done (r, s')
      → answer.1 ≡ s'
  unfolding judge_count
  judge_count-state usd (ok count, s) s' r e = ground arith
  judge_count-state usd (err message, s) s' r e = ground arith

  -- After the rule the storage is as its query left it.
  pub evaluate-count_state :
      (storage : Storage X S) (event : TxEvent X) (id : X.Uuid) (s s' : S) (r : Result RuleResult)
      → evaluate X rule storage event id s ≡ done (r, s')
      → (storage.get_small_tx_count id (hours 24) rule.amount_threshold s).1 ≡ s'
  unfolding evaluate
  evaluate-count_state storage event id s s' r e = judge_count-state event.usd_value _ s' r e
