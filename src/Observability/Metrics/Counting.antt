-- ===== src/Observability/Metrics/Counting.antt =====
-- What each counter counts, over any sequence of calls.
use riskr_rs.Base.{
  ℕ, suc, ◌∙◌, ◌+◌, ◌%◌, ◌^◌, ◌<◌, ◌≡◌, arith, Bool, true, false, ltb, leb, not, ◌&&◌,
  if◌then◌else◌, List, [], ◌∷◌,
}
use riskr_rs.Domain.Decision.{
  Decision, allow, soft_deny_retry, hold_auto, review, reject_fatal, severity,
}
use riskr_rs.Observability.Metrics.{
  MetricsRegistry, new, incr, count_outcome, record_decision, record_latency,
  record_rule_evaluation, record_wal_write, record_policy_reload,
}

-- One call of the registry.
pub data Call : Type 0 where
  decision : Decision → Call
  latency : (elapsed_micros : ℕ) → Call
  rule : (triggered : Bool) → Call
  wal : (success : Bool) → Call
  reload : (success : Bool) → Call

unfoldable pub call : Call → MetricsRegistry → MetricsRegistry
unfolding record_decision record_latency record_rule_evaluation record_wal_write
    record_policy_reload
call (decision d) = record_decision d
call (latency elapsed) = record_latency elapsed
call (rule triggered) = record_rule_evaluation triggered
call (wal success) = record_wal_write success
call (reload success) = record_policy_reload success

unfoldable pub calls : List Call → MetricsRegistry → MetricsRegistry
unfolding call
calls [] m = m
calls (c ∷ cs) m = calls cs (call c m)

-- How many of the calls are such.
abbrev pub count : (Call → Bool) → List Call → ℕ
count p [] = 0
count p (c ∷ cs) = let rest = count p cs in if p c then suc rest else rest

abbrev pub same : Decision → Decision → Bool
unfolding severity
same d d' = leb (severity d) (severity d') && leb (severity d') (severity d)

abbrev pub within : ℕ → ℕ → ℕ → Bool
within low high n = leb low n && ltb n high

-- The counters, by the names of their fields.
pub data Counter : Type 0 where
  decisions_total decisions_allow decisions_soft_deny decisions_hold decisions_review
        decisions_reject latency_under_1ms latency_1_5ms latency_5_10ms latency_10_50ms
        latency_50_100ms latency_over_100ms rules_evaluated_total rules_triggered_total
        wal_writes_total wal_write_errors policy_reloads_total policy_reload_errors :
      Counter

abbrev pub read : Counter → MetricsRegistry → ℕ
read decisions_total m = m.decisions_total
read decisions_allow m = m.decisions_allow
read decisions_soft_deny m = m.decisions_soft_deny
read decisions_hold m = m.decisions_hold
read decisions_review m = m.decisions_review
read decisions_reject m = m.decisions_reject
read latency_under_1ms m = m.latency_under_1ms
read latency_1_5ms m = m.latency_1_5ms
read latency_5_10ms m = m.latency_5_10ms
read latency_10_50ms m = m.latency_10_50ms
read latency_50_100ms m = m.latency_50_100ms
read latency_over_100ms m = m.latency_over_100ms
read rules_evaluated_total m = m.rules_evaluated_total
read rules_triggered_total m = m.rules_triggered_total
read wal_writes_total m = m.wal_writes_total
read wal_write_errors m = m.wal_write_errors
read policy_reloads_total m = m.policy_reloads_total
read policy_reload_errors m = m.policy_reload_errors

-- Which calls a counter is to count. A latency is a number of microseconds modulo 2^64.
abbrev pub counts : Counter → Call → Bool
counts decisions_total (decision d) = true
counts decisions_allow (decision d) = same d allow
counts decisions_soft_deny (decision d) = same d soft_deny_retry
counts decisions_hold (decision d) = same d hold_auto
counts decisions_review (decision d) = same d review
counts decisions_reject (decision d) = same d reject_fatal
counts latency_under_1ms (latency e) = within 0 1000 (e % 2 ^ 64)
counts latency_1_5ms (latency e) = within 1000 5000 (e % 2 ^ 64)
counts latency_5_10ms (latency e) = within 5000 10000 (e % 2 ^ 64)
counts latency_10_50ms (latency e) = within 10000 50000 (e % 2 ^ 64)
counts latency_50_100ms (latency e) = within 50000 100000 (e % 2 ^ 64)
counts latency_over_100ms (latency e) = leb 100000 (e % 2 ^ 64)
counts rules_evaluated_total (rule triggered) = true
counts rules_triggered_total (rule triggered) = triggered
counts wal_writes_total (wal success) = true
counts wal_write_errors (wal success) = not success
counts policy_reloads_total (reload success) = true
counts policy_reload_errors (reload success) = not success
counts _ _ = false

abbrev pub bump : Bool → ℕ → ℕ
unfolding incr
bump true n = incr n
bump false n = n

bump-lt : (b : Bool) (n : ℕ) → n < 2 ^ 64 → bump b n < 2 ^ 64
unfolding incr
bump-lt b n h = ground arith

bump-add : (b : Bool) (n r : ℕ) → (bump b n + r) % 2 ^ 64 ≡ (n + (if b then suc r else r)) % 2 ^ 64
unfolding incr
bump-add b n r = ground arith

-- A counter that goes up by one at the calls that are such, and at no other.
abbrev Follows : (MetricsRegistry → ℕ) → (Call → Bool) → Type 0
Follows k p = (c : Call) (m : MetricsRegistry) → k (call c m) ≡ bump (p c) (k m)

calls-Follows :
    (k : MetricsRegistry → ℕ) (p : Call → Bool)
    → Follows k p
    → (cs : List Call) (m : MetricsRegistry) → k m < 2 ^ 64
    → k (calls cs m) ≡ (k m + count p cs) % 2 ^ 64
unfolding calls
calls-Follows k p f [] m h = omega arith
calls-Follows k p f (c ∷ cs) m h =
    calls-Follows k p f cs (call c m) (rw (f c m) (bump-lt (p c) (k m) h))
    ∙ (rw (f c m) (bump-add (p c) (k m) (count p cs)))

read-Follows : (k : Counter) → Follows (read k) (counts k)
unfolding call record_decision count_outcome record_latency record_rule_evaluation record_wal_write
    record_policy_reload severity
read-Follows k c m = ground arith

read-new : (k : Counter) → read k new ≡ 0
unfolding new
read-new k = ground arith

-- After any calls on a fresh registry, each counter holds the number of the calls that it is to
-- count, modulo 2^64.
pub calls-counted :
    (k : Counter) (cs : List Call) → read k (calls cs new) ≡ count (counts k) cs % 2 ^ 64
calls-counted k cs = omega (
  arith,
  read-new k,
  calls-Follows (read k) (counts k) (read-Follows k) cs new (omega (arith, read-new k)),
)

-- A decision has one of the five outcomes.
count-outcomes :
    (cs : List Call)
    → count (counts decisions_total) cs
      ≡ count (counts decisions_allow) cs
        + count (counts decisions_soft_deny) cs
        + count (counts decisions_hold) cs
        + count (counts decisions_review) cs
        + count (counts decisions_reject) cs
unfolding severity
count-outcomes [] = omega arith
count-outcomes (c ∷ cs) = ground (arith, count-outcomes cs)

-- After any calls on a fresh registry, the total of the decisions is the sum of the counters of the
-- five outcomes, modulo 2^64.
decisions_total-outcomes :
    (cs : List Call)
    → (calls cs new).decisions_total
      ≡ ((calls cs new).decisions_allow
          + (calls cs new).decisions_soft_deny
          + (calls cs new).decisions_hold
          + (calls cs new).decisions_review
          + (calls cs new).decisions_reject)
        % 2 ^ 64
decisions_total-outcomes cs = omega (
  arith,
  count-outcomes cs,
  calls-counted decisions_total cs,
  calls-counted decisions_allow cs,
  calls-counted decisions_soft_deny cs,
  calls-counted decisions_hold cs,
  calls-counted decisions_review cs,
  calls-counted decisions_reject cs,
)
