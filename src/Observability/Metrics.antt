-- ===== src/Observability/Metrics.antt =====
-- src/observability/metrics.rs: the registry of counters. Each counter is an atomic 64-bit word;
-- `fetch_add` wraps around, and the updates of one call are made one after the other.
pub mod Counting
pub mod Prometheus
use riskr_rs.Base.{ℕ, ◌+◌, ◌-◌, ◌%◌, ◌^◌, Bool, true, false, ltb, not, if◌then◌else◌}
use riskr_rs.Domain.Decision.{Decision, allow, soft_deny_retry, hold_auto, review, reject_fatal}

pub record MetricsRegistry : Type 0 where
  pub decisions_total : ℕ
  pub decisions_allow : ℕ
  pub decisions_soft_deny : ℕ
  pub decisions_hold : ℕ
  pub decisions_review : ℕ
  pub decisions_reject : ℕ
  pub latency_under_1ms : ℕ
  pub latency_1_5ms : ℕ
  pub latency_5_10ms : ℕ
  pub latency_10_50ms : ℕ
  pub latency_50_100ms : ℕ
  pub latency_over_100ms : ℕ
  pub rules_evaluated_total : ℕ
  pub rules_triggered_total : ℕ
  pub wal_writes_total : ℕ
  pub wal_write_errors : ℕ
  pub policy_reloads_total : ℕ
  pub policy_reload_errors : ℕ

unfoldable pub new : MetricsRegistry
new = record {
  decisions_total = 0;
  decisions_allow = 0;
  decisions_soft_deny = 0;
  decisions_hold = 0;
  decisions_review = 0;
  decisions_reject = 0;
  latency_under_1ms = 0;
  latency_1_5ms = 0;
  latency_5_10ms = 0;
  latency_10_50ms = 0;
  latency_50_100ms = 0;
  latency_over_100ms = 0;
  rules_evaluated_total = 0;
  rules_triggered_total = 0;
  wal_writes_total = 0;
  wal_write_errors = 0;
  policy_reloads_total = 0;
  policy_reload_errors = 0;
}

-- `AtomicU64::fetch_add(1)`.
unfoldable pub incr : ℕ → ℕ
incr n = (n + 1) % 2 ^ 64

-- The `match` on the decision.
unfoldable pub count_outcome : Decision → MetricsRegistry → MetricsRegistry
unfolding incr
count_outcome allow m = record m { decisions_allow = incr m.decisions_allow }
count_outcome soft_deny_retry m = record m { decisions_soft_deny = incr m.decisions_soft_deny }
count_outcome hold_auto m = record m { decisions_hold = incr m.decisions_hold }
count_outcome review m = record m { decisions_review = incr m.decisions_review }
count_outcome reject_fatal m = record m { decisions_reject = incr m.decisions_reject }

unfoldable pub record_decision : Decision → MetricsRegistry → MetricsRegistry
unfolding incr count_outcome
record_decision d m = count_outcome d (record m { decisions_total = incr m.decisions_total })

-- `start.elapsed().as_micros() as u64` keeps the low 64 bits.
unfoldable pub record_latency : (elapsed_micros : ℕ) → MetricsRegistry → MetricsRegistry
unfolding incr
record_latency elapsed m =
    let micros = elapsed % 2 ^ 64 in
    if ltb micros 1000
    then record m { latency_under_1ms = incr m.latency_under_1ms }
    else if ltb micros 5000
    then record m { latency_1_5ms = incr m.latency_1_5ms }
    else if ltb micros 10000
    then record m { latency_5_10ms = incr m.latency_5_10ms }
    else if ltb micros 50000
    then record m { latency_10_50ms = incr m.latency_10_50ms }
    else if ltb micros 100000
    then record m { latency_50_100ms = incr m.latency_50_100ms }
    else record m { latency_over_100ms = incr m.latency_over_100ms }

unfoldable pub record_rule_evaluation : Bool → MetricsRegistry → MetricsRegistry
unfolding incr
record_rule_evaluation triggered m =
    let m' = record m { rules_evaluated_total = incr m.rules_evaluated_total } in
    if triggered then record m' { rules_triggered_total = incr m'.rules_triggered_total } else m'

unfoldable pub record_wal_write : Bool → MetricsRegistry → MetricsRegistry
unfolding incr
record_wal_write success m =
    let m' = record m { wal_writes_total = incr m.wal_writes_total } in
    if not success then record m' { wal_write_errors = incr m'.wal_write_errors } else m'

unfoldable pub record_policy_reload : Bool → MetricsRegistry → MetricsRegistry
unfolding incr
record_policy_reload success m =
    let m' = record m { policy_reloads_total = incr m.policy_reloads_total } in
    if not success then record m' { policy_reload_errors = incr m'.policy_reload_errors } else m'

-- `TimingGuard`: the time of its construction, and its destructor.
pub record TimingGuard : Type 0 where
  pub start : ℕ

unfoldable pub new_timing_guard : (now_micros : ℕ) → TimingGuard
new_timing_guard now = record { start = now }

unfoldable pub drop_timing_guard :
    (now_micros : ℕ) → TimingGuard → MetricsRegistry → MetricsRegistry
unfolding record_latency
drop_timing_guard now guard m = record_latency (now - guard.start) m
