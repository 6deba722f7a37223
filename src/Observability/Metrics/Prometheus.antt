-- ===== src/Observability/Metrics/Prometheus.antt =====
-- src/observability/metrics.rs: the text that Prometheus reads, and the timing of an operation.
use riskr_rs.Base.{ℕ, ◌≡◌, refl, List, [], ◌∷◌, ◌++◌, Text, codes}
use riskr_rs.Observability.Exposition.{Line, blank, sample, family, render}
use riskr_rs.Observability.Exposition.Reader.{scrape}
use riskr_rs.Observability.Exposition.Scraping.{scrape-render}
use riskr_rs.Observability.Metrics.{MetricsRegistry}

-- The template of `to_prometheus` with the counters in place.
abbrev pub exposition : MetricsRegistry → List Line
exposition m =
    family (codes "riskr_decisions_total Total number of decision requests")
      (codes "riskr_decisions_total counter")
      (sample (codes "riskr_decisions_total") m.decisions_total ∷ [])
    ++ blank
      ∷ family (codes "riskr_decisions Decision requests by outcome")
          (codes "riskr_decisions counter")
          (sample (codes "riskr_decisions{outcome=\"allow\"}") m.decisions_allow
            ∷ sample (codes "riskr_decisions{outcome=\"soft_deny\"}") m.decisions_soft_deny
            ∷ sample (codes "riskr_decisions{outcome=\"hold\"}") m.decisions_hold
            ∷ sample (codes "riskr_decisions{outcome=\"review\"}") m.decisions_review
            ∷ sample (codes "riskr_decisions{outcome=\"reject\"}") m.decisions_reject
            ∷ [])
    ++ blank
      ∷ family (codes "riskr_decision_latency_bucket Decision latency histogram")
          (codes "riskr_decision_latency_bucket counter")
          (sample (codes "riskr_decision_latency_bucket{le=\"0.001\"}") m.latency_under_1ms
            ∷ sample (codes "riskr_decision_latency_bucket{le=\"0.005\"}") m.latency_1_5ms
            ∷ sample (codes "riskr_decision_latency_bucket{le=\"0.01\"}") m.latency_5_10ms
            ∷ sample (codes "riskr_decision_latency_bucket{le=\"0.05\"}") m.latency_10_50ms
            ∷ sample (codes "riskr_decision_latency_bucket{le=\"0.1\"}") m.latency_50_100ms
            ∷ sample (codes "riskr_decision_latency_bucket{le=\"+Inf\"}") m.latency_over_100ms
            ∷ [])
    ++ blank
      ∷ family (codes "riskr_rules_evaluated_total Total rule evaluations")
          (codes "riskr_rules_evaluated_total counter")
          (sample (codes "riskr_rules_evaluated_total") m.rules_evaluated_total ∷ [])
    ++ blank
      ∷ family (codes "riskr_rules_triggered_total Total rules that triggered")
          (codes "riskr_rules_triggered_total counter")
          (sample (codes "riskr_rules_triggered_total") m.rules_triggered_total ∷ [])
    ++ blank
      ∷ family (codes "riskr_wal_writes_total Total WAL write operations")
          (codes "riskr_wal_writes_total counter")
          (sample (codes "riskr_wal_writes_total") m.wal_writes_total ∷ [])
    ++ blank
      ∷ family (codes "riskr_wal_write_errors_total WAL write errors")
          (codes "riskr_wal_write_errors_total counter")
          (sample (codes "riskr_wal_write_errors_total") m.wal_write_errors ∷ [])
    ++ blank
      ∷ family (codes "riskr_policy_reloads_total Policy reload operations")
          (codes "riskr_policy_reloads_total counter")
          (sample (codes "riskr_policy_reloads_total") m.policy_reloads_total ∷ [])
    ++ blank
      ∷ family (codes "riskr_policy_reload_errors_total Policy reload errors")
          (codes "riskr_policy_reload_errors_total counter")
          (sample (codes "riskr_policy_reload_errors_total") m.policy_reload_errors ∷ [])

unfoldable pub to_prometheus : MetricsRegistry → Text
unfolding render
to_prometheus m = render (exposition m)

-- Each counter under its name.
abbrev pub counters : MetricsRegistry → List (Text × ℕ)
counters m =
    (codes "riskr_decisions_total", m.decisions_total)
    ∷ (codes "riskr_decisions{outcome=\"allow\"}", m.decisions_allow)
    ∷ (codes "riskr_decisions{outcome=\"soft_deny\"}", m.decisions_soft_deny)
    ∷ (codes "riskr_decisions{outcome=\"hold\"}", m.decisions_hold)
    ∷ (codes "riskr_decisions{outcome=\"review\"}", m.decisions_review)
    ∷ (codes "riskr_decisions{outcome=\"reject\"}", m.decisions_reject)
    ∷ (codes "riskr_decision_latency_bucket{le=\"0.001\"}", m.latency_under_1ms)
    ∷ (codes "riskr_decision_latency_bucket{le=\"0.005\"}", m.latency_1_5ms)
    ∷ (codes "riskr_decision_latency_bucket{le=\"0.01\"}", m.latency_5_10ms)
    ∷ (codes "riskr_decision_latency_bucket{le=\"0.05\"}", m.latency_10_50ms)
    ∷ (codes "riskr_decision_latency_bucket{le=\"0.1\"}", m.latency_50_100ms)
    ∷ (codes "riskr_decision_latency_bucket{le=\"+Inf\"}", m.latency_over_100ms)
    ∷ (codes "riskr_rules_evaluated_total", m.rules_evaluated_total)
    ∷ (codes "riskr_rules_triggered_total", m.rules_triggered_total)
    ∷ (codes "riskr_wal_writes_total", m.wal_writes_total)
    ∷ (codes "riskr_wal_write_errors_total", m.wal_write_errors)
    ∷ (codes "riskr_policy_reloads_total", m.policy_reloads_total)
    ∷ (codes "riskr_policy_reload_errors_total", m.policy_reload_errors)
    ∷ []

-- Whatever the counters are, the text reads back as each of the eighteen under its name, in order.
pub scrape-to_prometheus : (m : MetricsRegistry) → scrape (to_prometheus m) ≡ counters m
unfolding to_prometheus
scrape-to_prometheus m = scrape-render (exposition m) refl
