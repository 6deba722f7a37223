-- ===== src/Api/Status.antt =====
-- src/api/routes.rs: the health, readiness and metrics endpoints, and the state they read.
use riskr_rs.Base.{
  ℕ, ◌+◌, ◌<◌, ◌-◌, ◌≡◌, ◌↔◌, ◌⊎◌, inl, inr, arith, true, false, List, [], ◌∷◌, ◌++◌, refl, ◌&&◌,
  is_empty, length, Text, codes, if◌then◌else◌,
}
use riskr_rs.Crates.{Crates}
use riskr_rs.Observability.Exposition.{Line, blank, sample, family, render}
use riskr_rs.Observability.Exposition.Reader.{scrape}
use riskr_rs.Observability.Exposition.Scraping.{scrape-render}
use riskr_rs.Rules.RuleSet.{RuleSet}
use riskr_rs.Api.Decide.{StatusCode, ok_200, service_unavailable_503}
use riskr_rs.Api.Response.{HealthResponse, ReadyResponse, ErrorResponse, new_error}

-- The shared state of the handlers beside the storage: `current` is what the watch channel holds,
-- and the times are whole seconds of one monotonic clock.
pub record AppState (X : Crates) (S : Type 0) : Type 0 where
  pub current : RuleSet X S
  pub start_time : ℕ
  pub version : Text
  pub latency_budget_ms : ℕ

both_empty_iff :
    {A B : Type 0} (xs : List A) (ys : List B)
    → (is_empty xs && is_empty ys ≡ false) ↔ (0 < length xs + length ys)
both_empty_iff [] [] = ground arith
both_empty_iff [] (y ∷ ys) = ground arith
both_empty_iff (x ∷ xs) ys = ground arith

module _ (X : Crates) {S : Type 0} where
  unfoldable pub handle_health : (now : ℕ) → AppState X S → HealthResponse
  handle_health now state = record {
    status = codes "healthy";
    version = state.version;
    policy_version = state.current.policy_version;
    uptime_secs = now - state.start_time;
  }

  unfoldable pub handle_ready : AppState X S → StatusCode × (ErrorResponse ⊎ ReadyResponse)
  unfolding new_error
  handle_ready state =
      if is_empty state.current.inline && is_empty state.current.streaming
      then (service_unavailable_503, inl (new_error (codes "No rules loaded") (codes "NOT_READY")))
      else (
        ok_200,
        inr (record {
          ready = true;
          policy_version = state.current.policy_version;
          inline_rules = length state.current.inline;
          streaming_rules = length state.current.streaming;
        }),
      )

  -- The engine is ready exactly when a rule is loaded, of either kind.
  handle_ready_iff :
      (state : AppState X S)
      → ((handle_ready state).0 ≡ ok_200)
        ↔ (0 < length state.current.inline + length state.current.streaming)
  unfolding handle_ready
  handle_ready_iff state =
      ground (arith, both_empty_iff state.current.inline state.current.streaming)

  metrics_lines : (now : ℕ) → AppState X S → List Line
  metrics_lines now state =
      family (codes "riskr_uptime_seconds Application uptime in seconds")
        (codes "riskr_uptime_seconds counter")
        (sample (codes "riskr_uptime_seconds") (now - state.start_time) ∷ [])
      ++ blank
        ∷ family (codes "riskr_inline_rules Number of inline rules loaded")
            (codes "riskr_inline_rules gauge")
            (sample (codes "riskr_inline_rules") (length state.current.inline) ∷ [])
      ++ blank
        ∷ family (codes "riskr_streaming_rules Number of streaming rules loaded")
            (codes "riskr_streaming_rules gauge")
            (sample (codes "riskr_streaming_rules") (length state.current.streaming) ∷ [])

  -- The status, the content type and the body.
  unfoldable pub handle_metrics : (now : ℕ) → AppState X S → StatusCode × (Text × Text)
  unfolding metrics_lines render
  handle_metrics now state =
      (ok_200, (codes "text/plain; charset=utf-8", render (metrics_lines now state)))

  -- The text of the metrics endpoint reads back as the seconds since the start and the numbers of
  -- rules of the two kinds, each under its name.
  scrape-handle_metrics :
      (now : ℕ) (state : AppState X S)
      → scrape (handle_metrics now state).1.1
        ≡ (codes "riskr_uptime_seconds", now - state.start_time)
          ∷ (codes "riskr_inline_rules", length state.current.inline)
          ∷ (codes "riskr_streaming_rules", length state.current.streaming)
          ∷ []
  unfolding handle_metrics metrics_lines
  scrape-handle_metrics now state = scrape-render (metrics_lines now state) refl
