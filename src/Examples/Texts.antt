-- ===== src/Examples/Texts.antt =====
-- Command lines and the text of the metrics.
use riskr_rs.Base.{
  ◌≡◌, refl, true, false, some, none, Bool, Option, Text, codes, text_eq, ◌==◌, text_beq,
  if◌then◌else◌, arith, decimal_digits, digits_onto,
}
use riskr_rs.Domain.Decision.{review}
use riskr_rs.Config.{Config, Clap, default, parse, parse_unsigned, policy_reload_interval, ◌>>=◌}
use riskr_rs.Config.Given.{parse-policy_reload_interval}
use riskr_rs.Observability.Metrics.{MetricsRegistry, new, record_decision}
use riskr_rs.Observability.Metrics.Prometheus.{to_prometheus, counters, scrape-to_prometheus}
use riskr_rs.Observability.Exposition.Reader.{scrape}

abbrev read_bool : Text → Option Bool
read_bool s =
    if s == codes "true" then some true else if s == codes "false" then some false else none

abbrev nothing_given : Clap
nothing_given = record { given = λ long env. none; parse_bool = read_bool }

-- `--policy-reload-secs 45`
abbrev one_given : Clap
one_given = record nothing_given {
  given = λ long env. if long == codes "policy-reload-secs" then some (codes "45") else none;
}

abbrev with_45 : Config
with_45 = record default { policy_reload_secs = 45 }

is_45 : parse one_given ≡ some with_45
unfolding parse parse_unsigned default text_beq ◌>>=◌
is_45 = refl

given_45 :
    one_given.given (codes "policy-reload-secs") (codes "RISKR_POLICY_RELOAD_SECS")
    ≡ some (decimal_digits 45)
unfolding text_beq decimal_digits digits_onto
given_45 = refl

parse-policy_reload_interval_example : policy_reload_interval with_45 ≡ 45
parse-policy_reload_interval_example =
    parse-policy_reload_interval one_given with_45 45 (omega arith) given_45 is_45

abbrev registry : MetricsRegistry
registry = record_decision review new

scrape-to_prometheus_example : scrape (to_prometheus registry) ≡ counters registry
scrape-to_prometheus_example = scrape-to_prometheus registry
