-- ===== src/Observability/Exposition.antt =====
-- The text format of the metrics, as src/observability/metrics.rs and src/api/routes.rs write it.
pub mod Reader
pub mod Scraping
use riskr_rs.Base.{ℕ, List, [], ◌∷◌, ◌++◌, Text, codes, decimal_digits}

-- A line of the format: a comment, a blank line, or a metric with its labels and its value.
pub data Line : Type 0 where
  comment : Text → Line
  blank : Line
  sample : (name : Text) → (value : ℕ) → Line

abbrev pub render_line : Line → Text
render_line (comment text) = text
render_line blank = []
render_line (sample name value) = name ++ b' ' ∷ decimal_digits value

unfoldable pub render : List Line → Text
render [] = []
render (l ∷ ls) = render_line l ++ 10 ∷ render ls

-- "# HELP", "# TYPE" and the samples of one metric.
abbrev pub family : (help type : Text) → List Line → List Line
family help type samples =
    comment (codes "# HELP " ++ help) ∷ comment (codes "# TYPE " ++ type) ∷ samples
