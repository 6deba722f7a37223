-- ===== src/Config/Defaults.antt =====
-- The two sets of defaults of src/config/mod.rs, and the intervals that are given.
use riskr_rs.Base.{◌≡◌, Bool, true, false, some, none, Text, codes}
use riskr_rs.Config.{
  Clap, default, parse, ◌>>=◌, parse_unsigned, text_or, unsigned, within_bits, without_sign,
  digits_value,
}

ungiven :
    (clap : Clap)
    → ((long env : Text) → clap.given long env ≡ none)
    → (long env default_value : Text) (b : Bool) → clap.parse_bool default_value ≡ some b
    → clap.parse_bool (text_or clap long env default_value) ≡ some b
ungiven clap nothing long env default_value b h = rw (nothing long env) h

-- Where nothing is given on the command line or in the environment, the configuration is that of
-- `Default`, if switches are read as "true" and "false".
parse-eq_default :
    (clap : Clap)
    → ((long env : Text) → clap.given long env ≡ none)
    → clap.parse_bool (codes "true") ≡ some true
    → clap.parse_bool (codes "false") ≡ some false
    → parse clap ≡ some default
unfolding parse ◌>>=◌ default parse_unsigned unsigned within_bits without_sign digits_value
parse-eq_default clap nothing is_true is_false = simp (
  nothing,
  ungiven clap nothing (codes "graceful-shutdown") (codes "RISKR_GRACEFUL_SHUTDOWN") (codes "true")
      true is_true,
  ungiven clap nothing (codes "run-migrations") (codes "RISKR_RUN_MIGRATIONS") (codes "false") false
      is_false,
)
