-- ===== src/Domain/Decision/Names.antt =====
-- The spellings of a decision and the parser.
use riskr_rs.Base.{◌≡◌, ◌↔◌, some, arith, Text, codes, to_uppercase, text_beq_iff}
use riskr_rs.Domain.Decision.{Decision, from_str, display}

-- `from_str` accepts exactly the spellings that are the displayed name once put in upper case.
from_str_iff : (s : Text) (d : Decision) → (from_str s ≡ some d) ↔ (to_uppercase s ≡ display d)
unfolding from_str display
from_str_iff s d = ground (
  arith,
  text_beq_iff (to_uppercase s) (codes "ALLOW"),
  text_beq_iff (to_uppercase s) (codes "SOFT_DENY_RETRY"),
  text_beq_iff (to_uppercase s) (codes "HOLD_AUTO"),
  text_beq_iff (to_uppercase s) (codes "REVIEW"),
  text_beq_iff (to_uppercase s) (codes "REJECT_FATAL"),
)
