-- ===== src/Domain/Decision.antt =====
-- src/domain/decision.rs: the outcomes of the engine, ordered by severity.
pub mod Order
pub mod Names
use riskr_rs.Base.{
  ℕ, Bool, true, false, ◌||◌, Option, some, none, Text, codes, ◌==◌, text_eq, text_beq, ltb,
  nat_beq, if◌then◌else◌, to_uppercase,
}

pub data Decision : Type 0 where
  allow soft_deny_retry hold_auto review reject_fatal : Decision

-- The discriminants, by which the derived order compares.
unfoldable pub severity : Decision → ℕ
severity allow = 0
severity soft_deny_retry = 1
severity hold_auto = 2
severity review = 3
severity reject_fatal = 4

-- `a > b` of the derived order.
unfoldable pub gt : Decision → Decision → Bool
unfolding severity
gt a b = ltb (severity b) (severity a)

-- `std::cmp::max` returns the second argument unless the first is greater.
unfoldable pub max : Decision → Decision → Decision
unfolding gt
max a b = if gt a b then a else b

unfoldable pub is_fatal : Decision → Bool
is_fatal reject_fatal = true
is_fatal _ = false

unfoldable pub is_allowed : Decision → Bool
is_allowed allow = true
is_allowed _ = false

unfoldable pub requires_action : Decision → Bool
requires_action hold_auto = true
requires_action review = true
requires_action _ = false

-- `Default`
abbrev pub default : Decision
default = allow

unfoldable pub from_str : Text → Option Decision
from_str s =
    let u = to_uppercase s in
    if u == codes "ALLOW"
    then some allow
    else if u == codes "SOFT_DENY_RETRY"
    then some soft_deny_retry
    else if u == codes "HOLD_AUTO"
    then some hold_auto
    else if u == codes "REVIEW"
    then some review
    else if u == codes "REJECT_FATAL"
    then some reject_fatal
    else none

-- `Display`, which is also the serialised form.
unfoldable pub display : Decision → Text
display allow = codes "ALLOW"
display soft_deny_retry = codes "SOFT_DENY_RETRY"
display hold_auto = codes "HOLD_AUTO"
display review = codes "REVIEW"
display reject_fatal = codes "REJECT_FATAL"

-- The derived `Debug`: the variant's name.
unfoldable pub debug : Decision → Text
debug allow = codes "Allow"
debug soft_deny_retry = codes "SoftDenyRetry"
debug hold_auto = codes "HoldAuto"
debug review = codes "Review"
debug reject_fatal = codes "RejectFatal"
