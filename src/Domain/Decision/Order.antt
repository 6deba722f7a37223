-- ===== src/Domain/Decision/Order.antt =====
-- The severity order: linear, with `allow` below and `reject_fatal` above all.
use Prim.Native.Nat
use riskr_rs.Base.{◌<◌, ◌≡◌, ◌↔◌, true, arith}
use riskr_rs.Domain.Decision.{Decision, allow, reject_fatal, severity, gt, max}

pub severity-injective : (a b : Decision) → severity a ≡ severity b → a ≡ b
unfolding severity
severity-injective a b h = ground arith

gt_iff : (a b : Decision) → (gt a b ≡ true) ↔ (severity b < severity a)
unfolding gt
gt_iff a b = ground arith

-- The more severe of two decisions has the greater severity of the two.
severity-max : (a b : Decision) → severity (max a b) ≡ Nat.max (severity a) (severity b)
unfolding max
severity-max a b = ground arith

-- `max` makes the decisions a bounded join semilattice: it is idempotent, commutative and
-- associative, `allow` is its unit, and `reject_fatal` absorbs.
max_laws :
    (a b c : Decision)
    → (max a a ≡ a)
      × (max a b ≡ max b a)
      × (max (max a b) c ≡ max a (max b c))
      × (max allow a ≡ a)
      × (max reject_fatal a ≡ reject_fatal)
unfolding max
max_laws a b c = ground arith
