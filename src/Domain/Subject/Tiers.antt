-- ===== src/Domain/Subject/Tiers.antt =====
-- The spellings of a KYC tier.
use riskr_rs.Base.{◌≡◌, refl, ◌↔◌, some, arith, Text, codes, to_uppercase, text_beq, text_beq_iff}
use riskr_rs.Domain.Subject.{KycTier, l0, l1, l2, from_str, as_str}

-- `from_str` accepts exactly the texts that read as the tier's name once put in upper case.
pub tier_from_str_iff :
    (s : Text) (t : KycTier) → (from_str s ≡ some t) ↔ (to_uppercase s ≡ as_str t)
unfolding from_str as_str
tier_from_str_iff s t = ground (
  arith,
  text_beq_iff (to_uppercase s) (codes "L0"),
  text_beq_iff (to_uppercase s) (codes "L1"),
  text_beq_iff (to_uppercase s) (codes "L2"),
)

pub from_str-as_str : (t : KycTier) → from_str (as_str t) ≡ some t
unfolding from_str as_str text_beq to_uppercase
from_str-as_str l0 = refl
from_str-as_str l1 = refl
from_str-as_str l2 = refl
