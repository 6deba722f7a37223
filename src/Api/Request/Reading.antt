-- ===== src/Api/Request/Reading.antt =====
-- How a request is read.
use riskr_rs.Base.{
  ◌≡◌, ◌↔◌, refl, List, [], ◌∷◌, map, Text, none, codes, to_lowercase, to_uppercase,
  to_lowercase_idem, to_uppercase_idem, arith,
}
use riskr_rs.Crates.{Crates, DecimalLaws}
use riskr_rs.Domain.Evidence.{pass}
use riskr_rs.Domain.Subject.{l1, l2, as_str, from_str, new_address, new_country_code}
use riskr_rs.Domain.Subject.Tiers.{tier_from_str_iff}
use riskr_rs.Rules.KycCap.{KycCapRule, evaluate}
use riskr_rs.Rules.KycCap.Caps.{evaluate-not_positive}
use riskr_rs.Api.Request.{SubjectRequest, DecisionRequest, to_tx_event}

-- The request with its addresses in lower case and its country and tier in upper case.
abbrev pub normalized : SubjectRequest → SubjectRequest
normalized r = record r {
  addresses = map to_lowercase r.addresses;
  geo_iso = to_uppercase r.geo_iso;
  kyc_tier = to_uppercase r.kyc_tier;
}

new_address-lowered : (a : Text) → new_address (to_lowercase a) ≡ new_address a
unfolding new_address
new_address-lowered a = rw (to_lowercase_idem a)

new_addresses-lowered : (l : List Text) → map new_address (map to_lowercase l) ≡ map new_address l
new_addresses-lowered [] = refl
new_addresses-lowered (a ∷ l) = cc (new_address-lowered a, new_addresses-lowered l)

from_str-uppered : (s : Text) → from_str (to_uppercase s) ≡ from_str s
unfolding from_str
from_str-uppered s = rw (to_uppercase_idem s)

module _ (X : Crates) (now : X.DateTime) (uuid : X.Uuid) (req : DecisionRequest X) where
  -- Letter case does not matter: the request in normal form is read as the same event.
  to_tx_event-normalized :
      to_tx_event X now uuid (record req { subject = normalized req.subject })
      ≡ to_tx_event X now uuid req
  unfolding to_tx_event new_country_code
  to_tx_event-normalized = rw (to_uppercase_idem req.subject.geo_iso) (
      rw (from_str-uppered req.subject.kyc_tier) (rw (new_addresses-lowered req.subject.addresses)))

  -- A tier above L0 is read only from its name, up to case; every other text is L0.
  pub tier_of_event :
      ((to_tx_event X now uuid req).subject.kyc_tier ≡ l1
        ↔ to_uppercase req.subject.kyc_tier ≡ codes "L1")
      × ((to_tx_event X now uuid req).subject.kyc_tier ≡ l2
          ↔ to_uppercase req.subject.kyc_tier ≡ codes "L2")
  unfolding to_tx_event as_str
  tier_of_event =
      ground (
        arith,
        tier_from_str_iff req.subject.kyc_tier l1,
        tier_from_str_iff req.subject.kyc_tier l2,
      )

  -- Where `<` on decimals is irreflexive and transitive, a transaction whose value `Decimal` cannot
  -- represent passes every KYC cap rule.
  pub unconvertible_passes :
      DecimalLaws X
      → X.from_f64_retain req.tx.usd_value ≡ none
      → (rule : KycCapRule X) → evaluate X rule (to_tx_event X now uuid req) ≡ pass
  unfolding to_tx_event
  unconvertible_passes laws e rule =
      evaluate-not_positive X rule _ laws (rw e (laws.lt_irrefl X.decimal_zero))
