-- ===== src/Domain/Subject.antt =====
-- src/domain/subject.rs: who is evaluated.
pub mod Tiers
use riskr_rs.Base.{
  Bool, Option, some, none, List, any, Text, codes, ◌==◌, text_eq, text_beq, to_lowercase,
  to_uppercase, if◌then◌else◌,
}

-- Newtypes over `String`. `Address` is in lower case and `CountryCode` in upper case when it is
-- made by its constructor function.
pub record UserId : Type 0 where
  pub value : Text

pub record AccountId : Type 0 where
  pub value : Text

pub record Address : Type 0 where
  pub value : Text

pub record CountryCode : Type 0 where
  pub value : Text

unfoldable pub new_address : Text → Address
new_address addr = record { value = to_lowercase addr }

unfoldable pub new_country_code : Text → CountryCode
new_country_code code = record { value = to_uppercase code }

pub data KycTier : Type 0 where
  l0 l1 l2 : KycTier

-- `Default`
abbrev pub default_tier : KycTier
default_tier = l0

unfoldable pub from_str : Text → Option KycTier
from_str s =
    let u = to_uppercase s in
    if u == codes "L0"
    then some l0
    else if u == codes "L1"
    then some l1
    else if u == codes "L2"
    then some l2
    else none

unfoldable pub as_str : KycTier → Text
as_str l0 = codes "L0"
as_str l1 = codes "L1"
as_str l2 = codes "L2"

pub record Subject : Type 0 where
  pub user_id : UserId
  pub account_id : AccountId
  pub addresses : List Address
  pub geo_iso : CountryCode
  pub kyc_tier : KycTier

unfoldable pub has_address : Subject → (Address → Bool) → Bool
has_address s predicate = any predicate s.addresses
