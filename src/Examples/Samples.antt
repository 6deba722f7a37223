-- ===== src/Examples/Samples.antt =====
-- Plain implementations of the crates, the policy of policy.yaml, and a few requests.
use riskr_rs.Base.{
  Outcome, done, panic, ℕ, ◌+◌, ◌-◌, ◌*◌, ◌^◌, ◌≡◌, refl, Bool, true, false, ◌||◌, ◌&&◌, Option,
  none, some, List, [], ◌∷◌, Text, codes, text_eq, nat_eq, ◌==◌, ltb, leb, decimal_digits,
  if◌then◌else◌, arith,
}
use riskr_rs.Crates.{Crates, BloomLaws, DecimalLaws}
use riskr_rs.Domain.Decision.{allow, hold_auto, review, reject_fatal}
use riskr_rs.Domain.Policy.{
  Policy, RuleDef, ofac_addr, jurisdiction_block, kyc_tier_tx_cap, daily_usd_volume,
  structuring_small_tx,
}
use riskr_rs.Rules.RuleSet.{RuleSet, from_policy}
use riskr_rs.Storage.Mock.{MockStorage}
use riskr_rs.Storage.Mock
use riskr_rs.Api.Request.{SubjectRequest, DecisionRequest}
use riskr_rs.Api.Decide.{Ambient, HttpResponse, ok_200}
use riskr_rs.Api.Response

-- A list of addresses as a filter: it has no false positives either.
abbrev pub listed : List Text → Text → Bool
listed [] a = false
listed (b ∷ l) a = b == a || listed l a

abbrev pub digits_of : ℕ → Text → Option ℕ
digits_of n [] = some n
digits_of n (c ∷ s) =
    let rest = digits_of (n * 10 + (c - b'0')) s in if leb b'0' c && leb c b'9' then rest else none

-- Decimals are whole numbers below 10^28, and an `f64` is such a number or not finite.
abbrev pub plain : Crates
plain = record {
  Decimal = ℕ;
  decimal_zero = 0;
  decimal_lt = ltb;
  decimal_add = λ a b. if ltb (a + b) (10 ^ 28) then some (a + b) else none;
  decimal_to_string = decimal_digits;
  parse_decimal = digits_of 0;
  F64 = Option ℕ;
  from_f64_retain = λ f. f;
  Uuid = ℕ;
  uuid_eq = nat_eq;
  uuid_to_string = decimal_digits;
  new_v4 = λ n. n;
  DateTime = ℕ;
  Bloom = List Text;
  new_for_fp_rate = λ n. [];
  bloom_set = λ b a. a ∷ b;
  bloom_check = listed;
  Json = Text;
  json_null = codes "null";
}

text_beq_self : (a : Text) → (a == a) ≡ true
text_beq_self a = (text_eq.eqb_iff a a).1 refl

pub plain_bloom : BloomLaws plain
plain_bloom = record {
  check-set_self = λ b a. ground (arith, text_beq_self a);
  check-set_of_check = λ b a c h. ground arith;
}

pub plain_decimals : DecimalLaws plain
plain_decimals = record { lt_irrefl = λ a. ground arith; lt_trans = λ a b c p q. ground arith }

abbrev pub ofac_def : RuleDef
ofac_def = record {
  id = codes "R1_OFAC";
  rule_type = ofac_addr;
  action = reject_fatal;
  blocked_countries = [];
}

abbrev pub country_def : RuleDef
country_def = record {
  id = codes "R2_JURISDICTION";
  rule_type = jurisdiction_block;
  action = reject_fatal;
  blocked_countries = codes "IR" ∷ codes "KP" ∷ codes "CU" ∷ [];
}

abbrev pub cap_def : RuleDef
cap_def = record {
  id = codes "R3_KYC_CAP";
  rule_type = kyc_tier_tx_cap;
  action = hold_auto;
  blocked_countries = [];
}

abbrev pub volume_def : RuleDef
volume_def = record {
  id = codes "R4_DAILY_VOLUME";
  rule_type = daily_usd_volume;
  action = hold_auto;
  blocked_countries = [];
}

abbrev pub small_def : RuleDef
small_def = record {
  id = codes "R5_STRUCTURING";
  rule_type = structuring_small_tx;
  action = review;
  blocked_countries = [];
}

abbrev pub policy : Policy plain
policy = record {
  version = codes "v1.0.0";
  params = record {
    kyc_tier_caps_usd = (codes "L0", 100) ∷ (codes "L1", 1000) ∷ (codes "L2", 10000) ∷ [];
    daily_volume_limit_usd = some 50000;
    structuring_small_usd = some 2000;
    structuring_small_count = some 5;
  };
  rules = ofac_def ∷ country_def ∷ cap_def ∷ volume_def ∷ small_def ∷ [];
  signature = [];
}

abbrev pub sanctions : List Text
sanctions = codes "0xdead" ∷ codes "0x1234" ∷ []

abbrev pub rules : RuleSet plain (MockStorage plain)
rules = from_policy plain policy sanctions

abbrev pub store : MockStorage plain
store = Mock.new plain

abbrev pub ambient : Ambient plain
ambient = record { now = 7; event_uuid = 100; elapsed_ms = 3 }

abbrev pub to_value : DecisionRequest plain → Option Text
to_value req = some req.subject.user_id

abbrev pub subject_of : (country address tier : Text) → SubjectRequest
subject_of country address tier = record {
  user_id = codes "u1";
  account_id = codes "a1";
  addresses = codes "0xbeef" ∷ address ∷ [];
  geo_iso = country;
  kyc_tier = tier;
}

abbrev pub withdrawal : SubjectRequest → Option ℕ → DecisionRequest plain
withdrawal subject usd_value = record {
  subject = subject;
  tx = record {
    tx_type = codes "Withdrawal";
    asset = codes "USDC";
    amount = codes "60000";
    usd_value = usd_value;
    dest_address = none;
  };
  context = codes "null";
}

-- A request over the cap of its tier and over the daily limit.
abbrev pub large : DecisionRequest plain
large = withdrawal (subject_of (codes "us") (codes "0xcafe") (codes "L2")) (some 60000)

-- One with a sanctioned address, in upper case.
abbrev pub listed_address : DecisionRequest plain
listed_address = withdrawal (subject_of (codes "us") (codes "0xDEAD") (codes "l1")) (some 50)

-- One from a blocked country.
abbrev pub from_iran : DecisionRequest plain
from_iran = withdrawal (subject_of (codes "ir") (codes "0xcafe") (codes "L2")) (some 50)

-- One whose value is not finite.
abbrev pub not_finite : DecisionRequest plain
not_finite = withdrawal (subject_of (codes "us") (codes "0xcafe") (codes "L0")) none

-- The answer and the storage after it, where the handler does not crash.
abbrev pub answer_or :
    Outcome (HttpResponse plain × MockStorage plain) → HttpResponse plain × MockStorage plain
answer_or (done r) = r
answer_or panic = (record { status = ok_200; body = Response.new plain allow [] [] }, store)
