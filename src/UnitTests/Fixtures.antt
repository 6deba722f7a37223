-- ===== src/UnitTests/Fixtures.antt =====
-- What the unit tests share: the event that they evaluate, and what they ask of a result.
use riskr_rs.Base.{
  ℕ, Bool, true, false, ◌&&◌, Option, none, some, List, [], ◌∷◌, Text, text_eq, ◌==◌, codes,
  nat_beq, decimal_digits, Result, ok, err, Outcome, done, panic,
}
use riskr_rs.Domain.Decision.{Decision, severity}
use riskr_rs.Domain.Evidence.{Evidence, RuleResult}
use riskr_rs.Domain.Event.{TxEvent, outbound, inline_chain, schema_version_v1}
use riskr_rs.Domain.Subject.{KycTier, l1, Address, new_address, new_country_code}
use riskr_rs.Examples.Samples.{plain}

-- The test events differ in the subject's addresses, country and tier, and in the value.
unfoldable pub test_event : List Address → Text → KycTier → ℕ → TxEvent plain
unfolding new_country_code
test_event addresses country tier usd_value = record {
  schema_version = schema_version_v1;
  event_id = record { value = codes "e1" };
  occurred_at = 7;
  observed_at = 7;
  subject = record {
    user_id = record { value = codes "U1" };
    account_id = record { value = codes "A1" };
    addresses = addresses;
    geo_iso = new_country_code country;
    kyc_tier = tier;
  };
  chain = inline_chain;
  tx_hash = [];
  direction = outbound;
  asset = record { value = codes "USDC" };
  amount = decimal_digits usd_value;
  usd_value = usd_value;
  confirmations = 0;
  max_finality_depth = 0;
}

unfoldable pub one_address : List Address
unfolding new_address
one_address = new_address (codes "0xabc") ∷ []

-- The event of the streaming rules' tests.
abbrev pub value_event : ℕ → TxEvent plain
value_event usd_value = test_event one_address (codes "US") l1 usd_value

-- `assert_eq!` on decisions and on optional texts.
unfoldable pub is_decision : Decision → Decision → Bool
unfolding severity
is_decision a b = nat_beq (severity a) (severity b)

abbrev pub is_some : Option Text → Text → Bool
is_some none t = false
is_some (some s) t = s == t

-- `evidence.unwrap()`
abbrev pub evidence_of : (Evidence → Bool) → RuleResult → Bool
evidence_of holds r = elim r.evidence [ none ↦ false | some e ↦ holds e ]

-- `.await.unwrap()` on what a streaming rule answers.
abbrev pub unwrapped : {A S : Type 0} → (A → Bool) → Outcome (Result A × S) → Bool
unwrapped holds (done (ok a, s)) = holds a
unwrapped holds (done (err message, s)) = false
unwrapped holds panic = false

-- Every assertion of a test, or every test of a file.
abbrev pub all_hold : List Bool → Bool
all_hold [] = true
all_hold (b ∷ bs) = b && all_hold bs
