-- ===== src/Crates.antt =====
-- What the program takes from its dependencies (Cargo.toml): types and operations that are
-- parameters of the model. Each operation is named for the function that the program calls.
use riskr_rs.Base.{ℕ, Bool, true, false, ◌≡◌, Option, Text, Eq}

pub record Crates : Type 1 where
  -- rust_decimal
  pub Decimal : Type 0
  pub decimal_zero : Decimal
  pub decimal_lt : Decimal → Decimal → Bool
  -- `a + b`; `none` is the panic on overflow
  pub decimal_add : Decimal → Decimal → Option Decimal
  pub decimal_to_string : Decimal → Text
  pub parse_decimal : Text → Option Decimal
  -- an `f64`, and `Decimal::from_f64_retain`
  pub F64 : Type 0
  pub from_f64_retain : F64 → Option Decimal
  -- uuid
  pub Uuid : Type 0
  pub uuid_eq : Eq Uuid
  pub uuid_to_string : Uuid → Text
  -- the n-th identifier that `Uuid::new_v4` draws
  pub new_v4 : ℕ → Uuid
  -- chrono
  pub DateTime : Type 0
  -- bloomfilter: `Bloom::new_for_fp_rate` at the rate 0.01, `set`, `check`
  pub Bloom : Type 0
  pub new_for_fp_rate : ℕ → Bloom
  pub bloom_set : Bloom → Text → Bloom
  pub bloom_check : Bloom → Text → Bool
  -- serde_json
  pub Json : Type 0
  pub json_null : Json

-- A bloom filter has no false negatives: what was added is found, and stays found.
pub record BloomLaws (X : Crates) : Type 0 where
  pub check-set_self : (b : X.Bloom) (a : Text) → X.bloom_check (X.bloom_set b a) a ≡ true
  pub check-set_of_check :
      (b : X.Bloom) (a c : Text)
      → X.bloom_check b c ≡ true
      → X.bloom_check (X.bloom_set b a) c ≡ true

-- `<` on decimals is a strict order.
pub record DecimalLaws (X : Crates) : Type 0 where
  pub lt_irrefl : (a : X.Decimal) → X.decimal_lt a a ≡ false
  pub lt_trans :
      (a b c : X.Decimal)
      → X.decimal_lt a b ≡ true
      → X.decimal_lt b c ≡ true
      → X.decimal_lt a c ≡ true
