-- ===== src/Config/Given.antt =====
-- A number that is given to src/config/mod.rs arrives.
use riskr_rs.Base.{
  lt-of_ltb, le-of_ltb, ℕ, zero, suc, ◌+◌, ◌*◌, ◌/◌, ◌%◌, ◌^◌, ◌<◌, ◌≤◌, ◌≡◌, refl, sym, ap, ◌∙◌,
  inl, inr, Bool-cases, some, none, Option, [], ◌∷◌, Text, codes, ltb, nat_beq, nat_beq_iff,
  decimal_digits, digits_onto, arith,
}
use riskr_rs.Config.{
  Config, Clap, parse, parse_unsigned, unsigned, within_bits, without_sign, digits_value,
  policy_reload_interval, u64, ◌>>=◌,
}

digits_value-digit :
    (m n : ℕ) (s : Text) → digits_value m ((b'0' + n % 10) ∷ s) ≡ digits_value (m * 10 + n % 10) s
unfolding digits_value
digits_value-digit m n s = ground arith

digits_value-digits_onto :
    (fuel n : ℕ) (s : Text) → n < fuel → digits_value 0 (digits_onto fuel n s) ≡ digits_value n s
unfolding digits_onto
digits_value-digits_onto zero n s h = absurd (omega arith)
digits_value-digits_onto (suc fuel) n s h = elim (Bool-cases (ltb n 10)) [
  | inl y ↦
      rw y (digits_value-digit 0 n s ∙ ap (λ k. digits_value k s) (omega (arith, lt-of_ltb n 10 y)))
  | inr big ↦ rw big (
      digits_value-digits_onto fuel (n / 10) ((b'0' + n % 10) ∷ s)
        (omega (arith, le-of_ltb n 10 big))
      ∙ digits_value-digit (n / 10) n s
      ∙ ap (λ k. digits_value k s) (omega arith))
]

-- Text that begins with a digit.
IsNumeral : Text → Type 0
IsNumeral s = (c : ℕ) × (rest : Text) × (s ≡ c ∷ rest) × (b'0' ≤ c)

digits_onto-IsNumeral :
    (fuel n : ℕ) (c : ℕ) (s : Text) → b'0' ≤ c → IsNumeral (digits_onto fuel n (c ∷ s))
unfolding digits_onto IsNumeral
digits_onto-IsNumeral zero n c s h = (c, s, refl, h)
digits_onto-IsNumeral (suc fuel) n c s h = elim (Bool-cases (ltb n 10)) [
  | inl y ↦ rw y (_, _, refl, omega arith)
  | inr big ↦ rw big (digits_onto-IsNumeral fuel (n / 10) (b'0' + n % 10) (c ∷ s) (omega arith))
]

decimal_digits-IsNumeral : (n : ℕ) → IsNumeral (decimal_digits n)
unfolding decimal_digits digits_onto IsNumeral
decimal_digits-IsNumeral n = elim (Bool-cases (ltb n 10)) [
  | inl y ↦ rw y (_, _, refl, omega arith)
  | inr big ↦ rw big (digits_onto-IsNumeral n (n / 10) (b'0' + n % 10) [] (omega arith))
]

unsigned-other :
    (c : ℕ) (rest : Text)
    → b'0' ≤ c
    → unsigned (without_sign (c ∷ rest)) ≡ digits_value 0 (c ∷ rest)
unfolding unsigned without_sign
unsigned-other c rest h = elim (Bool-cases (nat_beq c b'+')) [
  | inl y ↦ absurd (omega (arith, (nat_beq_iff c b'+').0 y))
  | inr other ↦ rw other refl
]

unsigned-numeral : (s : Text) → IsNumeral s → unsigned (without_sign s) ≡ digits_value 0 s
unfolding IsNumeral unsigned without_sign
unsigned-numeral s (c, rest, e, h) = rw e (unsigned-other c rest h)

within_bits-lt : (bits n : ℕ) → n < 2 ^ bits → within_bits bits (some n) ≡ some n
unfolding within_bits
within_bits-lt bits n h = ground arith

parse_unsigned-decimal_digits :
    (bits n : ℕ) → n < 2 ^ bits → parse_unsigned bits (decimal_digits n) ≡ some n
unfolding parse_unsigned decimal_digits digits_value
parse_unsigned-decimal_digits bits n h =
    ap (within_bits bits) (
      unsigned-numeral (decimal_digits n) (decimal_digits-IsNumeral n)
      ∙ digits_value-digits_onto (suc n) n [] (omega arith))
    ∙ within_bits-lt bits n h

-- What every outcome of a partial computation satisfies.
abbrev Yields : (Config → Type 0) → Option Config → Type 0
Yields P o = (c : Config) → o ≡ some c → P c

Yields-some :
    {A : Type 0} (P : Config → Type 0) (a : A) (o : Option A) (f : A → Option Config)
    → o ≡ some a
    → Yields P (f a)
    → Yields P (o >>= f)
unfolding ◌>>=◌
Yields-some P a o f e h c p = h c (rw e at p)

Yields-bind :
    {A : Type 0} (P : Config → Type 0) (o : Option A) (f : A → Option Config)
    → ((a : A) → Yields P (f a))
    → Yields P (o >>= f)
unfolding ◌>>=◌
Yields-bind P none f h c e = cc
Yields-bind P (some a) f h c e = h a c e

abbrev reload_secs_or : ℕ → Option Config → ℕ
reload_secs_or n none = n
reload_secs_or n (some config) = config.policy_reload_secs

abbrev Reloads : ℕ → Config → Type 0
Reloads n c = c.policy_reload_secs ≡ n

-- A number of seconds of 64 bits that is given for the interval of the reloads, in decimal digits, is
-- the interval of the configuration, if there is one.
pub parse-policy_reload_interval :
    (clap : Clap) (config : Config) (n : ℕ)
    → n < 2 ^ 64
    → clap.given (codes "policy-reload-secs") (codes "RISKR_POLICY_RELOAD_SECS")
      ≡ some (decimal_digits n)
    → parse clap ≡ some config
    → policy_reload_interval config ≡ n
unfolding parse policy_reload_interval
parse-policy_reload_interval clap config n h given parsed =
    let secs : u64 clap (codes "policy-reload-secs") (codes "RISKR_POLICY_RELOAD_SECS") (codes "30")
        ≡ some n =
      rw given (parse_unsigned-decimal_digits 64 n h) in
    Yields-some (Reloads n) n _ _ secs
      (Yields-bind (Reloads n) _ _ (λ latency. Yields-bind (Reloads n) _ _ (λ entries.
        Yields-bind (Reloads n) _ _ (λ stripes. Yields-bind (Reloads n) _ _ (λ idle.
          Yields-bind (Reloads n) _ _ (λ graceful. Yields-bind (Reloads n) _ _ (λ timeout.
            Yields-bind (Reloads n) _ _ (λ pool_min. Yields-bind (Reloads n) _ _ (λ pool_max.
              Yields-bind (Reloads n) _ _ (λ migrations c e. ap (reload_secs_or n) (sym e)))))))))))
      config parsed
