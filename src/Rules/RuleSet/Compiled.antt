-- ===== src/Rules/RuleSet/Compiled.antt =====
-- Which rules a policy compiles to, in which order.
use mathlib.Core.List.{append_assoc, append-nil, map-append}
use riskr_rs.Base.{
  ◌≡◌, refl, sym, ◌∙◌, Bool, true, false, ◌&&◌, Option, none, some, List, [], ◌∷◌, ◌++◌, map, Text,
  keep_if, arith, Bool-cases, inl, inr, if◌then◌else◌, ℕ,
}
use riskr_rs.Crates.{Crates}
use riskr_rs.Rules.Ofac
use riskr_rs.Rules.Jurisdiction
use riskr_rs.Domain.Policy.{
  Policy, RuleDef, RuleType, RuleParams, ofac_addr, jurisdiction_block, kyc_tier_tx_cap,
  daily_usd_volume, structuring_small_tx, is_inline, is_inline_type,
}
use riskr_rs.Rules.RuleSet.{
  RuleSet, push_daily, push_structuring, add_typed, add_rules, from_policy,
}

abbrev pub is_some {ℓ} : {A : Type ℓ} → Option A → Bool
is_some none = false
is_some (some a) = true

module _ (X : Crates) {S : Type 0} where
  abbrev pub inline_ids : RuleSet X S → List Text
  inline_ids set = map (λ r. r.id) set.inline

  abbrev pub streaming_ids : RuleSet X S → List Text
  streaming_ids set = map (λ r. r.id) set.streaming

abbrev pub ids : List RuleDef → List Text
ids defs = map (λ d. d.id) defs

append_step :
    (base new rest : List Text) {out mid all : List Text}
    → out ≡ mid ++ rest
    → mid ≡ base ++ new
    → new ++ rest ≡ all
    → out ≡ base ++ all
append_step base new rest p q r = cc (append_assoc base new rest)

ids-keep_if :
    (p : RuleDef → Bool) (def : RuleDef) (defs : List RuleDef)
    → (if p def then def.id ∷ [] else []) ++ ids (keep_if p defs) ≡ ids (keep_if p (def ∷ defs))
ids-keep_if p def defs = elim (Bool-cases (p def)) [ inl y ↦ rw y | inr n ↦ rw n ]

policy_version-add_typed :
    (X : Crates) (params : RuleParams X) {S : Type 0} (sanctions : List Text) (def : RuleDef)
    (t : RuleType) (set : RuleSet X S)
    → (add_typed X params sanctions def t set).policy_version ≡ set.policy_version
unfolding add_typed
policy_version-add_typed X params sanctions def t set = ground arith

module _ (X : Crates) (params : RuleParams X) where
  -- The parameters that a streaming rule of this type needs are configured.
  abbrev pub is_configured_type : RuleType → Bool
  is_configured_type daily_usd_volume = is_some params.daily_volume_limit_usd
  is_configured_type structuring_small_tx =
      is_some params.structuring_small_usd && is_some params.structuring_small_count
  is_configured_type _ = false

  abbrev pub is_configured : RuleDef → Bool
  is_configured def = is_configured_type def.rule_type

  module _ {S : Type 0} (sanctions : List Text) where
    inline_ids-add_typed :
        (def : RuleDef) (t : RuleType) (set : RuleSet X S)
        → inline_ids X (add_typed X params sanctions def t set)
          ≡ inline_ids X set ++ (if is_inline_type t then def.id ∷ [] else [])
    unfolding add_typed Ofac.new Jurisdiction.new
    inline_ids-add_typed def ofac_addr set = rw map-append
    inline_ids-add_typed def jurisdiction_block set = rw map-append
    inline_ids-add_typed def kyc_tier_tx_cap set = rw map-append
    inline_ids-add_typed def daily_usd_volume set =
        inline_ids-push_daily params.daily_volume_limit_usd
      where
        inline_ids-push_daily :
            (limit : Option X.Decimal)
            → inline_ids X (push_daily X def limit set) ≡ inline_ids X set ++ []
        inline_ids-push_daily none = sym (append-nil _)
        inline_ids-push_daily (some _) = sym (append-nil _)
    inline_ids-add_typed def structuring_small_tx set =
        inline_ids-push_structuring params.structuring_small_usd params.structuring_small_count
      where
        inline_ids-push_structuring :
            (threshold : Option X.Decimal) (count : Option ℕ)
            → inline_ids X (push_structuring X def threshold count set) ≡ inline_ids X set ++ []
        inline_ids-push_structuring none count = sym (append-nil _)
        inline_ids-push_structuring (some _) none = sym (append-nil _)
        inline_ids-push_structuring (some _) (some _) = sym (append-nil _)

    streaming_ids-push_daily :
        (def : RuleDef) (limit : Option X.Decimal) (set : RuleSet X S)
        → streaming_ids X (push_daily X def limit set)
          ≡ streaming_ids X set ++ (if is_some limit then def.id ∷ [] else [])
    unfolding push_daily
    streaming_ids-push_daily def none set = sym (append-nil _)
    streaming_ids-push_daily def (some _) set = rw map-append

    streaming_ids-push_structuring :
        (def : RuleDef) (threshold : Option X.Decimal) (count : Option ℕ) (set : RuleSet X S)
        → streaming_ids X (push_structuring X def threshold count set)
          ≡ streaming_ids X set ++ (if is_some threshold && is_some count then def.id ∷ [] else [])
    unfolding push_structuring
    streaming_ids-push_structuring def none count set = sym (append-nil _)
    streaming_ids-push_structuring def (some _) none set = sym (append-nil _)
    streaming_ids-push_structuring def (some _) (some _) set = rw map-append

    streaming_ids-add_typed :
        (def : RuleDef) (t : RuleType) (set : RuleSet X S)
        → streaming_ids X (add_typed X params sanctions def t set)
          ≡ streaming_ids X set ++ (if is_configured_type t then def.id ∷ [] else [])
    unfolding add_typed
    streaming_ids-add_typed def ofac_addr set = sym (append-nil _)
    streaming_ids-add_typed def jurisdiction_block set = sym (append-nil _)
    streaming_ids-add_typed def kyc_tier_tx_cap set = sym (append-nil _)
    streaming_ids-add_typed def daily_usd_volume set = streaming_ids-push_daily def _ set
    streaming_ids-add_typed def structuring_small_tx set =
        streaming_ids-push_structuring def _ _ set

    inline_ids-add_rules :
        (defs : List RuleDef) (set : RuleSet X S)
        → inline_ids X (add_rules X params sanctions defs set)
          ≡ inline_ids X set ++ ids (keep_if (λ d. is_inline_type d.rule_type) defs)
    unfolding add_rules
    inline_ids-add_rules [] set = sym (append-nil _)
    inline_ids-add_rules (def ∷ defs) set =
        append_step (inline_ids X set) (if is_inline_type def.rule_type then def.id ∷ [] else [])
          (ids (keep_if (λ d. is_inline_type d.rule_type) defs))
          (inline_ids-add_rules defs (add_typed X params sanctions def def.rule_type set))
          (inline_ids-add_typed def def.rule_type set)
          (ids-keep_if (λ d. is_inline_type d.rule_type) def defs)

    streaming_ids-add_rules :
        (defs : List RuleDef) (set : RuleSet X S)
        → streaming_ids X (add_rules X params sanctions defs set)
          ≡ streaming_ids X set ++ ids (keep_if is_configured defs)
    unfolding add_rules
    streaming_ids-add_rules [] set = sym (append-nil _)
    streaming_ids-add_rules (def ∷ defs) set =
        append_step (streaming_ids X set) (if is_configured def then def.id ∷ [] else [])
          (ids (keep_if is_configured defs))
          (streaming_ids-add_rules defs (add_typed X params sanctions def def.rule_type set))
          (streaming_ids-add_typed def def.rule_type set) (ids-keep_if is_configured def defs)

    policy_version-add_rules :
        (defs : List RuleDef) (set : RuleSet X S)
        → (add_rules X params sanctions defs set).policy_version ≡ set.policy_version
    unfolding add_rules
    policy_version-add_rules [] set = refl
    policy_version-add_rules (def ∷ defs) set =
        policy_version-add_rules defs (add_typed X params sanctions def def.rule_type set)
        ∙ policy_version-add_typed X params sanctions def def.rule_type set

-- By their identifiers, a policy compiles to its inline rules and to those of its streaming rules whose parameters are
-- configured, each in the order of the policy, under the policy's version.
pub from_policy-ids :
    (X : Crates) (S : Type 0) (policy : Policy X) (sanctions : List Text)
    → (inline_ids X (from_policy X {S = S} policy sanctions) ≡ ids (keep_if is_inline policy.rules))
      × (streaming_ids X (from_policy X {S = S} policy sanctions)
          ≡ ids (keep_if (is_configured X policy.params) policy.rules))
      × ((from_policy X {S = S} policy sanctions).policy_version ≡ policy.version)
unfolding from_policy is_inline
from_policy-ids X S policy sanctions = (
  inline_ids-add_rules X policy.params sanctions policy.rules _,
  streaming_ids-add_rules X policy.params sanctions policy.rules _,
  policy_version-add_rules X policy.params sanctions policy.rules _,
)
