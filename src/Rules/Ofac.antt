-- ===== src/Rules/Ofac.antt =====
-- src/rules/inline/ofac.rs: sanctions screening by a bloom filter before a hash set.
pub mod Screening
use Prim.Native.Nat
use mathlib.Core.List.{foldl}
use riskr_rs.Base.{
  Bool, true, false, not, List, [], ◌∷◌, map, length, Text, codes, text_eq, to_lowercase, contains,
  collect_set, if◌then◌else◌,
}
use riskr_rs.Crates.{Crates}
use riskr_rs.Domain.Decision.{Decision}
use riskr_rs.Domain.Evidence
use riskr_rs.Domain.Evidence.{RuleResult, pass, trigger}
use riskr_rs.Domain.Subject.{Address}
use riskr_rs.Domain.Event.{TxEvent}
use riskr_rs.Rules.Traits.{InlineRule}

pub record OfacRule (X : Crates) : Type 0 where
  pub id : Text
  pub action : Decision
  pub bloom : X.Bloom
  pub addresses : List Text

module _ (X : Crates) where
  -- `for addr in &normalized { bloom.set(addr); }`
  abbrev pub set_all : X.Bloom → List Text → X.Bloom
  set_all bloom [] = bloom
  set_all bloom (addr ∷ rest) = set_all (X.bloom_set bloom addr) rest

  unfoldable pub new : Text → Decision → List Text → OfacRule X
  new id action sanctions =
      let item_count = Nat.max (length sanctions) 100 in
      let normalized = collect_set (map to_lowercase sanctions) in
      record {
        id = id;
        action = action;
        bloom = set_all (X.new_for_fp_rate item_count) normalized;
        addresses = normalized;
      }

  unfoldable pub is_sanctioned : OfacRule X → Text → Bool
  is_sanctioned rule addr =
      let normalized = to_lowercase addr in
      if not (X.bloom_check rule.bloom normalized)
      then false
      else contains rule.addresses normalized

  -- The loop over the addresses returns at the first that is sanctioned.
  screen : OfacRule X → List Address → RuleResult
  unfolding is_sanctioned pass trigger Evidence.new
  screen rule [] = pass
  screen rule (addr ∷ rest) =
      if is_sanctioned rule addr.value
      then trigger rule.action (Evidence.new rule.id (codes "address") addr.value)
      else screen rule rest

  unfoldable pub evaluate : OfacRule X → TxEvent X → RuleResult
  unfolding screen
  evaluate rule event = screen rule event.subject.addresses

  -- `impl InlineRule for OfacRule`
  abbrev pub as_inline : OfacRule X → InlineRule X
  as_inline rule = record { id = rule.id; evaluate = evaluate rule }
