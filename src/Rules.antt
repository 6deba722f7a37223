-- ===== src/Rules.antt =====
-- src/rules: the rules and the rule set.
pub mod Traits
pub mod Ofac
pub mod Jurisdiction
pub mod KycCap
pub mod DailyVolume
pub mod Structuring
pub mod RuleSet
