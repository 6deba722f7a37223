-- ===== src/Policy/Loader.antt =====
-- src/policy/loader.rs: the policy file and the sanctions file. `Files` is what the file system
-- answers at one moment, and `parse_yaml` is `serde_yaml::from_str` at the type of policies.
pub mod Validation
pub mod Sanctions
use riskr_rs.Base.{
  Bool, true, false, Option, none, some, List, [], ◌∷◌, ◌++◌, is_empty, ◌||◌, Text, codes, text_eq,
  trim, starts_with, to_lowercase, lines, contains, set_insert, Result, ok, err, if◌then◌else◌,
}
use riskr_rs.Crates.{Crates}
use riskr_rs.Domain.Policy.{Policy, RuleDef}
use riskr_rs.Rules.RuleSet.{RuleSet, from_policy}

pub data PolicyError : Type 0 where
  io : (message : Text) → PolicyError
  yaml : (message : Text) → PolicyError
  validation : (message : Text) → PolicyError

-- `Display`, from the `#[error]` attributes.
unfoldable pub display : PolicyError → Text
display (io message) = codes "IO error: " ++ message
display (yaml message) = codes "YAML parsing error: " ++ message
display (validation message) = codes "Validation error: " ++ message

pub data Loaded (A : Type 0) : Type 0 where
  loaded : A → Loaded A
  refused : PolicyError → Loaded A

infixl 5 ◌>>=◌ ◌>>◌
abbrev pub ◌>>=◌ : {A B : Type 0} → Loaded A → (A → Loaded B) → Loaded B
loaded a >>= f = f a
refused e >>= f = refused e

abbrev pub ◌>>◌ : {B : Type 0} → Loaded (Unit {0}) → Loaded B → Loaded B
m >> k = m >>= λ _. k

-- `fs::read_to_string` at a path.
abbrev pub Files : Type 0
Files = Text → Result Text

-- `?` on the errors of `std::io` and of `serde_yaml`.
abbrev pub or_io : {A : Type 0} → Result A → Loaded A
or_io (ok a) = loaded a
or_io (err message) = refused (io message)

abbrev pub or_yaml : {A : Type 0} → Result A → Loaded A
or_yaml (ok a) = loaded a
or_yaml (err message) = refused (yaml message)

abbrev pub duplicate : Text → PolicyError
duplicate id = validation (codes "Duplicate rule ID: " ++ id)

abbrev pub empty_version : PolicyError
empty_version = validation (codes "Policy version cannot be empty")

-- The loop over the rules with the set of the identifiers seen so far.
unfoldable pub check_ids : List Text → List RuleDef → Loaded Unit
check_ids seen_ids [] = loaded tt
check_ids seen_ids (rule ∷ rules) =
    let rest = check_ids (set_insert rule.id seen_ids) rules in
    if contains seen_ids rule.id then refused (duplicate rule.id) else rest

-- The loop over the lines of the sanctions file.
abbrev insert_line : Text → List Text → List Text
insert_line line sanctions =
    if is_empty line || starts_with line (codes "#")
    then sanctions
    else set_insert (to_lowercase line) sanctions

insert_lines : List Text → List Text → List Text
insert_lines [] sanctions = sanctions
insert_lines (line ∷ rest) sanctions = insert_lines rest (insert_line (trim line) sanctions)

unfoldable pub parse_sanctions : Text → List Text
unfolding insert_lines
parse_sanctions content = insert_lines (lines content) []

unfoldable pub load_sanctions : Files → Text → Loaded (List Text)
load_sanctions files path = do content ← or_io (files path); loaded (parse_sanctions content)

pub record PolicyLoader : Type 0 where
  pub policy_path : Text
  pub sanctions_path : Text

unfoldable pub validate_policy : (X : Crates) → Policy X → Loaded Unit
unfolding check_ids
validate_policy X policy =
    if is_empty policy.version then refused empty_version else check_ids [] policy.rules

module _ (X : Crates) (parse_yaml : Text → Result (Policy X)) where
  unfoldable pub load_policy : Files → Text → Loaded (Policy X)
  unfolding validate_policy
  load_policy files path = do
    content ← or_io (files path)
    policy ← or_yaml (parse_yaml content)
    validate_policy X policy
    loaded policy

  module _ {S : Type 0} where
    -- The two files are read one after the other.
    unfoldable pub load :
        PolicyLoader → (policy_files sanctions_files : Files) → Loaded (Policy X × RuleSet X S)
    load loader policy_files sanctions_files = do
      policy ← load_policy policy_files loader.policy_path
      sanctions ← load_sanctions sanctions_files loader.sanctions_path
      loaded (policy, from_policy X policy sanctions)
