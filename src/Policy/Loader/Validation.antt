-- ===== src/Policy/Loader/Validation.antt =====
-- Which policies are valid, and what is said of the others.
use riskr_rs.Base.{
  ◌⊎◌, sym, subst, In-of-set_insert, In-set_insert_self, In-set_insert_of_In, not-In-of-contains,
  ◌≡◌, ◌≢◌, true, false, List, [], ◌∷◌, ◌++◌, is_empty, Text, text_eq, contains, contains_iff,
  set_insert, In, here, there, Distinct, Bool-cases, inl, inr, refl, All, All-map, ap,
}
use riskr_rs.Crates.{Crates}
use riskr_rs.Domain.Policy.{Policy, RuleDef}
use riskr_rs.Rules.RuleSet.Compiled.{ids}
use riskr_rs.Policy.Loader.{
  Loaded, loaded, refused, duplicate, empty_version, check_ids, validate_policy,
}

abbrev Unseen : List Text → List RuleDef → Type 0
Unseen seen defs = All (λ (d : RuleDef). ¬ In d.id seen) defs

Unseen-of-set_insert :
    (a : Text) (seen : List Text) (defs : List RuleDef)
    → Unseen (set_insert a seen) defs
    → Unseen seen defs
Unseen-of-set_insert a seen defs = All-map (λ d new m. new (In-set_insert_of_In a d.id seen m)) defs

not-In-ids :
    (a : Text) (seen : List Text) (defs : List RuleDef)
    → In a seen
    → Unseen seen defs
    → ¬ In a (ids defs)
not-In-ids a seen [] m u h = elim h [ ]
not-In-ids a seen (d ∷ defs) m u (here e) = u.0 (subst (λ x. In x seen) (sym e) m)
not-In-ids a seen (d ∷ defs) m u (there h) = not-In-ids a seen defs m u.1 h

-- What the loop over the rules may find, `seen` standing for the identifiers before them.
data Checked (seen : List Text) (defs : List RuleDef) (r : Loaded Unit) : Type 0 where
  unique : Distinct (ids defs) → Unseen seen defs → r ≡ loaded tt → Checked seen defs r
  repeated :
      (before rest : List RuleDef) (def : RuleDef)
      → defs ≡ before ++ def ∷ rest
      → Distinct (ids before)
      → Unseen seen before
      → In def.id seen ⊎ In def.id (ids before)
      → r ≡ refused (duplicate def.id)
      → Checked seen defs r

step_back :
    {a b : Text} {seen l : List Text} → In b (set_insert a seen) ⊎ In b l → In b seen ⊎ In b (a ∷ l)
step_back {a} {b} {seen} (inl m) = elim (In-of-set_insert a b seen m) [
  | inl e ↦ inr (here e)
  | inr h ↦ inl h
]
step_back (inr m) = inr (there m)

Checked-cons :
    (seen : List Text) (def : RuleDef) {defs : List RuleDef} {r : Loaded Unit}
    → ¬ In def.id seen
    → Checked (set_insert def.id seen) defs r
    → Checked seen (def ∷ defs) r
Checked-cons seen def {defs} new (unique d u e) =
    unique (Distinct.cons (not-In-ids def.id _ defs (In-set_insert_self def.id seen) u) d)
      (new, Unseen-of-set_insert def.id seen defs u) e
Checked-cons seen def new (repeated before rest dup split d u old e) =
    repeated (def ∷ before) rest dup (ap (λ l. def ∷ l) split)
      (Distinct.cons (not-In-ids def.id _ before (In-set_insert_self def.id seen) u) d)
      (new, Unseen-of-set_insert def.id seen before u) (step_back old) e

check_ids-Checked :
    (seen : List Text) (defs : List RuleDef) → Checked seen defs (check_ids seen defs)
unfolding check_ids
check_ids-Checked seen [] = unique Distinct.nil tt refl
check_ids-Checked seen (def ∷ defs) = elim (Bool-cases (contains seen def.id)) [
  | inl old ↦
      repeated [] defs def refl Distinct.nil tt (inl ((contains_iff seen def.id).0 old)) (rw old)
  | inr new ↦ rw new (
      Checked-cons seen def (not-In-of-contains seen def.id new)
        (check_ids-Checked (set_insert def.id seen) defs))
]

module _ (X : Crates) where
  -- What validation may say of a policy: that its version is empty; which rule is the first whose
  -- identifier an earlier rule has; or that the version is there and no identifier is repeated.
  pub data Validated (policy : Policy X) (r : Loaded Unit) : Type 0 where
    no_version : policy.version ≡ [] → r ≡ refused empty_version → Validated policy r
    repeated_id :
        (before rest : List RuleDef) (def : RuleDef)
        → policy.rules ≡ before ++ def ∷ rest
        → Distinct (ids before)
        → In def.id (ids before)
        → r ≡ refused (duplicate def.id)
        → Validated policy r
    valid : policy.version ≢ [] → Distinct (ids policy.rules) → r ≡ loaded tt → Validated policy r

  Validated-of-Checked :
      (policy : Policy X) {r : Loaded Unit}
      → policy.version ≢ []
      → Checked [] policy.rules r
      → Validated policy r
  Validated-of-Checked policy v (unique d u e) = valid v d e
  Validated-of-Checked policy v (repeated before rest def split d u (inl m) e) = elim m [ ]
  Validated-of-Checked policy v (repeated before rest def split d u (inr m) e) =
      repeated_id before rest def split d m e

  is_empty-cases : (s : Text) → (is_empty s ≡ true) × (s ≡ []) ⊎ (is_empty s ≡ false) × (s ≢ [])
  is_empty-cases [] = inl (refl, refl)
  is_empty-cases (c ∷ s) = inr (refl, λ e. cc)

  -- Validation refuses a policy whose version is empty; it refuses one whose rules repeat an
  -- identifier, naming the first rule that repeats one; and it accepts a policy that has a version
  -- and whose identifiers all differ. It says nothing else.
  pub validate_policy-Validated : (policy : Policy X) → Validated policy (validate_policy X policy)
  unfolding validate_policy
  validate_policy-Validated policy = elim (is_empty-cases policy.version) [
    | inl (empty, e) ↦ no_version e (rw empty)
    | inr (filled, n) ↦
        rw filled (Validated-of-Checked policy n (check_ids-Checked [] policy.rules))
  ]
