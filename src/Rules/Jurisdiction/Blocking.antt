-- ===== src/Rules/Jurisdiction/Blocking.antt =====
-- Which countries are blocked.
use riskr_rs.Base.{
  ◌≡◌, ◌↔◌, true, List, map, Text, text_eq, to_uppercase, contains_iff, contains-collect_set,
  collect_set, ◌∙◌, refl, ap, Any, Any-map, Any-of-map, In-of-Any, Any-of-In,
}
use riskr_rs.Crates.{Crates}
use riskr_rs.Domain.Decision.{Decision}
use riskr_rs.Domain.Event.{TxEvent}
use riskr_rs.Rules.Jurisdiction.{new, is_blocked, evaluate}

-- The code is among the blocked ones, up to case.
abbrev pub IsBlockedIn : List Text → Text → Type 0
IsBlockedIn countries code = Any (λ c. to_uppercase c ≡ to_uppercase code) countries

-- A rule blocks exactly the codes that it was given, up to case on both sides.
is_blocked_iff :
    (id : Text) (action : Decision) (countries : List Text) (code : Text)
    → (is_blocked (new id action countries) code ≡ true) ↔ IsBlockedIn countries code
unfolding is_blocked new
is_blocked_iff id action countries code = (
  λ h. Any-of-map to_uppercase countries ((contains_iff _ _).0 (rw contains-collect_set at h)),
  λ h. rw contains-collect_set ((contains_iff _ _).1 (Any-map to_uppercase countries h)),
)

-- A rule that is given upper-case codes blocks as one that is given the codes themselves.
IsBlockedIn-collect_set :
    (countries : List Text) (code : Text)
    → IsBlockedIn countries code
    → IsBlockedIn (collect_set (map to_uppercase countries)) (to_uppercase code)
IsBlockedIn-collect_set countries code h =
    let (c, m, e) = In-of-Any countries h in
    let upper = Any-map to_uppercase countries (Any-of-In c countries m refl) in
    let in_set = (contains_iff (collect_set (map to_uppercase countries)) (to_uppercase c)).0 (
      contains-collect_set (map to_uppercase countries) (to_uppercase c)
      ∙ (contains_iff (map to_uppercase countries) (to_uppercase c)).1 upper) in
    Any-of-In (to_uppercase c) _ in_set (ap to_uppercase e)

-- The rule as a policy compiles it hits with its action on every code that reads as one of the
-- policy's, up to case.
pub evaluate-blocked_hit :
    (X : Crates) (id : Text) (action : Decision) (countries : List Text) (event : TxEvent X)
    (code : Text)
    → event.subject.geo_iso.value ≡ to_uppercase code
    → IsBlockedIn countries code
    → let r = evaluate X (new id action (collect_set (map to_uppercase countries))) event in
      (r.hit ≡ true) × (r.decision ≡ action)
unfolding evaluate new
evaluate-blocked_hit X id action countries event code e h =
    let blocked =
      (is_blocked_iff id action (collect_set (map to_uppercase countries)) (to_uppercase code)).1
        (IsBlockedIn-collect_set countries code h) in
    rw e (rw blocked (refl, refl))
