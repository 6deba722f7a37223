-- ===== src/Policy/Watcher/Reloading.antt =====
-- What one check for updates does.
use riskr_rs.Base.{
  List, ℕ, ◌<◌, ◌≡◌, ◌≢◌, ◌⊎◌, inl, inr, refl, ap, ◌∙◌, Bool, true, false, Option, none, some, Text,
  text_eq, nat_beq, Result, arith, Bool-cases, text_beq_iff,
}
use riskr_rs.Crates.{Crates}
use riskr_rs.Domain.Policy.{Policy}
use riskr_rs.Rules.RuleSet.{RuleSet, from_policy}
use riskr_rs.Policy.Loader.{
  PolicyError, Loaded, loaded, refused, Files, load, load_policy, load_sanctions, ◌>>=◌,
}
use riskr_rs.Policy.Watcher.{PolicyWatcher, is_version, send, reload, check_for_updates}

Loaded-cases :
    {A : Type 0} (r : Loaded A) → ((a : A) × (r ≡ loaded a)) ⊎ ((e : PolicyError) × (r ≡ refused e))
Loaded-cases (loaded a) = inl (a, refl)
Loaded-cases (refused e) = inr (e, refl)

pos_ne_zero : (n : ℕ) → 0 < n → nat_beq n 0 ≡ false
pos_ne_zero n h = ground arith

is_version-eq : (o : Option Text) (v : Text) → is_version o v ≡ true → o ≡ some v
is_version-eq none v h = cc
is_version-eq (some u) v h = ap some ((text_beq_iff u v).0 h)

pub is_version_self : (o : Option Text) (v : Text) → o ≡ some v → is_version o v ≡ true
is_version_self none v h = cc
is_version_self (some u) v h = (text_beq_iff u v).1 (ground arith)

module _ (X : Crates) (parse_yaml : Text → Result (Policy X)) {S : Type 0} where
  -- A successful load read a policy and a sanctions list, and compiled them.
  pub load-eq-loaded :
      (a : Loaded (Policy X)) (b : Loaded (List Text)) (policy : Policy X) (rules : RuleSet X S)
      → ◌>>=◌ {B = Policy X × RuleSet X S} a
          (λ p. ◌>>=◌ {B = Policy X × RuleSet X S} b (λ l. loaded (p, from_policy X p l)))
        ≡ loaded (policy, rules)
      → (sanctions : List Text) × (a ≡ loaded policy)
        × (b ≡ loaded sanctions)
        × (rules ≡ from_policy X policy sanctions)
  load-eq-loaded (loaded p) (loaded l) policy rules h =
      (l, ground arith, refl, compiled l (ground arith) (ground arith))
    where
      compiled :
          (l : List Text) → p ≡ policy → from_policy X p l ≡ rules → rules ≡ from_policy X policy l
      compiled l e r = cc
  load-eq-loaded (loaded p) (refused e) policy rules h = cc
  load-eq-loaded (refused e) b policy rules h = cc

  module _ (first second third : Files) (w : PolicyWatcher X S) where
    abbrev peeked : Loaded (Policy X)
    peeked = load_policy X parse_yaml first w.loader.policy_path

    -- What a check may do. Only the last case changes anything: the version that was read first
    -- is not the one remembered, and both files could then be loaded.
    pub data Ticked (out : Loaded Bool × PolicyWatcher X S) : Type 0 where
      unreadable : (e : PolicyError) → peeked ≡ refused e → out ≡ (refused e, w) → Ticked out
      unchanged :
          (policy : Policy X)
          → peeked ≡ loaded policy
          → w.last_version ≡ some policy.version
          → out ≡ (loaded false, w)
          → Ticked out
      not_reloaded :
          (policy : Policy X) (e : PolicyError)
          → peeked ≡ loaded policy
          → w.last_version ≢ some policy.version
          → load X parse_yaml {S = S} w.loader second third ≡ refused e
          → out ≡ (refused e, w)
          → Ticked out
      reloaded :
          (policy fresh : Policy X) (sanctions : List Text)
          → peeked ≡ loaded policy
          → w.last_version ≢ some policy.version
          → load_policy X parse_yaml second w.loader.policy_path ≡ loaded fresh
          → load_sanctions third w.loader.sanctions_path ≡ loaded sanctions
          → out ≡ (
            loaded true,
            record w { last_version = some fresh.version; current = from_policy X fresh sanctions },
          )
          → Ticked out

    send-live :
        0 < w.receivers
        → (v : Text) (rules : RuleSet X S)
        → send X parse_yaml rules (record w { last_version = some v })
          ≡ record w { last_version = some v; current = rules }
    unfolding send
    send-live live v rules = rw (pos_ne_zero w.receivers live)

    reload-Ticked :
        0 < w.receivers
        → (policy : Policy X) → peeked ≡ loaded policy
        → w.last_version ≢ some policy.version
        → (again : Loaded (Policy X × RuleSet X S))
        → load X parse_yaml w.loader second third ≡ again
        → Ticked (reload X parse_yaml again w)
    unfolding reload load
    reload-Ticked live policy e other (refused m) a = not_reloaded policy m e other a refl
    reload-Ticked live policy e other (loaded (fresh, rules)) a =
        let (sanctions, read, listed, made) =
          load-eq-loaded (load_policy X parse_yaml second w.loader.policy_path)
            (load_sanctions third w.loader.sanctions_path) fresh rules a in
        reloaded policy fresh sanctions e other read listed (
          ap (λ v. (loaded true, v))
            (send-live live fresh.version rules
              ∙ ap (λ r. record w { last_version = some fresh.version; current = r }) made))

    -- While the channel has a receiver, a check for updates changes the watcher only if the policy
    -- file holds a valid policy of another version than the remembered one and both files can then
    -- be loaded: it remembers the version of the loaded policy and serves the rules that this
    -- policy and these sanctions compile to. In every other case the watcher is as it was, and the
    -- check answers the error of the first file that cannot be loaded, or that nothing changed.
    pub check-Ticked :
        0 < w.receivers → Ticked (check_for_updates X parse_yaml first second third w)
    unfolding check_for_updates
    check-Ticked live = elim (Loaded-cases peeked) [
      | inr (m, e) ↦ unreadable m e (rw e)
      | inl (policy, e) ↦ elim (Bool-cases (is_version w.last_version policy.version)) [
        | inl y ↦ unchanged policy e (is_version-eq _ _ y) (rw e (rw y))
        | inr n ↦ rw e (rw n (reload-Ticked live policy e (λ v. cc (is_version_self _ _ v)) _ refl))
      ]
    ]
