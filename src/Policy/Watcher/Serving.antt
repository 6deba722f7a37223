-- ===== src/Policy/Watcher/Serving.antt =====
-- The rule set that is served, over any run of the watcher.
use riskr_rs.Base.{
  List, [], ◌∷◌, All, ◌<◌, ◌≡◌, refl, sym, ap, ◌∙◌, Bool, Option, none, some, Text, text_eq, Result,
  arith,
}
use riskr_rs.Crates.{Crates}
use riskr_rs.Domain.Policy.{Policy}
use riskr_rs.Rules.RuleSet.{RuleSet, empty, from_policy}
use riskr_rs.Policy.Loader.{
  PolicyLoader, Loaded, loaded, refused, Files, load, load_policy, load_sanctions,
}
use riskr_rs.Policy.Watcher.{PolicyWatcher, start, started, run, Reads, check_for_updates}
use riskr_rs.Policy.Watcher.Reloading.{
  is_version_self, load-eq-loaded, Ticked, unreadable, unchanged, not_reloaded, reloaded,
  check-Ticked,
}

module _ (X : Crates) (parse_yaml : Text → Result (Policy X)) where
  -- The policy file holds a valid policy of this version at the first read of each tick.
  abbrev pub AllOfVersion : PolicyLoader → Text → List Reads → Type 0
  AllOfVersion loader v = All (λ (r : Reads).
      (policy : Policy X) × (load_policy X parse_yaml r.0 loader.policy_path ≡ loaded policy)
      × (policy.version ≡ v))

module _ (X : Crates) (parse_yaml : Text → Result (Policy X)) {S : Type 0} where
  -- What is served is compiled from a policy of the version that the watcher remembers; before the
  -- first successful load it is the empty rule set.
  abbrev pub Serves : Option Text → RuleSet X S → Type 0
  Serves none rules = rules ≡ empty X
  Serves (some v) rules =
      (policy : Policy X) × (sanctions : List Text) × (rules ≡ from_policy X policy sanctions)
      × (policy.version ≡ v)

  pub record IsConsistent (w : PolicyWatcher X S) : Type 0 where
    pub live : 0 < w.receivers
    pub serves : Serves w.last_version w.current

  pub Ticked-IsConsistent :
      (f g h : Files) (w : PolicyWatcher X S) (out : Loaded Bool × PolicyWatcher X S)
      → IsConsistent w
      → Ticked X parse_yaml f g h w out
      → IsConsistent out.1
  Ticked-IsConsistent f g h w out c (unreadable _ _ e) = rw e c
  Ticked-IsConsistent f g h w out c (unchanged _ _ _ e) = rw e c
  Ticked-IsConsistent f g h w out c (not_reloaded _ _ _ _ _ e) = rw e c
  Ticked-IsConsistent f g h w out c (reloaded _ fresh sanctions _ _ _ _ e) =
      rw e (record { live = c.live; serves = (fresh, sanctions, refl, refl) })

  run-IsConsistent :
      (reads : List Reads) (w : PolicyWatcher X S)
      → IsConsistent w
      → IsConsistent (run X parse_yaml reads w)
  unfolding run
  run-IsConsistent [] w c = c
  run-IsConsistent ((f, g, h) ∷ reads) w c =
      run-IsConsistent reads _
        (Ticked-IsConsistent f g h w _ c (check-Ticked X parse_yaml f g h w c.live))

  started-IsConsistent :
      (loader : PolicyLoader) (f g : Files) (r : Loaded (Policy X × RuleSet X S))
      → load X parse_yaml loader f g ≡ r
      → IsConsistent (started X parse_yaml loader r)
  unfolding started load
  started-IsConsistent loader f g (refused m) e = record { live = omega arith; serves = refl }
  started-IsConsistent loader f g (loaded (policy, rules)) e =
      let (sanctions, _, _, made) =
        load-eq-loaded X parse_yaml (load_policy X parse_yaml f loader.policy_path)
          (load_sanctions g loader.sanctions_path) policy rules e in
      record { live = omega arith; serves = (policy, sanctions, made, refl) }

  -- From the start, whatever the files hold at each read, the channel keeps its receiver and the
  -- engine serves the empty rule set until a first load succeeds, and from then on the rules that a
  -- policy of the version that the watcher remembers compiles to.
  pub run-start-IsConsistent :
      (loader : PolicyLoader) (f g : Files) (reads : List Reads)
      → IsConsistent (run X parse_yaml reads (start X parse_yaml loader f g))
  unfolding start
  run-start-IsConsistent loader f g reads =
      run-IsConsistent reads _ (started-IsConsistent loader f g _ refl)

  -- While the first read of each tick finds a valid policy of the version that the watcher
  -- remembers, nothing is reloaded: a change of the sanctions file, or of the policy under the same
  -- version, has no effect.
  run-same_version :
      (v : Text) (reads : List Reads) (w : PolicyWatcher X S)
      → w.last_version ≡ some v
      → AllOfVersion X parse_yaml w.loader v reads
      → run X parse_yaml reads w ≡ w
  unfolding run check_for_updates
  run-same_version v [] w last same = refl
  run-same_version v ((f, g, h) ∷ reads) w last ((policy, read, version), same) = rw read (
      rw (is_version_self w.last_version policy.version (last ∙ ap some (sym version)))
        (run-same_version v reads w last same))
