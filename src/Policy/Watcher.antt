-- ===== src/Policy/Watcher.antt =====
-- src/policy/hot_reload.rs: the watcher that reloads the policy. The state of the watcher and the
-- value of its channel are one record: the task of the watcher is the only one that writes either.
-- A tick is one call of `check_for_updates`; `interval.tick` decides when it comes.
pub mod Reloading
pub mod Serving
use riskr_rs.Base.{
  ℕ, Bool, true, false, Option, none, some, Text, text_eq, ◌==◌, nat_beq, Result, if◌then◌else◌,
  List, [], ◌∷◌,
}
use riskr_rs.Crates.{Crates}
use riskr_rs.Domain.Policy.{Policy}
use riskr_rs.Rules.RuleSet.{RuleSet, empty}
use riskr_rs.Policy.Loader.{
  PolicyLoader, PolicyError, Loaded, loaded, refused, Files, load, load_policy,
}

pub record PolicyWatcher (X : Crates) (S : Type 0) : Type 0 where
  pub loader : PolicyLoader
  pub last_version : Option Text
  -- the value of the watch channel, and how many receivers it has
  pub current : RuleSet X S
  pub receivers : ℕ

-- `Some(version)` of `last_version` is this version.
abbrev pub is_version : Option Text → Text → Bool
is_version none version = false
is_version (some v) version = v == version

-- The answers of the file system to the three reads of each tick.
abbrev pub Reads : Type 0
Reads = Files × Files × Files

module _ (X : Crates) (parse_yaml : Text → Result (Policy X)) {S : Type 0} where
  started : PolicyLoader → Loaded (Policy X × RuleSet X S) → PolicyWatcher X S
  started loader (loaded (policy, rules)) = record {
    loader = loader;
    last_version = some policy.version;
    current = rules;
    receivers = 1;
  }
  started loader (refused e) = record {
    loader = loader;
    last_version = none;
    current = empty X;
    receivers = 1;
  }

  -- `start` up to the spawn of the task; the receiver that it returns is the first one.
  unfoldable pub start : PolicyLoader → (policy_files sanctions_files : Files) → PolicyWatcher X S
  unfolding started
  start loader policy_files sanctions_files =
      started loader (load X parse_yaml loader policy_files sanctions_files)

  -- `watch::Sender::send` sets the value unless there is no receiver.
  unfoldable pub send : RuleSet X S → PolicyWatcher X S → PolicyWatcher X S
  send rules w = if nat_beq w.receivers 0 then w else record w { current = rules }

  reload : Loaded (Policy X × RuleSet X S) → PolicyWatcher X S → Loaded Bool × PolicyWatcher X S
  unfolding send
  reload (refused e) w = (refused e, w)
  reload (loaded (policy, rules)) w =
      (loaded true, send rules (record w { last_version = some policy.version }))

  update :
      Loaded (Policy X)
      → Loaded (Policy X × RuleSet X S)
      → PolicyWatcher X S
      → Loaded Bool × PolicyWatcher X S
  unfolding reload
  update (refused e) again w = (refused e, w)
  update (loaded policy) again w =
      if is_version w.last_version policy.version then (loaded false, w) else reload again w

  -- The policy file is read once for its version and once more for the reload: `first` answers the
  -- former, `second` the latter, and `third` the read of the sanctions file.
  unfoldable pub check_for_updates :
      (first second third : Files) → PolicyWatcher X S → Loaded Bool × PolicyWatcher X S
  unfolding update
  check_for_updates first second third w =
      update (load_policy X parse_yaml first w.loader.policy_path)
        (load X parse_yaml w.loader second third) w

  -- The loop of the task, over the reads of each tick; an error is logged and the loop goes on.
  unfoldable pub run : List Reads → PolicyWatcher X S → PolicyWatcher X S
  run [] w = w
  run ((f, g, h) ∷ reads) w = run reads (check_for_updates f g h w).1
