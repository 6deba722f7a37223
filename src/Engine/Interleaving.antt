-- ===== src/Engine/Interleaving.antt =====
-- A run of the engine as a run of the requests, with reloads in between.
use riskr_rs.Base.{Bool, refl, sym, ap, subst, All, Option, none, some, [], Text, Result}
use riskr_rs.Crates.{Crates}
use riskr_rs.Domain.Policy.{Policy}
use riskr_rs.Rules.RuleSet.{RuleSet, empty}
use riskr_rs.Rules.RuleSet.Preserving.{Preserves, QueriesPreserve, from_policy-Preserve}
use riskr_rs.Rules.RuleSet.Readers.{Readers, from_policy-Readers}
use riskr_rs.Storage.Mock.{MockStorage, mock}
use riskr_rs.Policy.Loader.{PolicyLoader, Files}
use riskr_rs.Policy.Watcher.{PolicyWatcher, run}
use riskr_rs.Policy.Loader.{Loaded}
use riskr_rs.Policy.Watcher.Reloading.{
  Ticked, unreadable, unchanged, not_reloaded, reloaded, check-Ticked,
}
use riskr_rs.Policy.Watcher.Serving.{
  IsConsistent, Ticked-IsConsistent, run-start-IsConsistent, Serves,
}
use riskr_rs.Api.Request.{DecisionRequest}
use riskr_rs.Api.Decide.Tasks
use riskr_rs.Api.Decide.Tasks.{Service, Moves}
use riskr_rs.Engine.{Engine, boot, Step, ticks, accepts, advances, Run, stays, goes}

module _ (X : Crates) where
  abbrev pub service_of : Engine X → Service X (MockStorage X)
  service_of e = record { tasks = e.tasks; store = e.store; current = e.watcher.current }

module _ (X : Crates) (parse_yaml : Text → Result (Policy X))
    (to_value : DecisionRequest X → Option X.Json) where
  abbrev M : Service X (MockStorage X) → Service X (MockStorage X) → Type 0
  M = Moves X (mock X) to_value

  Ticked-Moves :
      (f g h : Files) (e : Engine X) (out : Loaded Bool × PolicyWatcher X (MockStorage X))
      → Ticked X parse_yaml f g h e.watcher out
      → M (service_of X e) (service_of X (record e { watcher = out.1 }))
  Ticked-Moves f g h e out (unreadable _ _ p) = rw p (Tasks.stays refl)
  Ticked-Moves f g h e out (unchanged _ _ _ p) = rw p (Tasks.stays refl)
  Ticked-Moves f g h e out (not_reloaded _ _ _ _ _ p) = rw p (Tasks.stays refl)
  Ticked-Moves f g h e out (reloaded _ fresh sanctions _ _ _ _ p) =
      rw p (Tasks.goes (Tasks.reloads fresh sanctions refl) (Tasks.stays refl))

  Step-Moves :
      (e e' : Engine X)
      → IsConsistent X parse_yaml e.watcher
      → Step X parse_yaml to_value e e'
      → M (service_of X e) (service_of X e')
  Step-Moves e e' c (ticks f g h p) =
      rw p (Ticked-Moves f g h e _ (check-Ticked X parse_yaml f g h e.watcher c.live))
  Step-Moves e e' c (accepts ambient req p) =
      Tasks.goes (Tasks.accepts ambient req (ap (service_of X) p)) (Tasks.stays refl)
  Step-Moves e e' c (advances before after task task' s split q p) =
      Tasks.goes (Tasks.advances before after task task' s split q (ap (service_of X) p))
        (Tasks.stays refl)

  Moves-trans : {a b c : Service X (MockStorage X)} → M a b → M b c → M a c
  Moves-trans {c} (Tasks.stays e) q = subst (λ x. M x c) (sym e) q
  Moves-trans (Tasks.goes move moves) q = Tasks.goes move (Moves-trans moves q)

  Step-IsConsistent :
      (e e' : Engine X)
      → IsConsistent X parse_yaml e.watcher
      → Step X parse_yaml to_value e e'
      → IsConsistent X parse_yaml e'.watcher
  Step-IsConsistent e e' c (ticks f g h p) = rw p (
      Ticked-IsConsistent X parse_yaml f g h e.watcher _ c
        (check-Ticked X parse_yaml f g h e.watcher c.live))
  Step-IsConsistent e e' c (accepts _ _ p) = rw p c
  Step-IsConsistent e e' c (advances _ _ _ _ _ _ _ p) = rw p c

  Run-Moves :
      (e e' : Engine X)
      → IsConsistent X parse_yaml e.watcher
      → Run X parse_yaml to_value e e'
      → M (service_of X e) (service_of X e')
  Run-Moves e e' c (stays p) = Tasks.stays (ap (service_of X) p)
  Run-Moves e e' c (goes {e₁} step run) =
      Moves-trans (Step-Moves e e₁ c step) (Run-Moves e₁ e' (Step-IsConsistent e e₁ c step) run)

  Serves-Preserve :
      (R : MockStorage X → MockStorage X → Type 0)
      → QueriesPreserve X (mock X) R
      → (last : Option Text) (rules : RuleSet X (MockStorage X)) → Serves X parse_yaml last rules
      → All (Preserves X (mock X) R) rules.streaming
  unfolding empty
  Serves-Preserve R queries none rules e = rw e tt
  Serves-Preserve R queries (some v) rules (policy, sanctions, e, _) =
      rw e (from_policy-Preserve X (mock X) R queries policy sanctions)

  Serves-Readers :
      (last : Option Text) (rules : RuleSet X (MockStorage X))
      → Serves X parse_yaml last rules
      → Readers X rules
  unfolding empty
  Serves-Readers none rules e = rw e tt
  Serves-Readers (some v) rules (policy, sanctions, e, _) =
      rw e (from_policy-Readers X policy sanctions)

  module _ (loader : PolicyLoader) (f g : Files) where
    boot-IsConsistent : IsConsistent X parse_yaml (boot X parse_yaml to_value loader f g).watcher
    unfolding boot run
    boot-IsConsistent = run-start-IsConsistent X parse_yaml loader f g []

    -- A run of the engine from its start is a run of the requests in flight, with reloads in between.
    pub Run-boot-Moves :
        (e : Engine X)
        → Run X parse_yaml to_value (boot X parse_yaml to_value loader f g) e
        → Moves X
            (mock X)
            to_value
            (service_of X (boot X parse_yaml to_value loader f g))
            (service_of X e)
    Run-boot-Moves e run = Run-Moves _ e boot-IsConsistent run

    -- The rules at the start keep what the queries of the storage keep, and only read.
    pub boot-Preserve :
        (R : MockStorage X → MockStorage X → Type 0)
        → QueriesPreserve X (mock X) R
        → All
            (Preserves X (mock X) R)
            (boot X parse_yaml to_value loader f g).watcher.current.streaming
    boot-Preserve R queries = Serves-Preserve R queries _ _ boot-IsConsistent.serves

    pub boot-Readers : Readers X (boot X parse_yaml to_value loader f g).watcher.current
    boot-Readers = Serves-Readers _ _ boot-IsConsistent.serves
