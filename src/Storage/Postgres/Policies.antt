-- ===== src/Storage/Postgres/Policies.antt =====
-- The policies of src/storage/postgres.rs: `set_active_policy` as one transaction, and reading back.
use riskr_rs.Base.{
  ℕ, Distinct, suc, ◌≡◌, refl, Bool, true, false, some, none, Text, text_eq, ◌==◌, [], ◌∷◌, Result,
  ok, err, if◌then◌else◌, arith,
}
use riskr_rs.Crates.{Crates}
use riskr_rs.Domain.Policy.{Policy}
use riskr_rs.Storage.Tables.{Tables, Server, Database, ◌>>=◌, continue, begin, within, commit, read}
use riskr_rs.Storage.Tables.Running.{counted, read_then-elim, commit-elim}
use riskr_rs.Storage.Statements.{actives, deactivate_all, put_policy_row, put_policy}
use riskr_rs.Storage.Postgres.{set_active_policy, get_active_policy, decode_policy}
use riskr_rs.Storage.Schema.{versions}
use riskr_rs.Storage.Schema.Rows.{put_policy_row-Distinct}
use riskr_rs.Storage.Postgres.PolicyRows.{
  active_row, find_policy, deactivated, none_other_active, one_active, rows_after,
}

module _ {X : Crates} (server : Server X) where
  -- The tables once the policy is active.
  abbrev pub activated : Policy X → X.Json → Tables X → Tables X
  activated policy config t = record t {
    policies = put_policy_row policy.version config (deactivate_all t.policies);
  }

  -- How an attempt to change the tables from `t` to `t'` may end. A failure leaves them alone,
  -- unless it is the answer to the commit that was lost.
  pub data Attempted (t t' : Tables X) : Result (Unit {0}) × Database X → Type 0 where
    succeeded : {n : ℕ} → Attempted t t' (ok tt, record { tables = t'; executed = n })
    failed :
        {n : ℕ} {message : Text} → Attempted t t' (err message, record { tables = t; executed = n })
    in_doubt :
        {n m : ℕ} {message : Text}
        → server.answer_lost m ≡ true
        → Attempted t t' (err message, record { tables = t'; executed = n })

  -- The tables `t'` differ from `t` in the policies: the policy's row, active and with the given
  -- configuration, is the only active one, the rows of the other versions are inactive, and no
  -- version gets a second row.
  pub record Activated (policy : Policy X) (config : X.Json) (t t' : Tables X) : Type 0 where
    pub only : actives t'.policies ≡ active_row policy.version config ∷ []
    pub rows :
        (version : Text)
        → find_policy version t'.policies ≡ (
            if policy.version == version
            then some (active_row policy.version config)
            else deactivated (find_policy version t.policies))
    pub distinct : Distinct (versions t.policies) → Distinct (versions t'.policies)
    pub others : t' ≡ record t { policies = t'.policies }

  activated-Activated :
      (policy : Policy X) (config : X.Json) (t : Tables X)
      → Activated policy config t (activated policy config t)
  activated-Activated policy config t = record {
    only = one_active policy.version config t.policies;
    rows = λ version. rows_after policy.version version config t.policies;
    distinct = put_policy_row-Distinct policy.version config t.policies;
    others = refl;
  }

  -- It activates the policy, or fails for good and changes nothing.
  pub data Settled (policy : Policy X) (db : Database X) (out : Result (Unit {0}) × Database X)
      : Type 0 where
    tried :
        (config : X.Json) (t' : Tables X)
        → server.policy_to_value policy ≡ ok config
        → Activated policy config db.tables t'
        → Attempted db.tables t' out
        → Settled policy db out
    gave_up :
        (message : Text) → out.0 ≡ err message → out.1.tables ≡ db.tables → Settled policy db out

  lost_or_not :
      (t t' : Tables X) (n m : ℕ) (message : Text) (lost : Bool)
      → server.answer_lost m ≡ lost
      → Attempted t t' (err message, record { tables = if lost then t' else t; executed = n })
  lost_or_not t t' n m message true e = in_doubt e
  lost_or_not t t' n m message false e = failed

  committing-Attempted :
      (copy : Tables X) (db : Database X) → Attempted db.tables copy (commit server copy db)
  committing-Attempted copy db =
      commit-elim server copy db (Attempted db.tables copy) succeeded
        (λ message. lost_or_not db.tables copy _ db.executed message _ refl)

  put_policy-inactive :
      (version : Text) (config : X.Json) (t : Tables X)
      → put_policy version config (record t { policies = deactivate_all t.policies })
        ≡ ok (record t { policies = put_policy_row version config (deactivate_all t.policies) })
  unfolding put_policy
  put_policy-inactive version config t = rw (none_other_active version t.policies) refl

  module _ (policy : Policy X) (db : Database X) where
    abbrev inactive : Tables X
    inactive = record db.tables { policies = deactivate_all db.tables.policies }

    -- From the statement that inserts the row.
    inserting :
        (config : X.Json) (n : ℕ)
        → server.policy_to_value policy ≡ ok config
        → Settled policy db (
            (within server (put_policy policy.version config) inactive >>= commit server)
              (record db { executed = n }))
    unfolding within
    inserting config n e =
        read_then-elim server (λ _ _. put_policy policy.version config inactive) (commit server)
          (record db { executed = n }) (Settled policy db) (λ message. gave_up message refl refl)
          (rw (put_policy-inactive policy.version config db.tables) (
            tried config _ e (activated-Activated policy config db.tables) (
              committing-Attempted (activated policy config db.tables)
                (record db { executed = suc n }))))

    encoding :
        (r : Result X.Json) (n : ℕ)
        → server.policy_to_value policy ≡ r
        → Settled policy db (
            continue
              (r, record db { executed = n })
              (λ config.
                within server (put_policy policy.version config) inactive >>= commit server))
    encoding (ok config) n e = inserting config n e
    encoding (err message) n e = gave_up message refl refl

    -- Setting a policy makes its row the only active one, with the configuration that the policy is
    -- written as, deactivates the rows of the other versions, gives no version a second row and
    -- changes no other table; or it fails and changes nothing, even between its two statements. A
    -- failure may leave the policy set only where the answer to the commit was lost.
    pub set_active_policy-Settled : Settled policy db (set_active_policy X server policy db)
    unfolding set_active_policy begin within
    set_active_policy-Settled =
        read_then-elim server (λ n t. ok t) _ db (Settled policy db)
          (λ message. gave_up message refl refl)
          (read_then-elim server (λ n t. ok inactive) _ (counted db) (Settled policy db)
            (λ message. gave_up message refl refl) (encoding _ _ refl))

  Attempted-ok :
      (t t' : Tables X) (out : Result (Unit {0}) × Database X)
      → Attempted t t' out
      → out.0 ≡ ok tt
      → out.1.tables ≡ t'
  Attempted-ok t t' _ succeeded done = refl
  Attempted-ok t t' _ failed done = ground arith
  Attempted-ok t t' _ (in_doubt l) done = ground arith

  -- What success tells.
  Settled-ok :
      (policy : Policy X) (db : Database X) (out : Result (Unit {0}) × Database X)
      → Settled policy db out
      → out.0 ≡ ok tt
      → (config : X.Json) × (server.policy_to_value policy ≡ ok config)
        × Activated policy config db.tables out.1.tables
  Settled-ok policy db out (tried config t' e b a) done =
      (config, e, rw (Attempted-ok db.tables t' out a done) b)
  Settled-ok policy db out (gave_up message e same) done = cc

  -- Where the policy can be written as a configuration and the server answers the four statements,
  -- setting it succeeds, whatever policies were there and active before, and whether or not its
  -- version had a row: with the others deactivated first, the statements break no constraint.
  -- Then the policy's row is the only active one.
  pub set_active_policy-succeeds :
      (policy : Policy X) (db : Database X) (config : X.Json)
      → server.policy_to_value policy ≡ ok config
      → server.fault db.executed ≡ none
      → server.fault (suc db.executed) ≡ none
      → server.fault (suc (suc db.executed)) ≡ none
      → server.fault (suc (suc (suc db.executed))) ≡ none
      → ((set_active_policy X server policy db).0 ≡ ok tt)
        × (actives (set_active_policy X server policy db).1.tables.policies
            ≡ active_row policy.version config ∷ [])
  unfolding set_active_policy begin within read commit
  set_active_policy-succeeds policy db config e f₀ f₁ f₂ f₃ = rw f₀ (
      rw f₁ (
        rw e (
          rw f₂ (
            rw (put_policy-inactive policy.version config db.tables)
              (rw f₃ (refl, one_active policy.version config db.tables.policies))))))

  -- Where the configuration that a policy is written as reads back as that policy: once it was set,
  -- reading the active policy gives it, whatever policies were there before, if the server answers.
  pub get_active_policy-set_active_policy :
      (policy : Policy X) (db : Database X)
      → ((config : X.Json)
          → server.policy_to_value policy ≡ ok config
          → server.policy_from_value config ≡ ok policy)
      → (set_active_policy X server policy db).0 ≡ ok tt
      → server.fault (set_active_policy X server policy db).1.executed ≡ none
      → (get_active_policy X server (set_active_policy X server policy db).1).0 ≡ ok (some policy)
  unfolding get_active_policy read decode_policy
  get_active_policy-set_active_policy policy db inverse done up =
      let (config, e, a) = Settled-ok policy db _ (set_active_policy-Settled policy db) done in
      rw up (rw a.only (rw (inverse config e) refl))
