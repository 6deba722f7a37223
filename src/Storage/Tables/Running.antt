-- ===== src/Storage/Tables/Running.antt =====
-- How a statement may end, for proofs about the sequences of statements in src/storage/postgres.rs.
use riskr_rs.Base.{
  ℕ, suc, ◌≡◌, refl, inl, inr, Bool-cases, Option, some, none, Text, Result, ok, err, Fallible,
  if◌then◌else◌,
}
use riskr_rs.Crates.{Crates}
use riskr_rs.Storage.Tables.{
  Tables, Server, Database, ◌>>=◌, continue, refusal_or, reading, finish, read, execute,
  commit_refused, commit,
}

module _ {X : Crates} where
  -- The database after a statement that changed nothing, and after one that left the tables `t`.
  abbrev pub counted : Database X → Database X
  counted db = record db { executed = suc db.executed }

  abbrev pub changed : Database X → Tables X → Database X
  changed db t = record { tables = t; executed = suc db.executed }

abbrev pub Ending : Crates → Type 0 → Type 1
Ending X B = Result B × Database X → Type 0

module _ {X : Crates} (server : Server X) where
  refusal_or-elim :
      {A : Type 0} (P : Result A → Type 0) (refusal : Option Text) (r : Result A)
      → ((message : Text) → P (err message))
      → P r
      → P (refusal_or server refusal r)
  refusal_or-elim P none r refused answered = answered
  refusal_or-elim P (some message) r refused answered = refused message

  -- A reading statement is refused, or answers what it finds.
  pub read-elim :
      {A : Type 0} (statement : ℕ → Tables X → Result A) (db : Database X) (P : Ending X A)
      → ((message : Text) → P (err message, counted db))
      → P (statement db.executed db.tables, counted db)
      → P (read server statement db)
  unfolding read reading
  read-elim statement db P refused answered =
      refusal_or-elim (λ r. P (reading server db r)) (server.fault db.executed)
        (statement db.executed db.tables) refused answered

  finish-elim :
      {A : Type 0} (db : Database X) (P : Ending X A) (refusal : Option Text)
      (r : Result (A × Tables X))
      → ((message : Text) → P (err message, counted db))
      → ((message : Text) (a : A) (t : Tables X) → r ≡ ok (a, t) → P (err message, changed db t))
      → ((a : A) (t : Tables X) → r ≡ ok (a, t) → P (ok a, changed db t))
      → P (finish server db refusal r)
  unfolding finish
  finish-elim db P none (ok (a, t)) failed lost answered = answered a t refl
  finish-elim db P (some message) (ok (a, t)) failed lost answered =
      elim (Bool-cases (server.answer_lost db.executed)) [
        | inl y ↦ rw y (lost message a t refl)
        | inr n ↦ rw n (failed message)
      ]
  finish-elim db P none (err message) failed lost answered = failed message
  finish-elim db P (some refusal) (err message) failed lost answered = failed message

  -- A changing statement fails without effect, or takes effect, with its answer lost or not.
  pub execute-elim :
      {A : Type 0} (statement : ℕ → Tables X → Result (A × Tables X)) (db : Database X)
      (P : Ending X A)
      → ((message : Text) → P (err message, counted db))
      → ((message : Text) (a : A) (t : Tables X)
          → statement db.executed db.tables ≡ ok (a, t)
          → P (err message, changed db t))
      → ((a : A) (t : Tables X)
          → statement db.executed db.tables ≡ ok (a, t)
          → P (ok a, changed db t))
      → P (execute server statement db)
  unfolding execute finish
  execute-elim statement db P failed lost answered =
      finish-elim db P (server.fault db.executed) (statement db.executed db.tables) failed lost
        answered

  -- The same where more follows.
  pub read_then-elim :
      {A B : Type 0} (statement : ℕ → Tables X → Result A) (f : A → Fallible (Database X) B)
      (db : Database X) (P : Ending X B)
      → ((message : Text) → P (err message, counted db))
      → P (continue (statement db.executed db.tables, counted db) f)
      → P ((read server statement >>= f) db)
  read_then-elim statement f db P refused answered =
      read-elim statement db (λ out. P (continue out f)) refused answered

  pub execute_then-elim :
      {A B : Type 0} (statement : ℕ → Tables X → Result (A × Tables X))
      (f : A → Fallible (Database X) B) (db : Database X) (P : Ending X B)
      → ((message : Text) → P (err message, counted db))
      → ((message : Text) (a : A) (t : Tables X)
          → statement db.executed db.tables ≡ ok (a, t)
          → P (err message, changed db t))
      → ((a : A) (t : Tables X)
          → statement db.executed db.tables ≡ ok (a, t)
          → P (f a (changed db t)))
      → P ((execute server statement >>= f) db)
  execute_then-elim statement f db P failed lost answered =
      execute-elim statement db (λ out. P (continue out f)) failed lost answered

  commit_refused-elim :
      (copy : Tables X) (db : Database X) (P : Ending X Unit) (refusal : Option Text)
      → P (ok tt, changed db copy)
      → ((message : Text)
          → P (
            err message,
            changed db (if server.answer_lost db.executed then copy else db.tables),
          ))
      → P (commit_refused server db copy refusal)
  unfolding commit_refused
  commit_refused-elim copy db P none done lost = done
  commit_refused-elim copy db P (some message) done lost = lost message

  -- A commit takes effect, or fails: then it has taken effect all the same, or not at all.
  pub commit-elim :
      (copy : Tables X) (db : Database X) (P : Ending X Unit)
      → P (ok tt, changed db copy)
      → ((message : Text)
          → P (
            err message,
            changed db (if server.answer_lost db.executed then copy else db.tables),
          ))
      → P (commit server copy db)
  unfolding commit
  commit-elim copy db P done lost =
      commit_refused-elim copy db P (server.fault db.executed) done lost
