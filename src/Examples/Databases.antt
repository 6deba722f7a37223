-- ===== src/Examples/Databases.antt =====
-- A database with a known user, one of whose addresses is no longer given, and an old policy.
use riskr_rs.Base.{
  Text, done, List, ◌+◌, ◌*◌, ◌≡◌, refl, none, some, ◌%◌, ◌^◌, [], ◌∷◌, true, codes, ok, length,
  keep_if, ltb, contains, text_beq, to_lowercase, decimal_digits,
}
use mathlib.Core.List.{foldl, Perm}
use mathlib.Core.List.Perm
use riskr_rs.Domain.Policy.{Policy}
use riskr_rs.Domain.Subject.{Subject, l1}
use riskr_rs.Storage.{TransactionRecord}
use riskr_rs.Storage.Tables.{Server, Database, execute, read, begin, within, commit}
use riskr_rs.Storage.Postgres.PolicyRows.{active_row}
use riskr_rs.Storage.Statements.{
  actives, addresses_of, sum_or_zero, put_subject, put_address, put_policy, put_transaction,
}
use riskr_rs.Storage.Postgres.{
  postgres, upsert_subject, put_addresses, get_subject_by_user_id, record_transaction,
  get_rolling_volume, get_small_tx_count, set_active_policy, get_active_policy,
}
use riskr_rs.Storage.Postgres.Policies.{
  Settled, set_active_policy-Settled, set_active_policy-succeeds,
  get_active_policy-set_active_policy,
}
use riskr_rs.Storage.Postgres.SubjectRows.{add_all}
use riskr_rs.Storage.Postgres.Subjects.{Upsertion, upsert_subject-Upsertion}
use riskr_rs.Storage.Postgres.Rereading.{reread, get_subject_by_user_id-upsert_subject}
use riskr_rs.Storage.Postgres.Windows.{values_after, record_transaction-windows}
use riskr_rs.Storage.Postgres.Journaled.{database_journal, postgres-IsJournaled}
use riskr_rs.Rules.RuleSet.{from_policy}
use riskr_rs.Api.Decide.{handle_decision}
use riskr_rs.Api.Decide.Journaled.{Journals, handle_decision-Journals}
use riskr_rs.Examples.Samples.{plain, policy, volume_def, ambient, to_value, large}

-- A second passes with every statement; none fails.
abbrev pub server : Server plain
server = record {
  now = λ n. n * 1000000;
  gen_random_uuid = λ n. 100 + n;
  fault = λ n. none;
  answer_lost = λ n. true;
  row_order = λ n rows. rows;
  lower = to_lowercase;
  sum = λ values. ok (foldl (λ a b. a + b) 0 values);
  policy_to_value = λ p. ok p.version;
  policy_from_value = λ config. ok policy;
  evidence_to_value = λ evidence. ok (decimal_digits (length evidence));
}

abbrev pub database : Database plain
database = record {
  tables = record {
    subjects =
        record {
          id = 7;
          user_id = codes "u1";
          account_id = some (codes "a1");
          kyc_level = codes "L0";
          geo_iso = some (codes "US");
        }
        ∷ [];
    subject_addresses = record { subject_id = 7; address = codes "0xold" } ∷ [];
    transactions = [];
    sanctions = [];
    policies = record { version = codes "v0"; config = codes "v0"; active = true } ∷ [];
    decisions = [];
  };
  executed = 0;
}

abbrev known : Subject
known = record {
  user_id = record { value = codes "u1" };
  account_id = record { value = codes "a1" };
  addresses = record { value = codes "0xbeef" } ∷ [];
  geo_iso = record { value = codes "US" };
  kyc_tier = l1;
}

abbrev transfer : TransactionRecord plain
transfer = record {
  subject_id = 7;
  tx_type = codes "Outbound";
  asset = codes "USDC";
  amount = 60;
  usd_value = 60;
  dest_address = none;
}

set_active_policy-Settled_example :
    Settled server policy database (set_active_policy plain server policy database)
set_active_policy-Settled_example = set_active_policy-Settled server policy database

policy_set : (set_active_policy plain server policy database).0 ≡ ok tt
unfolding set_active_policy begin within put_policy commit read text_beq
policy_set = refl

set_active_policy-succeeds_example :
    ((set_active_policy plain server policy database).0 ≡ ok tt)
    × (actives (set_active_policy plain server policy database).1.tables.policies
        ≡ active_row policy.version policy.version ∷ [])
set_active_policy-succeeds_example =
    set_active_policy-succeeds server policy database policy.version refl refl refl refl refl

get_active_policy-set_active_policy_example :
    (get_active_policy plain server (set_active_policy plain server policy database).1).0
    ≡ ok (some policy)
get_active_policy-set_active_policy_example =
    get_active_policy-set_active_policy server policy database (λ config e. refl) policy_set refl

upsert_subject-Upsertion_example :
    Upsertion server known database (upsert_subject plain server known database)
upsert_subject-Upsertion_example = upsert_subject-Upsertion server known database

known_saved : (upsert_subject plain server known database).0 ≡ ok 7
unfolding upsert_subject put_subject put_addresses put_address execute text_beq contains
known_saved = refl

get_subject_by_user_id-upsert_subject_example :
    (rows : List Text) × Perm rows
      (add_all known.addresses (addresses_of {X = plain} 7 database.tables.subject_addresses))
    × ((get_subject_by_user_id plain server
          (codes "u1")
          (upsert_subject plain server known database).1).0
        ≡ ok (done (some (7, reread server known rows))))
get_subject_by_user_id-upsert_subject_example =
    get_subject_by_user_id-upsert_subject server (λ n rows. Perm.refl rows) known database 7
      known_saved refl refl

transfer_recorded : (record_transaction plain server transfer database).0 ≡ ok 100
unfolding record_transaction put_transaction execute contains
transfer_recorded = refl

record_transaction-windows_example :
    ((get_rolling_volume plain server 7 86400
        (record_transaction plain server transfer database).1).0
      ≡ sum_or_zero server (values_after server transfer database 7 86400))
    × ((get_small_tx_count plain server 7 86400 2000
          (record_transaction plain server transfer database).1).0
        ≡ ok (
            length (keep_if (λ v. ltb v 2000) (values_after server transfer database 7 86400))
            % 2 ^ 32))
record_transaction-windows_example =
    record_transaction-windows server transfer database 7 86400 100 2000 transfer_recorded refl

abbrev volume_policy : Policy plain
volume_policy = record policy { rules = volume_def ∷ [] }

handle_decision-Journals_example :
    Journals plain (postgres plain server) (database_journal plain) volume_policy.version database (
      handle_decision plain
        (postgres plain server)
        to_value
        (from_policy plain volume_policy [])
        ambient
        large
        database)
unfolding from_policy
handle_decision-Journals_example =
    handle_decision-Journals plain (postgres plain server) (database_journal plain)
      (postgres-IsJournaled plain server) to_value volume_policy [] ambient large database
