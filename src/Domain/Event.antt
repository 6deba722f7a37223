-- ===== src/Domain/Event.antt =====
-- src/domain/event.rs: the transaction under evaluation, and the event of a decision.
-- The current time and a fresh identifier are arguments: `Utc::now` and `Uuid::new_v4` give them.
use riskr_rs.Base.{ℕ, List, [], ◌∷◌, Text, codes}
use riskr_rs.Crates.{Crates}
use riskr_rs.Domain.Decision.{Decision}
use riskr_rs.Domain.Evidence.{Evidence}
use riskr_rs.Domain.Subject.{Subject}

pub record EventId : Type 0 where
  pub value : Text

pub record Chain : Type 0 where
  pub value : Text

abbrev pub inline_chain : Chain
inline_chain = record { value = codes "INLINE" }

pub record Asset : Type 0 where
  pub value : Text

pub data Direction : Type 0 where
  inbound outbound : Direction

-- The derived `Debug`.
unfoldable pub debug_direction : Direction → Text
debug_direction inbound = codes "Inbound"
debug_direction outbound = codes "Outbound"

abbrev pub schema_version_v1 : Text
schema_version_v1 = codes "v1"

pub record TxEvent (X : Crates) : Type 0 where
  pub schema_version : Text
  pub event_id : EventId
  pub occurred_at : X.DateTime
  pub observed_at : X.DateTime
  pub subject : Subject
  pub chain : Chain
  pub tx_hash : Text
  pub direction : Direction
  pub asset : Asset
  pub amount : Text
  pub usd_value : X.Decimal
  pub confirmations : ℕ
  pub max_finality_depth : ℕ

pub data DecisionStage : Type 0 where
  provisional final override : DecisionStage

pub record DecisionEvent (X : Crates) : Type 0 where
  pub schema_version : Text
  pub decision_id : EventId
  pub event_id : EventId
  pub issued_at : X.DateTime
  pub stage : DecisionStage
  pub decision : Decision
  pub decision_code : Text
  pub policy_version : Text
  pub evidence : List Evidence

-- The rule of the first piece of evidence, or "OK".
unfoldable pub pick_code : List Evidence → Text
pick_code [] = codes "OK"
pick_code (e ∷ evidence) = e.rule_id

module _ (X : Crates) where
  -- `EventId::new`
  abbrev pub new_event_id : X.Uuid → EventId
  new_event_id uuid = record { value = X.uuid_to_string uuid }

  unfoldable pub new_tx_event :
      X.DateTime → X.Uuid → Subject → Asset → X.Decimal → Direction → TxEvent X
  new_tx_event now uuid subject asset usd_value direction = record {
    schema_version = schema_version_v1;
    event_id = new_event_id uuid;
    occurred_at = now;
    observed_at = now;
    subject = subject;
    chain = inline_chain;
    tx_hash = [];
    direction = direction;
    asset = asset;
    amount = [];
    usd_value = usd_value;
    confirmations = 0;
    max_finality_depth = 0;
  }

  unfoldable pub new_decision_event :
      X.DateTime → X.Uuid → EventId → Decision → Text → List Evidence → DecisionEvent X
  unfolding pick_code
  new_decision_event now uuid event_id decision policy_version evidence = record {
    schema_version = schema_version_v1;
    decision_id = new_event_id uuid;
    event_id = event_id;
    issued_at = now;
    stage = final;
    decision = decision;
    decision_code = pick_code evidence;
    policy_version = policy_version;
    evidence = evidence;
  }
