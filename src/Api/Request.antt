-- ===== src/Api/Request.antt =====
-- src/api/request.rs: the request and its reading as a transaction event.
pub mod Reading
use mathlib.Core.Option
use riskr_rs.Base.{
  Option, some, none, List, [], map, Text, codes, to_lowercase, contains_text, if◌then◌else◌,
}
use riskr_rs.Crates.{Crates}
use riskr_rs.Domain.Subject.{
  Subject, KycTier, default_tier, from_str, new_address, new_country_code,
}
use riskr_rs.Domain.Event.{
  TxEvent, Direction, inbound, outbound, schema_version_v1, inline_chain, new_event_id,
}

pub record SubjectRequest : Type 0 where
  pub user_id : Text
  pub account_id : Text
  pub addresses : List Text
  pub geo_iso : Text
  pub kyc_tier : Text

pub record TxRequest (X : Crates) : Type 0 where
  pub tx_type : Text
  pub asset : Text
  pub amount : Text
  pub usd_value : X.F64
  pub dest_address : Option Text

pub record DecisionRequest (X : Crates) : Type 0 where
  pub subject : SubjectRequest
  pub tx : TxRequest X
  pub context : X.Json

-- A withdrawal is outbound, anything else inbound.
unfoldable pub direction_of : Text → Direction
direction_of tx_type =
    if contains_text (to_lowercase tx_type) (codes "withdraw") then outbound else inbound

module _ (X : Crates) where
  unfoldable pub to_tx_event : (now : X.DateTime) (uuid : X.Uuid) → DecisionRequest X → TxEvent X
  unfolding direction_of
  to_tx_event now uuid req = record {
    schema_version = schema_version_v1;
    event_id = new_event_id X uuid;
    occurred_at = now;
    observed_at = now;
    subject = record {
      user_id = record { value = req.subject.user_id };
      account_id = record { value = req.subject.account_id };
      addresses = map new_address req.subject.addresses;
      geo_iso = new_country_code req.subject.geo_iso;
      kyc_tier = Option.get_or (from_str req.subject.kyc_tier) default_tier;
    };
    chain = inline_chain;
    tx_hash = [];
    direction = direction_of req.tx.tx_type;
    asset = record { value = req.tx.asset };
    amount = req.tx.amount;
    usd_value = Option.get_or (X.from_f64_retain req.tx.usd_value) X.decimal_zero;
    confirmations = 0;
    max_finality_depth = 0;
  }
