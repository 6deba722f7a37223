-- ===== src/Api/Response.antt =====
-- src/api/response.rs: what the engine answers.
use riskr_rs.Base.{ℕ, Bool, Option, none, List, [], ◌∷◌, Text, codes}
use riskr_rs.Crates.{Crates}
use riskr_rs.Domain.Decision.{Decision, allow}
use riskr_rs.Domain.Evidence.{Evidence}

pub record DecisionResponse (X : Crates) : Type 0 where
  pub decision : Decision
  pub decision_code : Text
  pub policy_version : Text
  pub evidence : List Evidence
  pub expires_at : Option X.DateTime

-- "OK", or the rule of the first piece of evidence.
unfoldable pub code_of : List Evidence → Text
code_of [] = codes "OK"
code_of (e ∷ evidence) = e.rule_id

module _ (X : Crates) where
  unfoldable pub new : Decision → Text → List Evidence → DecisionResponse X
  unfolding code_of
  new decision policy_version evidence = record {
    decision = decision;
    decision_code = code_of evidence;
    policy_version = policy_version;
    evidence = evidence;
    expires_at = none;
  }

  unfoldable pub allow_response : Text → DecisionResponse X
  allow_response policy_version = record {
    decision = allow;
    decision_code = codes "OK";
    policy_version = policy_version;
    evidence = [];
    expires_at = none;
  }

pub record HealthResponse : Type 0 where
  pub status : Text
  pub version : Text
  pub policy_version : Text
  pub uptime_secs : ℕ

pub record ReadyResponse : Type 0 where
  pub ready : Bool
  pub policy_version : Text
  pub inline_rules : ℕ
  pub streaming_rules : ℕ

pub record ErrorResponse : Type 0 where
  pub error : Text
  pub code : Text

unfoldable pub new_error : Text → Text → ErrorResponse
new_error error code = record { error = error; code = code }

unfoldable pub bad_request : Text → ErrorResponse
unfolding new_error
bad_request message = new_error message (codes "BAD_REQUEST")

unfoldable pub internal_error : Text → ErrorResponse
unfolding new_error
internal_error message = new_error message (codes "INTERNAL_ERROR")
