-- ===== src/Schemas/Execution.antt =====
-- app/schemas/execution.py
use schedualerl_lm.Base.{ℕ, String, Bool, Option}
use schedualerl_lm.Enums.{ExecutionSource}

pub record WebhookFireOutcome : Type 0 where
  pub http_status : Option ℕ
  pub error_message : Option String
  pub success : Bool

pub record WebhookFireResult : Type 0 where
  pub http_status : Option ℕ
  pub error_message : Option String
  pub success : Bool
  pub execution_source : ExecutionSource
  pub webhook_url : String

-- `webhook_fire_result`
abbrev pub webhook_fire_result : ExecutionSource → String → WebhookFireOutcome → WebhookFireResult
webhook_fire_result execution_source webhook_url outcome = record {
  http_status = outcome.http_status;
  error_message = outcome.error_message;
  success = outcome.success;
  execution_source = execution_source;
  webhook_url = webhook_url;
}
