-- ===== src/Webhooks/Models.antt =====
-- pulsepay/webhooks/models.py.
use tru_dev_tasks.Prelude.{ℕ, String, Bool, Option, ◌==◌}
use tru_dev_tasks.Jobs.Models.{Payload}

pub data WebhookStatus : Type 0 where
  queued delivered failed dead : WebhookStatus

pub record WebhookEndpoint : Type 0 where
  pub id : ℕ
  pub client_id : String
  pub url : String
  pub signing_secret : String
  pub is_active : Bool

pub record WebhookEvent : Type 0 where
  pub id : ℕ
  pub endpoint_id : ℕ
  pub event_type : String
  pub payload : Payload
  pub status : WebhookStatus
  pub attempt_count : ℕ
  pub last_attempt_at : Option ℕ
  pub next_retry_at : Option ℕ

abbrev pub endpoint_clash : WebhookEndpoint → WebhookEndpoint → Bool
endpoint_clash e f = e.id == f.id

abbrev pub event_clash : WebhookEvent → WebhookEvent → Bool
event_clash e f = e.id == f.id
