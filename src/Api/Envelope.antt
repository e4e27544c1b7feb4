-- ===== src/Api/Envelope.antt =====
-- What the routers share: what they take from elsewhere, and `_envelope`.
use tru_dev_tasks.Prelude.{ℕ, ◌≢◌, String, Option, none, some}
use tru_dev_tasks.Api.Schemas.{Body, Content, enveloped}
use tru_dev_tasks.Exec.{Exec, pure, ◌>>=◌}
use tru_dev_tasks.Platform.{Platform, World, utcnow}
use tru_dev_tasks.Webhooks.Models.{WebhookEvent}

-- What the API takes from elsewhere: `str.upper`, the text of a UUID, which is not empty, the
-- column by which events are listed, and `settings().ENVIRONMENT`.
pub record Web : Type 0 where
  pub upper : String → String
  pub str_uuid : ℕ → String
  pub str_uuid_filled : (n : ℕ) → str_uuid n ≢ ""
  pub created_at : WebhookEvent → ℕ
  pub environment : String

-- `get_request_id() or ""`
abbrev pub or_empty : Option String → String
or_empty none = ""
or_empty (some id) = id

module _ ⦃P : Platform⦄ where
  -- A status code and a content.
  abbrev pub Reply : Type 0
  Reply = ℕ × Content

  -- `_envelope`, in the three routers
  unfoldable pub envelope : Option String → ℕ → Body → Exec World Reply
  envelope request_id status body = do
    now ← utcnow
    pure (status, enveloped body (or_empty request_id) now)
