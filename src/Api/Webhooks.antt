-- ===== src/Api/Webhooks.antt =====
-- pulsepay/webhooks/router.py. `id` is the request id of the context.
use tru_dev_tasks.Prelude.{ℕ, String, Option, map}
use tru_dev_tasks.Api.Envelope.{Web, Reply, envelope}
use tru_dev_tasks.Api.Schemas.{Body, endpoint_response, event_response}
use tru_dev_tasks.Exec.{Exec, ◌>>=◌}
use tru_dev_tasks.Platform.{Platform, World}
use tru_dev_tasks.Webhooks.Listing as Listing
use tru_dev_tasks.Webhooks.Service as Service

module _ ⦃P : Platform⦄ (web : Web) (id : Option String) where
  abbrev pub list_webhook_events : ℕ → ℕ → Option String → Exec World Reply
  list_webhook_events page limit status_filter = do
    found ← Listing.list_events web.created_at page limit status_filter
    envelope id 200 (Body.events (map event_response found.0) page limit found.1)

module _ ⦃P : Platform⦄ (id : Option String) where
  abbrev pub get_webhook_event : ℕ → Exec World Reply
  get_webhook_event event_id = do
    found ← Service.get_event event_id
    envelope id 200 (Body.event (event_response found))

  abbrev pub register_webhook_endpoint : Service.RegisterWebhookEndpointRequest → Exec World Reply
  register_webhook_endpoint payload = do
    added ← Service.register_endpoint payload
    envelope id 201 (Body.endpoint (endpoint_response added))

  abbrev pub deactivate_webhook_endpoint : ℕ → Exec World Reply
  deactivate_webhook_endpoint endpoint_id = do
    closed ← Service.deactivate_endpoint endpoint_id
    envelope id 200 (Body.endpoint (endpoint_response closed))
