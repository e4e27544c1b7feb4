-- ===== src/Webhooks/Service.antt =====
-- pulsepay/webhooks/service.py: `WebhookService`, without the list of events.
use tru_dev_tasks.Prelude.{ℕ, String, true, false, ◌&&◌, none, some, List, select, str_eq}
use tru_dev_tasks.Core.Exceptions.{
  integrity_error, webhook_event_not_found, webhook_endpoint_not_found,
}
use tru_dev_tasks.Exec.{Exec, pure, raise, gets, modify, or_raise, ◌>>=◌, ◌>>◌}
use tru_dev_tasks.Platform.{Platform, World, new_uuid, commit}
use tru_dev_tasks.Webhooks.Models.{WebhookEndpoint, WebhookEvent}

pub record RegisterWebhookEndpointRequest : Type 0 where
  pub client_id : String
  pub url : String
  pub signing_secret : String

module _ ⦃P : Platform⦄ where
  -- `get_event`
  unfoldable pub get_event : ℕ → Exec World WebhookEvent
  get_event event_id = do
    found ← gets (λ w. P.webhook_events.get w.working.webhook_events event_id)
    or_raise found webhook_event_not_found

  abbrev pub insert_endpoint : WebhookEndpoint → Exec World (Unit {0})
  insert_endpoint e = do
    inserted ← gets (λ w. P.webhook_endpoints.insert w.working.webhook_endpoints e)
    elim inserted [
      | none ↦ raise integrity_error
      | some endpoints ↦
          modify (λ w. record w { working = record w.working { webhook_endpoints = endpoints } })
    ]

  -- `register_endpoint`
  unfoldable pub register_endpoint : RegisterWebhookEndpointRequest → Exec World WebhookEndpoint
  register_endpoint request = do
    id ← new_uuid
    let endpoint : WebhookEndpoint = record {
      id = id;
      client_id = request.client_id;
      url = request.url;
      signing_secret = request.signing_secret;
      is_active = true;
    }
    insert_endpoint endpoint
    commit
    pure endpoint

  -- `deactivate_endpoint`
  unfoldable pub deactivate_endpoint : ℕ → Exec World WebhookEndpoint
  deactivate_endpoint endpoint_id = do
    found ← gets (λ w. P.webhook_endpoints.get w.working.webhook_endpoints endpoint_id)
    endpoint ← or_raise found webhook_endpoint_not_found
    let inactive : WebhookEndpoint = record endpoint { is_active = false }
    modify (λ w. record w {
      working = record w.working {
        webhook_endpoints = P.webhook_endpoints.update w.working.webhook_endpoints inactive;
      };
    })
    commit
    pure inactive

  -- The endpoints that `dispatch` selects, by what is committed.
  abbrev pub targets : String → World → List WebhookEndpoint
  targets customer_id w =
      select (λ e. str_eq e.client_id customer_id && e.is_active)
        (P.webhook_endpoints.rows w.committed.webhook_endpoints)
