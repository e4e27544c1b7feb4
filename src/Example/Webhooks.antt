-- ===== src/Example/Webhooks.antt =====
-- The delivery of an event of an active endpoint, to a client that answers with success.
use mathlib.Core.List.{Memᴰ}
use tru_dev_tasks.Webhooks.Registration.{register_endpoint-targets}
use tru_dev_tasks.Webhooks.Service.{RegisterWebhookEndpointRequest, register_endpoint, targets}
use tru_dev_tasks.Prelude.{◌≡◌, refl, none, some, [], ◌∷◌, true}
use tru_dev_tasks.Example.Server.{server, fresh}
use tru_dev_tasks.Platform.{Platform, World}
use tru_dev_tasks.Webhooks.Models.{WebhookEndpoint, WebhookEvent, failed, delivered}
use tru_dev_tasks.Webhooks.Dispatcher.{post_event, settle, deliver}
use tru_dev_tasks.Webhooks.Delivery.{IsSettled, posted, deliver-IsSettled}

instance abbrev calm : Platform
calm = server (λ n. 0)

abbrev start : World
start = fresh (λ n. 0)

abbrev endpoint : WebhookEndpoint
endpoint = record { id = 1; client_id = "c1"; url = "u"; signing_secret = "s"; is_active = true }

abbrev event : WebhookEvent
event = record {
  id = 3;
  endpoint_id = 1;
  event_type = "refund.completed";
  payload = [];
  status = failed;
  attempt_count = 1;
  last_attempt_at = some 0;
  next_retry_at = some 5;
}

abbrev waiting : World
waiting = record start {
  working = record start.working {
    webhook_endpoints = record { items = endpoint ∷ []; distinct = (tt, tt) };
    webhook_events = record { items = event ∷ []; distinct = (tt, tt) };
  };
}

abbrev arrived : WebhookEvent
arrived = record event {
  status = delivered;
  attempt_count = 2;
  last_attempt_at = some 0;
  next_retry_at = none;
}

deliver-IsSettled_example :
    IsSettled event (posted endpoint event waiting) (some arrived) (deliver 3 waiting).1
unfolding deliver post_event settle
deliver-IsSettled_example = deliver-IsSettled 3 event endpoint waiting refl refl refl refl

-- A customer with two endpoints, the first of which is deactivated.
abbrev second : WebhookEndpoint
second = record { id = 2; client_id = "c1"; url = "v"; signing_secret = "t"; is_active = true }

abbrev registered : World
registered = record start {
  working = record start.working {
    webhook_endpoints = record {
      items = endpoint ∷ second ∷ [];
      distinct = (((λ e. cc), tt), (tt, tt));
    };
  };
}

abbrev wanted : RegisterWebhookEndpointRequest
wanted = record { client_id = "c1"; url = "u"; signing_secret = "s" }

abbrev added : WebhookEndpoint
added = record { id = 0; client_id = "c1"; url = "u"; signing_secret = "s"; is_active = true }

register_endpoint-targets_example :
    Memᴰ added (targets "c1" (register_endpoint wanted start).1)
    × (added.url ≡ "u")
    × (added.signing_secret ≡ "s")
unfolding register_endpoint
register_endpoint-targets_example = register_endpoint-targets wanted start refl
