-- ===== src/Example/Deliveries.antt =====
-- Two deliveries of an event to a client that never answers with success.
use tru_dev_tasks.Prelude.{refl, Option, none, some, [], ◌∷◌, true, false, arith}
use tru_dev_tasks.Example.Server.{server}
use tru_dev_tasks.Exec.{Result}
use tru_dev_tasks.Jobs.Queue.{enqueue, enqueue_job}
use tru_dev_tasks.Platform.{Platform, World, Db, with_session}
use tru_dev_tasks.Webhooks.Delivery.{posted}
use tru_dev_tasks.Prelude.Round.{half_even}
use tru_dev_tasks.Webhooks.Dispatcher.{jitter, backoff, post_event, settle, deliver}
use tru_dev_tasks.Webhooks.Models.{WebhookEndpoint, WebhookEvent, queued, failed}
use tru_dev_tasks.Webhooks.Retries.{
  Failures, no_delivery, delivery, HasAttempts, failures-HasAttempts,
}

instance abbrev deaf : Platform
deaf = record (server (λ n. 0)) { post = λ n url content signature timestamp. false }

abbrev endpoint : WebhookEndpoint
endpoint = record { id = 1; client_id = "c1"; url = "u"; signing_secret = "s"; is_active = true }

abbrev event : WebhookEvent
event = record {
  id = 3;
  endpoint_id = 1;
  event_type = "refund.completed";
  payload = [];
  status = queued;
  attempt_count = 0;
  last_attempt_at = none;
  next_retry_at = none;
}

abbrev db : Db
db = record {
  payments = record { items = []; distinct = tt };
  idempotency_records = record { items = []; distinct = tt };
  refunds = record { items = []; distinct = tt };
  webhook_endpoints = record { items = endpoint ∷ []; distinct = (tt, tt) };
  webhook_events = record { items = event ∷ []; distinct = (tt, tt) };
  ledger_entries = record { items = []; distinct = tt };
}

abbrev start : World
start = record {
  committed = db;
  working = db;
  jobs = record { items = []; distinct = tt };
  dispatch_queue = [];
  log = [];
  reads = 0;
}

abbrev once : Result (Option WebhookEvent) × World
once = with_session (deliver 3) start

abbrev attempted : WebhookEvent
attempted = record event {
  status = failed;
  attempt_count = 1;
  last_attempt_at = some 0;
  next_retry_at = some 2000000;
}

abbrev attempted_twice : WebhookEvent
attempted_twice = record attempted {
  attempt_count = 2;
  last_attempt_at = some 5000000;
  next_retry_at = some 9000000;
}

abbrev twice : Result (Option WebhookEvent) × World
twice = with_session (deliver 3) once.1

both : Failures 3 start 2 twice.1
unfolding deliver post_event settle posted enqueue_job enqueue backoff jitter half_even
both =
    delivery
      (delivery no_delivery start once.1 event endpoint (some attempted) refl refl refl refl refl
        refl)
      once.1 twice.1 attempted endpoint (some attempted_twice) refl refl refl refl refl refl

new-HasAttempts : HasAttempts 3 0 start
new-HasAttempts = record {
  event = event;
  stored = refl;
  attempts = refl;
  status = λ some_attempt. absurd (omega arith);
}

failures-HasAttempts_example : HasAttempts 3 2 twice.1
failures-HasAttempts_example = failures-HasAttempts 3 start twice.1 2 new-HasAttempts both
