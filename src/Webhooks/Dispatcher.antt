-- ===== src/Webhooks/Dispatcher.antt =====
-- pulsepay/webhooks/dispatcher.py: `WebhookDispatcher`.
use tru_dev_tasks.Prelude.{
  ℕ, suc, ◌+◌, ◌*◌, ◌/◌, ◌^◌, String, Bool, true, false, ◌&&◌, Option, none, some, List, [], ◌∷◌,
  leb, str_eq, if◌then◌else◌, select,
}
use tru_dev_tasks.Core.Exceptions.{integrity_error}
use tru_dev_tasks.Exec.{Exec, ok, pure, raise, gets, modify, ◌>>=◌, ◌>>◌}
use tru_dev_tasks.Jobs.Models.{uuid_text, number, Payload}
use tru_dev_tasks.Jobs.Queue.{enqueue_job}
use tru_dev_tasks.Prelude.Round.{half_even}
use tru_dev_tasks.Platform.{Platform, World, utcnow, random, new_uuid, commit}
use tru_dev_tasks.Webhooks.Models.{WebhookEndpoint, WebhookEvent, queued, delivered, failed, dead}

-- A draw of `random()` as a part of a second, in microseconds: `timedelta` rounds to the nearest.
unfoldable pub jitter : ℕ → ℕ
jitter draw = half_even (draw * 1000000) (2 ^ 53)

-- `timedelta(seconds=float(2 ** attempts) + random.random())`
unfoldable pub backoff : ℕ → ℕ → ℕ
backoff attempts draw = 2 ^ attempts * 1000000 + jitter draw

module _ ⦃P : Platform⦄ where
  abbrev pub insert_event : WebhookEvent → Exec World (Unit {0})
  insert_event e = do
    events ← gets (λ w. P.webhook_events.insert w.working.webhook_events e)
    elim events [
      | none ↦ raise integrity_error
      | some inserted ↦
          modify (λ w. record w { working = record w.working { webhook_events = inserted } })
    ]

  abbrev pub save_event : WebhookEvent → Exec World (Unit {0})
  save_event e = modify λ w. record w {
    working = record w.working {
      webhook_events = P.webhook_events.update w.working.webhook_events e;
    };
  }

  -- One round of the loop of `dispatch`.
  unfoldable pub dispatch_one : String → Payload → WebhookEndpoint → Exec World WebhookEvent
  dispatch_one event_type payload endpoint = do
    id ← new_uuid
    let event : WebhookEvent = record {
      id = id;
      endpoint_id = endpoint.id;
      event_type = event_type;
      payload = payload;
      status = queued;
      attempt_count = 0;
      last_attempt_at = none;
      next_retry_at = none;
    }
    insert_event event
    enqueue_job "deliver_webhook" (("event_id", uuid_text id) ∷ []) none
    pure event

  unfoldable pub dispatch_each :
      String → Payload → List WebhookEndpoint → Exec World (List WebhookEvent)
  dispatch_each event_type payload [] = pure []
  dispatch_each event_type payload (endpoint ∷ rest) = do
    event ← dispatch_one event_type payload endpoint
    created_events ← dispatch_each event_type payload rest
    pure (event ∷ created_events)

  -- `WebhookDispatcher.dispatch`
  unfoldable pub dispatch : String → Payload → String → Exec World (List WebhookEvent)
  dispatch event_type payload customer_id = do
    endpoints ← gets (λ w.
        select (λ e. str_eq e.client_id customer_id && e.is_active)
          (P.webhook_endpoints.rows w.working.webhook_endpoints))
    created_events ← dispatch_each event_type payload endpoints
    commit
    pure created_events

  -- `deliver` of an event whose endpoint is gone or inactive.
  unfoldable pub bury : WebhookEvent → Exec World (Option WebhookEvent)
  bury event = do
    now ← utcnow
    let buried : WebhookEvent = record event {
      status = dead;
      last_attempt_at = some now;
      next_retry_at = none;
    }
    save_event buried
    commit
    pure (some buried)

  -- The request of `deliver`, with its signature.
  unfoldable pub post_event : WebhookEndpoint → WebhookEvent → ℕ → Exec World Bool
  post_event endpoint event now w =
      let payload_json = P.json_dumps event.payload in
      let signature = P.hmac_sha256 endpoint.signing_secret payload_json in
      (
        ok (P.post w.reads endpoint.url payload_json signature (now / 1000000)),
        record w { reads = suc w.reads },
      )

  -- What `deliver` writes after the request.
  unfoldable pub settle : WebhookEvent → ℕ → Bool → Exec World (Option WebhookEvent)
  settle event now true = do
    let done : WebhookEvent = record event {
      last_attempt_at = some now;
      attempt_count = event.attempt_count + 1;
      status = delivered;
      next_retry_at = none;
    }
    save_event done
    commit
    pure (some done)
  settle event now false =
      if leb 5 (event.attempt_count + 1)
      then (do
        let given_up : WebhookEvent = record event {
          last_attempt_at = some now;
          attempt_count = event.attempt_count + 1;
          status = dead;
          next_retry_at = none;
        }
        save_event given_up
        commit
        pure (some given_up))
      else (do
        draw ← random
        let next_retry_at = now + backoff (event.attempt_count + 1) draw
        let retried : WebhookEvent = record event {
          last_attempt_at = some now;
          attempt_count = event.attempt_count + 1;
          status = failed;
          next_retry_at = some next_retry_at;
        }
        enqueue_job "deliver_webhook"
            (("event_id", uuid_text event.id)
              ∷ ("attempt", number (event.attempt_count + 1))
              ∷ ("next_run_at", number next_retry_at)
              ∷ [])
            (some next_retry_at)
        save_event retried
        commit
        pure (some retried))

  abbrev pub live_endpoint : Option WebhookEndpoint → Option WebhookEndpoint
  live_endpoint none = none
  live_endpoint (some e) = if e.is_active then some e else none

  -- `WebhookDispatcher.deliver`
  unfoldable pub deliver : ℕ → Exec World (Option WebhookEvent)
  deliver event_id = do
    found ← gets (λ w. P.webhook_events.get w.working.webhook_events event_id)
    elim found [
      | none ↦ pure none
      | some event ↦ do
        owner ← gets (λ w. P.webhook_endpoints.get w.working.webhook_endpoints event.endpoint_id)
        elim (live_endpoint owner) [
          | none ↦ bury event
          | some endpoint ↦ do
            now ← utcnow
            success ← post_event endpoint event now
            settle event now success
        ]
    ]
