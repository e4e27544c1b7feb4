-- ===== src/Webhooks/Retries.antt =====
-- The deliveries of one event to a client that never answers with success.
use tru_dev_tasks.Prelude.{
  ℕ, suc, ◌+◌, ◌≤◌, ◌≡◌, some-injective, refl, sym, ap, ◌∙◌, true, false, Option, some, leb, arith,
  if◌then◌else◌,
}
use tru_dev_tasks.Exec.{Result, ok, pair_path}
use tru_dev_tasks.Platform.{Platform, World, with_session}
use tru_dev_tasks.Webhooks.Delivery.{posted, status_after, deliver-IsSettled}
use tru_dev_tasks.Webhooks.Dispatcher.{deliver}
use tru_dev_tasks.Webhooks.Models.{WebhookEndpoint, WebhookEvent, failed, dead}

module _ ⦃P : Platform⦄ (event_id : ℕ) where
  abbrev pub event_in : World → Option WebhookEvent
  event_in w = P.webhook_events.get w.committed.webhook_events event_id

  abbrev pub begun : World → World
  begun w = record w { working = w.committed }

  -- `n` deliveries from `w` on, each in a session of its own, that have returned though the
  -- request failed. Between two of them anything may happen that leaves the event alone, and the
  -- endpoint active.
  pub data Failures (w : World) : ℕ → World → Type 0 where
    no_delivery : Failures w 0 w
    delivery :
        {n : ℕ} {v : World}
        → Failures w n v
        → (u w' : World) (event : WebhookEvent) (endpoint : WebhookEndpoint)
          (r : Option WebhookEvent)
        → event_in u ≡ event_in v
        → event_in u ≡ some event
        → P.webhook_endpoints.get u.committed.webhook_endpoints event.endpoint_id ≡ some endpoint
        → endpoint.is_active ≡ true
        → posted endpoint event (begun u) ≡ false
        → with_session (deliver event_id) u ≡ (ok r, w')
        → Failures w (suc n) w'

  -- The event has so many failed attempts.
  pub record HasAttempts (n : ℕ) (w : World) : Type 0 where
    pub event : WebhookEvent
    pub stored : event_in w ≡ some event
    pub attempts : event.attempt_count ≡ n
    pub status : 1 ≤ n → event.status ≡ (if leb 5 n then dead else failed)

  -- After `n` deliveries that have returned although the request failed, each of the event as the
  -- one before has left it and of an active endpoint, an event that had no attempt has `n` of
  -- them; it is failed after the first four and dead from the fifth on.
  pub failures-HasAttempts :
      (w w' : World) (n : ℕ) → HasAttempts 0 w → Failures w n w' → HasAttempts n w'
  failures-HasAttempts w _ _ h no_delivery = h
  failures-HasAttempts w _ _ h
        (delivery {n} {v} before u w' event endpoint r same stored owned active lost ran) =
      let earlier : HasAttempts n v = failures-HasAttempts w v n h before in
      let is_event : event ≡ earlier.event = some-injective (sym stored ∙ same ∙ earlier.stored) in
      let count : event.attempt_count + 1 ≡ suc n =
        omega (arith, ap (λ (e : WebhookEvent). e.attempt_count) is_event, earlier.attempts) in
      let left : World = (deliver event_id (begun u)).1 in
      let settled =
        deliver-IsSettled event_id event endpoint (begun u) stored owned active (
          pair_path {s = left} (ap (λ (x : Result (Option WebhookEvent) × World). x.0) ran) refl) in
      record {
        event = settled.settled;
        stored =
            ap (λ (x : Result (Option WebhookEvent) × World). event_in x.1) (sym ran)
            ∙ ap (P.webhook_events.get left.committed.webhook_events)
                (sym (P.webhook_events.get_key stored))
            ∙ settled.stored;
        attempts = settled.attempts ∙ count;
        status = λ _.
            settled.status
            ∙ ap (λ b. status_after b (event.attempt_count + 1)) lost
            ∙ ap (λ k. status_after false k) count;
      }
