-- ===== src/Webhooks/Delivery.antt =====
-- What a delivery leaves of its event.
use tru_dev_tasks.Prelude.{
  ℕ, suc, ◌+◌, ◌/◌, ◌≡◌, refl, sym, ap, ◌∙◌, inl, inr, Bool, true, false, Option, some, [], ◌∷◌,
  leb, ==_self, if◌then◌else◌, Bool-cases,
}
use tru_dev_tasks.Exec.{Result, ok, pure, ◌>>◌, >>=-inv, ok_injective}
use tru_dev_tasks.Jobs.Models.{Job, Payload, uuid_text, number}
use tru_dev_tasks.Jobs.Queue.{enqueue_job}
use tru_dev_tasks.Jobs.Frame.{enqueue_job-SameSessions}
use tru_dev_tasks.Platform.{Platform, World, commit}
use tru_dev_tasks.Webhooks.Models.{
  WebhookEndpoint, WebhookEvent, WebhookStatus, delivered, failed, dead,
}
use tru_dev_tasks.Webhooks.Dispatcher.{backoff, save_event, post_event, settle, deliver}

-- The status of an event after an attempt, by what the request came to and the count of attempts.
abbrev pub status_after : Bool → ℕ → WebhookStatus
status_after true attempts = delivered
status_after false attempts = if leb 5 attempts then dead else failed

module _ ⦃P : Platform⦄ where
  -- The event as a delivery leaves it, committed and answered.
  pub record IsSettled (event : WebhookEvent) (success : Bool) (r : Option WebhookEvent) (w : World)
      : Type 0 where
    pub settled : WebhookEvent
    pub answered : r ≡ some settled
    pub stored : P.webhook_events.get w.committed.webhook_events event.id ≡ some settled
    pub attempts : settled.attempt_count ≡ event.attempt_count + 1
    pub status : settled.status ≡ status_after success (event.attempt_count + 1)

  -- The write at the end of each branch of `settle`.
  written-IsSettled :
      (event old written : WebhookEvent) (success : Bool) (w : World) {r : Option WebhookEvent}
      {w' : World}
      → P.webhook_events.get w.working.webhook_events event.id ≡ some old
      → written.id ≡ event.id
      → written.attempt_count ≡ event.attempt_count + 1
      → written.status ≡ status_after success (event.attempt_count + 1)
      → (save_event written >> (commit >> pure (some written))) w ≡ (ok r, w')
      → IsSettled event success r w'
  written-IsSettled event old written success w {r} {w'} stored same attempts status e = record {
    settled = written;
    answered = ok_injective (ap (λ (x : Result (Option WebhookEvent) × World). x.0) (sym e));
    stored =
        ap
          (λ (x : Result (Option WebhookEvent) × World).
            P.webhook_events.get x.1.committed.webhook_events event.id)
          (sym e)
        ∙ P.webhook_events.update_get w.working.webhook_events written
            (ap (P.webhook_events.get w.working.webhook_events) same ∙ stored) event.id
        ∙ rw same (rw (==_self event.id) refl);
    attempts = attempts;
    status = status;
  }

  settle-IsSettled :
      (event old : WebhookEvent) (now : ℕ) (success : Bool) (w : World) {r : Option WebhookEvent}
      {w' : World}
      → P.webhook_events.get w.working.webhook_events event.id ≡ some old
      → settle event now success w ≡ (ok r, w')
      → IsSettled event success r w'
  unfolding settle
  settle-IsSettled event old now true w stored e =
      written-IsSettled event old _ true w stored refl refl refl e
  settle-IsSettled event old now false w {r} {w'} stored e =
      elim (Bool-cases (leb 5 (event.attempt_count + 1))) [
        | inl last ↦
            written-IsSettled event old _ false w stored refl refl (rw last refl) (rw last at e)
        | inr more ↦
            let (job, v, enqueued, rest) =
              >>=-inv (enqueue_job "deliver_webhook" retry_payload (some next_retry_at)) _
                {s = drawn} (rw more at e) in
            let same : v.working ≡ w.working =
              ap (λ (x : Result Job × World). x.1.working) (sym enqueued)
              ∙ (enqueue_job-SameSessions "deliver_webhook" retry_payload (some next_retry_at)
                  drawn).working in
            written-IsSettled event old _ false v
              (ap (λ db. P.webhook_events.get db.webhook_events event.id) same ∙ stored) refl refl
              (rw more refl) rest
      ]
    where
      drawn : World
      drawn = record w { reads = suc w.reads }

      next_retry_at : ℕ
      next_retry_at = now + backoff (event.attempt_count + 1) (P.random w.reads)

      retry_payload : Payload
      retry_payload =
          ("event_id", uuid_text event.id)
          ∷ ("attempt", number (event.attempt_count + 1))
          ∷ ("next_run_at", number next_retry_at)
          ∷ []

  -- Whether the request that `deliver` sends is answered with success.
  unfoldable pub posted : WebhookEndpoint → WebhookEvent → World → Bool
  posted endpoint event w =
      let payload_json = P.json_dumps event.payload in
      P.post (suc w.reads) endpoint.url payload_json
        (P.hmac_sha256 endpoint.signing_secret payload_json) (P.time w.reads / 1000000)

  -- A delivery that returns, of an event whose endpoint is active, has committed the event that it
  -- answers: one more attempt is counted, and it is delivered if the request succeeded, else dead
  -- at the fifth attempt or a later one, and failed before.
  pub deliver-IsSettled :
      (event_id : ℕ) (event : WebhookEvent) (endpoint : WebhookEndpoint) (w : World)
      {r : Option WebhookEvent} {w' : World}
      → P.webhook_events.get w.working.webhook_events event_id ≡ some event
      → P.webhook_endpoints.get w.working.webhook_endpoints event.endpoint_id ≡ some endpoint
      → endpoint.is_active ≡ true
      → deliver event_id w ≡ (ok r, w')
      → IsSettled event (posted endpoint event w) r w'
  unfolding deliver post_event posted
  deliver-IsSettled event_id event endpoint w stored owned active e =
      settle-IsSettled event event (P.time w.reads) _ _
        (ap (P.webhook_events.get w.working.webhook_events) (P.webhook_events.get_key stored)
          ∙ stored)
        (rw active at (rw owned at (rw stored at e)))
