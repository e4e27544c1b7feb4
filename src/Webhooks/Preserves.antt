-- ===== src/Webhooks/Preserves.antt =====
-- What the dispatcher cannot break: any statement on the tables that does not depend on the events
-- and that a commit keeps.
use tru_dev_tasks.Prelude.{
  ℕ, ◌+◌, String, Bool, true, false, Option, none, some, List, [], ◌∷◌, leb, inl, inr, Option-cases,
}
use tru_dev_tasks.Exec.{Exec, ◌>>=◌}
use tru_dev_tasks.Exec.Preserves.{Preserves, >>=-Preserves, if-Preserves}
use tru_dev_tasks.Jobs.Models.{Payload, uuid_text}
use tru_dev_tasks.Jobs.Queue.{enqueue_job}
use tru_dev_tasks.Jobs.Frame.{enqueue_job-Preserves}
use tru_dev_tasks.Platform.{Platform, World, Db, utcnow}
use tru_dev_tasks.Webhooks.Models.{WebhookEndpoint, WebhookEvent}
use tru_dev_tasks.Webhooks.Dispatcher.{
  insert_event, dispatch_one, dispatch_each, dispatch, bury, post_event, settle, live_endpoint,
  deliver,
}

module _ ⦃P : Platform⦄ (I : Db → Db → Type 0)
    (events : (a b : Db) (t : P.webhook_events.State)
      → I a b
      → I (record a { webhook_events = t }) b)
    (commits : (a b : Db) → I a b → I a a) where
  abbrev J : World → Type 0
  J w = I w.working w.committed

  insert_event-Preserves : (event : WebhookEvent) → Preserves J (insert_event event)
  insert_event-Preserves event w h =
      elim (Option-cases (P.webhook_events.insert w.working.webhook_events event)) [
        | inl refused ↦ rw refused h
        | inr (t, e) ↦ rw e (events w.working w.committed t h)
      ]

  dispatch_one-Preserves :
      (event_type : String) (payload : Payload) (endpoint : WebhookEndpoint)
      → Preserves J (dispatch_one event_type payload endpoint)
  unfolding dispatch_one
  dispatch_one-Preserves event_type payload endpoint w h =
      >>=-Preserves J (insert_event _) _ (insert_event-Preserves _)
        (λ _.
          >>=-Preserves J
            (enqueue_job "deliver_webhook" (("event_id", uuid_text (P.uuid w.reads)) ∷ []) none) _
            (enqueue_job-Preserves I _ _ _) (λ _ v k. k))
        _ h

  dispatch_each-Preserves :
      (event_type : String) (payload : Payload) (endpoints : List WebhookEndpoint)
      → Preserves J (dispatch_each event_type payload endpoints)
  unfolding dispatch_each
  dispatch_each-Preserves event_type payload [] = λ w h. h
  dispatch_each-Preserves event_type payload (endpoint ∷ rest) =
      >>=-Preserves J (dispatch_one event_type payload endpoint) _
        (dispatch_one-Preserves event_type payload endpoint)
        (λ _.
          >>=-Preserves J (dispatch_each event_type payload rest) _
            (dispatch_each-Preserves event_type payload rest) (λ _ v k. k))

  pub dispatch-Preserves :
      (event_type : String) (payload : Payload) (customer_id : String)
      → Preserves J (dispatch event_type payload customer_id)
  unfolding dispatch
  dispatch-Preserves event_type payload customer_id w h =
      >>=-Preserves J (dispatch_each event_type payload _) _
        (dispatch_each-Preserves event_type payload _) (λ _ v k. commits v.working v.committed k) w
        h

  bury-Preserves : (event : WebhookEvent) → Preserves J (bury event)
  unfolding bury
  bury-Preserves event w h = commits _ w.committed (events w.working w.committed _ h)

  settle-Preserves :
      (event : WebhookEvent) (now : ℕ) (success : Bool) → Preserves J (settle event now success)
  unfolding settle
  settle-Preserves event now true = λ w h. commits _ w.committed (events w.working w.committed _ h)
  settle-Preserves event now false =
      if-Preserves J (leb 5 (event.attempt_count + 1)) _ _
        (λ w h. commits _ w.committed (events w.working w.committed _ h))
        (λ w h.
          >>=-Preserves J (enqueue_job "deliver_webhook" _ _) _ (enqueue_job-Preserves I _ _ _)
            (λ _ v k. commits _ v.committed (events v.working v.committed _ k)) _ h)

  pub deliver-Preserves : (event_id : ℕ) → Preserves J (deliver event_id)
  unfolding deliver post_event
  deliver-Preserves event_id w h =
      elim (Option-cases (P.webhook_events.get w.working.webhook_events event_id)) [
        | inl missing ↦ rw missing h
        | inr (event, found) ↦ rw found (
            by_owner event
              (live_endpoint
                (P.webhook_endpoints.get w.working.webhook_endpoints event.endpoint_id))
              w h)
      ]
    where
      by_owner :
          (event : WebhookEvent) (o : Option WebhookEndpoint)
          → Preserves J (elim o as (λ _. Exec World (Option WebhookEvent)) [
            | none ↦ bury event
            | some endpoint ↦
                utcnow
                >>= (λ now. post_event endpoint event now >>= (λ success. settle event now success))
          ])
      by_owner event none = bury-Preserves event
      by_owner event (some endpoint) = λ v k. settle-Preserves event (P.time v.reads) _ _ k
