-- ===== src/System/Routes.antt =====
-- Every route keeps the tables sound, whatever it is asked and whatever comes of it.
use tru_dev_tasks.Prelude.{ℕ, String, Option}
use tru_dev_tasks.Api.Envelope.{Web, envelope}
use tru_dev_tasks.Api.Routes.{handle}
use tru_dev_tasks.Api.Schemas.{
  Call, create_payment, confirm_payment, get_payment, list_payments, initiate_refund, list_refunds,
  list_webhook_events, get_webhook_event, register_webhook_endpoint, deactivate_webhook_endpoint,
  health, metrics, Body, payment, refund, event, endpoint, refund_response, endpoint_response,
  event_response,
}
use tru_dev_tasks.Exec.{Exec, ◌>>=◌}
use tru_dev_tasks.Exec.Preserves.{after-Preserves, or_raise-Preserves}
use tru_dev_tasks.Observability.Metrics.{compute_metrics}
use tru_dev_tasks.Payments.Listing as PaymentListing
use tru_dev_tasks.Payments.Models.{payment_response}
use tru_dev_tasks.Payments.Service as PaymentService
use tru_dev_tasks.Platform.{Platform, World}
use tru_dev_tasks.Refunds.Listing as RefundListing
use tru_dev_tasks.Refunds.Service as RefundService
use tru_dev_tasks.System.Soundness.{IsLater, KeepsLater}
use tru_dev_tasks.System.Sessions.{
  create_payment-KeepsLater, confirm_payment-KeepsLater, initiate_refund-KeepsLater,
  register_endpoint-KeepsLater, deactivate_endpoint-KeepsLater,
}
use tru_dev_tasks.Webhooks.Listing as WebhookListing
use tru_dev_tasks.Webhooks.Service as WebhookService

module _ ⦃P : Platform⦄ (s : P.payments.State) where
  answered :
      {A : Type 0} (m : Exec World A) (id : Option String) (status : A → ℕ) (body : A → Body)
      → KeepsLater s m
      → KeepsLater s (m >>= λ a. envelope id (status a) (body a))
  unfolding envelope
  answered m id status body keeps w clean h =
      after-Preserves (λ (v : World). IsLater s v.committed) (λ a. envelope id (status a) (body a))
        (m w) (λ a v k. k) (keeps w clean h)

  get_payment-KeepsLater : (i : ℕ) → KeepsLater s (PaymentService.get_payment i)
  unfolding PaymentService.get_payment
  get_payment-KeepsLater i w clean h =
      or_raise-Preserves (λ (v : World). IsLater s v.committed)
        (P.payments.get w.working.payments i) _ w h

  get_event-KeepsLater : (i : ℕ) → KeepsLater s (WebhookService.get_event i)
  unfolding WebhookService.get_event
  get_event-KeepsLater i w clean h =
      or_raise-Preserves (λ (v : World). IsLater s v.committed)
        (P.webhook_events.get w.working.webhook_events i) _ w h

  list_payments-KeepsLater :
      (page limit : ℕ) (customer_id status : Option String)
      → KeepsLater s (PaymentListing.list_payments page limit customer_id status)
  unfolding PaymentListing.list_payments
  list_payments-KeepsLater page limit customer_id status w clean h = h

  list_refunds-KeepsLater : (i : ℕ) → KeepsLater s (RefundListing.list_refunds i)
  unfolding RefundListing.list_refunds
  list_refunds-KeepsLater i w clean h = h

  list_events-KeepsLater :
      (web : Web) (page limit : ℕ) (status : Option String)
      → KeepsLater s (WebhookListing.list_events web.created_at page limit status)
  unfolding WebhookListing.list_events
  list_events-KeepsLater web page limit status w clean h = h

  metrics-KeepsLater : (web : Web) (id : Option String) → KeepsLater s (handle web id metrics)
  unfolding handle compute_metrics
  metrics-KeepsLater web id w clean h = h

  pub handle-KeepsLater :
      (web : Web) (id : Option String) (call : Call) → KeepsLater s (handle web id call)
  unfolding handle
  handle-KeepsLater web id (create_payment payload key) =
      answered
        (PaymentService.create_payment (record payload { currency = web.upper payload.currency })
          key)
        id (λ a. a.1) (λ a. payment a.0)
        (create_payment-KeepsLater s (record payload { currency = web.upper payload.currency }) key)
  handle-KeepsLater web id (confirm_payment payment_id metadata) =
      answered (PaymentService.confirm_payment payment_id metadata) id (λ _. 200)
        (λ p. payment (payment_response p)) (confirm_payment-KeepsLater s payment_id metadata)
  handle-KeepsLater web id (get_payment payment_id) =
      answered (PaymentService.get_payment payment_id) id (λ _. 200)
        (λ p. payment (payment_response p)) (get_payment-KeepsLater payment_id)
  handle-KeepsLater web id (list_payments page limit customer_id status) =
      answered _ id (λ _. 200) _ (list_payments-KeepsLater page limit customer_id status)
  handle-KeepsLater web id (initiate_refund payment_id payload key) =
      answered (RefundService.initiate_refund payment_id payload.amount key payload.reason) id
        (λ _. 201) (λ r. refund (refund_response r))
        (initiate_refund-KeepsLater s payment_id payload.amount key payload.reason)
  handle-KeepsLater web id (list_refunds payment_id) =
      answered _ id (λ _. 200) _ (list_refunds-KeepsLater payment_id)
  handle-KeepsLater web id (list_webhook_events page limit status) =
      answered _ id (λ _. 200) _ (list_events-KeepsLater web page limit status)
  handle-KeepsLater web id (get_webhook_event event_id) =
      answered (WebhookService.get_event event_id) id (λ _. 200) (λ e. event (event_response e))
        (get_event-KeepsLater event_id)
  handle-KeepsLater web id (register_webhook_endpoint payload) =
      answered (WebhookService.register_endpoint payload) id (λ _. 201)
        (λ e. endpoint (endpoint_response e)) (register_endpoint-KeepsLater s payload)
  handle-KeepsLater web id (deactivate_webhook_endpoint endpoint_id) =
      answered (WebhookService.deactivate_endpoint endpoint_id) id (λ _. 200)
        (λ e. endpoint (endpoint_response e)) (deactivate_endpoint-KeepsLater s endpoint_id)
  handle-KeepsLater web id health = λ w clean h. h
  handle-KeepsLater web id metrics = metrics-KeepsLater web id
