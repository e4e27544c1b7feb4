-- ===== src/Api/Routes.antt =====
-- The routes of pulsepay/main.py: those of its own, and those of the routers that it includes.
use tru_dev_tasks.Prelude.{String, Option}
use tru_dev_tasks.Api.Envelope.{Web, Reply}
use tru_dev_tasks.Api.Payments as Payments
use tru_dev_tasks.Api.Refunds as Refunds
use tru_dev_tasks.Api.Schemas.{
  Call, create_payment, confirm_payment, get_payment, list_payments, initiate_refund, list_refunds,
  list_webhook_events, get_webhook_event, register_webhook_endpoint, deactivate_webhook_endpoint,
  health, metrics, healthy, measured,
}
use tru_dev_tasks.Api.Webhooks as Webhooks
use tru_dev_tasks.Exec.{Exec, pure, ◌>>=◌}
use tru_dev_tasks.Observability.Metrics.{compute_metrics}
use tru_dev_tasks.Platform.{Platform, World}

module _ ⦃P : Platform⦄ (web : Web) where
  -- `health`
  abbrev pub answer_health : Exec World Reply
  answer_health = pure (200, healthy web.environment)

module _ ⦃P : Platform⦄ where
  -- `metrics`
  abbrev pub answer_metrics : Exec World Reply
  answer_metrics = do measures ← compute_metrics; pure (200, measured measures)

  -- The handler of a route, in a context with a request id or none.
  unfoldable pub handle : Web → Option String → Call → Exec World Reply
  handle web id (create_payment payload key) = Payments.create_payment web id payload key
  handle web id (confirm_payment payment_id metadata) =
      Payments.confirm_payment web id payment_id metadata
  handle web id (get_payment payment_id) = Payments.get_payment web id payment_id
  handle web id (list_payments page limit customer_id status) =
      Payments.list_payments web id page limit customer_id status
  handle web id (initiate_refund payment_id payload key) =
      Refunds.initiate_refund id payment_id payload key
  handle web id (list_refunds payment_id) = Refunds.list_refunds id payment_id
  handle web id (list_webhook_events page limit status) =
      Webhooks.list_webhook_events web id page limit status
  handle web id (get_webhook_event event_id) = Webhooks.get_webhook_event id event_id
  handle web id (register_webhook_endpoint payload) = Webhooks.register_webhook_endpoint id payload
  handle web id (deactivate_webhook_endpoint endpoint_id) =
      Webhooks.deactivate_webhook_endpoint id endpoint_id
  handle web id health = answer_health web
  handle web id metrics = answer_metrics
