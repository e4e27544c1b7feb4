-- ===== src/Api/Payments.antt =====
-- pulsepay/payments/router.py. `id` is the request id of the context.
use tru_dev_tasks.Prelude.{ℕ, String, Option, map}
use tru_dev_tasks.Api.Envelope.{Web, Reply, envelope}
use tru_dev_tasks.Api.Schemas.{Body}
use tru_dev_tasks.Exec.{Exec, ◌>>=◌}
use tru_dev_tasks.Payments.Listing as Listing
use tru_dev_tasks.Payments.Models.{CreatePaymentRequest, payment_response}
use tru_dev_tasks.Payments.Service as Service
use tru_dev_tasks.Platform.{Platform, World}

module _ ⦃P : Platform⦄ (web : Web) (id : Option String) where
  -- `validate_currency` runs before the handler.
  abbrev pub create_payment : CreatePaymentRequest → String → Exec World Reply
  create_payment payload idempotency_key = do
    answer ←
        Service.create_payment (record payload { currency = web.upper payload.currency })
          idempotency_key
    envelope id answer.1 (Body.payment answer.0)

  abbrev pub confirm_payment : ℕ → Option String → Exec World Reply
  confirm_payment payment_id metadata = do
    confirmed ← Service.confirm_payment payment_id metadata
    envelope id 200 (Body.payment (payment_response confirmed))

  abbrev pub get_payment : ℕ → Exec World Reply
  get_payment payment_id = do
    found ← Service.get_payment payment_id
    envelope id 200 (Body.payment (payment_response found))

  abbrev pub list_payments : ℕ → ℕ → Option String → Option String → Exec World Reply
  list_payments page limit customer_id status_filter = do
    found ← Listing.list_payments page limit customer_id status_filter
    envelope id 200 (Body.payments (map payment_response found.0) page limit found.1)
