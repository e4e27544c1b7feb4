-- ===== src/Api/Refunds.antt =====
-- pulsepay/refunds/router.py. `id` is the request id of the context.
use tru_dev_tasks.Prelude.{ℕ, String, Option, map}
use tru_dev_tasks.Api.Envelope.{Reply, envelope}
use tru_dev_tasks.Api.Schemas.{Body, InitiateRefundRequest, refund_response}
use tru_dev_tasks.Exec.{Exec, ◌>>=◌}
use tru_dev_tasks.Platform.{Platform, World}
use tru_dev_tasks.Refunds.Listing as Listing
use tru_dev_tasks.Refunds.Service as Service

module _ ⦃P : Platform⦄ (id : Option String) where
  abbrev pub initiate_refund : ℕ → InitiateRefundRequest → String → Exec World Reply
  initiate_refund payment_id payload idempotency_key = do
    added ← Service.initiate_refund payment_id payload.amount idempotency_key payload.reason
    envelope id 201 (Body.refund (refund_response added))

  abbrev pub list_refunds : ℕ → Exec World Reply
  list_refunds payment_id = do
    found ← Listing.list_refunds payment_id
    envelope id 200 (Body.refunds (map refund_response found))
