-- ===== src/Payments/Service/Creation.antt =====
-- pulsepay/payments/service.py: `create_payment`.
use tru_dev_tasks.Prelude.{ℕ, String, none, some, [], ◌∷◌, ltb, if◌then◌else◌}
use tru_dev_tasks.Core.Exceptions.{idempotency_conflict}
use tru_dev_tasks.Exec.{Exec, pure, raise, ◌>>=◌, ◌>>◌}
use tru_dev_tasks.Jobs.Models.{uuid_text}
use tru_dev_tasks.Jobs.Queue.{enqueue_job}
use tru_dev_tasks.Payments.Models.{
  Payment, PaymentResponse, payment_response, IdempotencyRecord, CreatePaymentRequest,
}
use tru_dev_tasks.Platform.{Platform, World, utcnow, new_uuid, commit}
use tru_dev_tasks.Payments.Service.Rows.{
  created, new_payment, answer_record, insert_payment, insert_record, delete_record,
  get_idempotency_record,
}

module _ ⦃P : Platform⦄ where
  -- `_enqueue_process_job`
  unfoldable pub enqueue_process_job : ℕ → Exec World (Unit {0})
  enqueue_process_job payment_id = do
    enqueue_job "process_payment" (("payment_id", uuid_text payment_id) ∷ []) none
    pure tt

  -- `create_payment` from the flush of the payment on.
  unfoldable pub store_answer : Payment → String → ℕ → Exec World (PaymentResponse × ℕ)
  unfolding answer_record
  store_answer payment idempotency_key now = do
    record_id ← new_uuid
    insert_record (answer_record payment idempotency_key now record_id)
    commit
    pure (payment_response payment, created)

  unfoldable pub record_answer : Payment → String → ℕ → Exec World (PaymentResponse × ℕ)
  record_answer payment idempotency_key now = do
    enqueue_process_job payment.id
    store_answer payment idempotency_key now

  -- What `create_payment` does once no live record answers the key.
  unfoldable pub create_new : CreatePaymentRequest → String → ℕ → Exec World (PaymentResponse × ℕ)
  create_new request idempotency_key now = do
    id ← new_uuid
    created_at ← utcnow
    let payment = new_payment request idempotency_key now id created_at
    insert_payment payment
    record_answer payment idempotency_key now

  -- The stored answer of a live record.
  abbrev pub replay : IdempotencyRecord → Exec World (PaymentResponse × ℕ)
  replay existing = elim existing.response_body [
    | none ↦ raise idempotency_conflict
    | some payload ↦ pure (payload, existing.status_code)
  ]

  -- `create_payment`
  unfoldable pub create_payment : CreatePaymentRequest → String → Exec World (PaymentResponse × ℕ)
  create_payment request idempotency_key = do
    now ← utcnow
    existing_record ← get_idempotency_record idempotency_key
    elim existing_record [
      | none ↦ create_new request idempotency_key now
      | some existing ↦
          if ltb now existing.expires_at
          then replay existing
          else (do delete_record existing; create_new request idempotency_key now)
    ]
