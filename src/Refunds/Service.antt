-- ===== src/Refunds/Service.antt =====
-- pulsepay/refunds/service.py: `RefundService`. As in the payment service, `save_refund` stands
-- where the source flushes or commits a changed refund.
use tru_dev_tasks.Prelude.{
  ℕ, ◌+◌, ◌-◌, String, Bool, true, false, not, ◌&&◌, Option, none, some, List, [], ◌∷◌, ltb, leb,
  ◌==◌, str_eq, if◌then◌else◌, select, sum_of,
}
use tru_dev_tasks.Core.Exceptions.{
  integrity_error, insufficient_refundable_amount, invalid_state_transition, payment_not_found,
}
use tru_dev_tasks.Database.Queries.{scalar_one_or_none}
use tru_dev_tasks.Exec.{Exec, pure, raise, raise_if, lift, gets, modify, or_raise, ◌>>=◌, ◌>>◌}
use tru_dev_tasks.Jobs.Models.{Payload, uuid_text, amount_text, text}
use tru_dev_tasks.Jobs.Queue.{enqueue_job}
use tru_dev_tasks.Payments.Models.{Payment, PaymentStatus}
use tru_dev_tasks.Platform.{
  Platform, World, utcnow, random, new_uuid, write_log, refund_ledger, commit,
}
use tru_dev_tasks.Refunds.Models.{Refund, RefundStatus, pending, processing, completed, failed}
use tru_dev_tasks.Webhooks.Dispatcher.{dispatch}

-- `payment.status != PAYMENT_STATUS_SUCCESS`
abbrev pub is_success : PaymentStatus → Bool
is_success PaymentStatus.success = true
is_success _ = false

-- `Refund.status != REFUND_STATUS_FAILED`
abbrev pub is_failed : RefundStatus → Bool
is_failed failed = true
is_failed _ = false

-- `refund.status in {REFUND_STATUS_COMPLETED, REFUND_STATUS_FAILED}`
abbrev pub is_closed : RefundStatus → Bool
is_closed completed = true
is_closed failed = true
is_closed _ = false

-- The dictionary of `_transition`.
abbrev pub allowed : RefundStatus → RefundStatus → Bool
allowed pending processing = true
allowed processing completed = true
allowed processing failed = true
allowed _ _ = false

-- The text of a status.
abbrev pub status_text : RefundStatus → String
status_text pending = "pending"
status_text processing = "processing"
status_text completed = "completed"
status_text failed = "failed"

-- The double 0.95, in units of 2 ^ -53.
abbrev pub complete_below : ℕ
complete_below = 8556839292003942

-- The refunds of a payment that count against its amount.
abbrev pub counts : ℕ → Refund → Bool
counts payment_id r = r.payment_id == payment_id && not (is_failed r.status)

-- `sum(Refund.amount)` over those of the rows.
unfoldable pub refunded : ℕ → List Refund → ℕ
refunded payment_id rows = sum_of (λ r. r.amount) (select (counts payment_id) rows)

-- The row that `initiate_refund` adds.
unfoldable pub new_refund : Payment → ℕ → String → Option String → ℕ → ℕ → Refund
new_refund payment requested_amount idempotency_key reason id created_at = record {
  id = id;
  payment_id = payment.id;
  customer_id = payment.customer_id;
  amount = requested_amount;
  currency = payment.currency;
  status = pending;
  reason = reason;
  idempotency_key = idempotency_key;
  created_at = created_at;
}

-- The payload of the webhook of a completed refund.
abbrev pub completed_payload : Refund → Payload
completed_payload refund =
    ("refund_id", uuid_text refund.id)
    ∷ ("payment_id", uuid_text refund.payment_id)
    ∷ ("customer_id", text refund.customer_id)
    ∷ ("amount", amount_text refund.amount)
    ∷ ("currency", text refund.currency)
    ∷ ("status", text (status_text refund.status))
    ∷ []

module _ ⦃P : Platform⦄ where
  abbrev pub insert_refund : Refund → Exec World (Unit {0})
  insert_refund r = do
    refunds ← gets (λ w. P.refunds.insert w.working.refunds r)
    elim refunds [
      | none ↦ raise integrity_error
      | some inserted ↦ modify (λ w. record w { working = record w.working { refunds = inserted } })
    ]

  abbrev pub save_refund : Refund → Exec World (Unit {0})
  save_refund r = modify λ w. record w {
    working = record w.working { refunds = P.refunds.update w.working.refunds r };
  }

  -- `_write_ledger_entry`
  abbrev pub write_ledger_entry : Refund → String → Exec World (Unit {0})
  write_ledger_entry r event_type =
      write_log (refund_ledger event_type r.id r.payment_id r.amount r.currency)

  -- `_get_refund_by_idempotency_key`
  unfoldable pub get_refund_by_idempotency_key : String → Exec World (Option Refund)
  get_refund_by_idempotency_key key = do
    found ←
        gets (λ w. select (λ r. str_eq r.idempotency_key key) (P.refunds.rows w.working.refunds))
    lift (scalar_one_or_none found)

  -- `_sum_non_failed_refunds`
  unfoldable pub sum_non_failed_refunds : ℕ → Exec World ℕ
  sum_non_failed_refunds payment_id =
      gets λ w. refunded payment_id (P.refunds.rows w.working.refunds)

  -- `_transition`
  unfoldable pub transition : Refund → RefundStatus → Exec World Refund
  transition refund target_status =
      if allowed refund.status target_status
      then pure (record refund { status = target_status })
      else raise invalid_state_transition

  -- `initiate_refund` from the flush of the refund on.
  unfoldable pub add_refund : Payment → ℕ → String → Option String → Exec World Refund
  unfolding new_refund
  add_refund payment requested_amount idempotency_key reason = do
    id ← new_uuid
    created_at ← utcnow
    let refund = new_refund payment requested_amount idempotency_key reason id created_at
    insert_refund refund
    write_ledger_entry refund "refund.initiated"
    enqueue_job "process_refund" (("refund_id", uuid_text id) ∷ []) none
    commit
    pure refund

  abbrev pub requested : Option ℕ → ℕ → ℕ
  requested none remaining_refundable = remaining_refundable
  requested (some amount) remaining_refundable = amount

  -- The tests of `initiate_refund` on a payment that was found, and the amount that they let pass.
  -- `remaining_refundable <= 0` is `payment.amount <= existing_refunded_amount`, and past that test
  -- the subtraction is exact.
  unfoldable pub check_refund : Payment → Option ℕ → Exec World ℕ
  unfolding sum_non_failed_refunds
  check_refund payment amount = do
    raise_if (not (is_success payment.status)) invalid_state_transition
    existing_refunded_amount ← sum_non_failed_refunds payment.id
    raise_if (leb payment.amount existing_refunded_amount) insufficient_refundable_amount
    let requested_amount = requested amount (payment.amount - existing_refunded_amount)
    raise_if (ltb payment.amount (requested_amount + existing_refunded_amount))
        insufficient_refundable_amount
    pure requested_amount

  unfoldable pub refund_payment : Payment → Option ℕ → String → Option String → Exec World Refund
  refund_payment payment amount idempotency_key reason = do
    requested_amount ← check_refund payment amount
    add_refund payment requested_amount idempotency_key reason

  -- `initiate_refund`
  unfoldable pub initiate_refund : ℕ → Option ℕ → String → Option String → Exec World Refund
  initiate_refund payment_id amount idempotency_key reason = do
    existing ← get_refund_by_idempotency_key idempotency_key
    elim existing [
      | some refund ↦ pure refund
      | none ↦ do
        found ← gets (λ w. P.payments.get w.working.payments payment_id)
        payment ← or_raise found payment_not_found
        refund_payment payment amount idempotency_key reason
    ]

  -- The webhook of a completed refund, if its payment is there, and the commit.
  unfoldable pub announce : Refund → Exec World (Unit {0})
  announce refund = do
    payment ← gets (λ w. P.payments.get w.working.payments refund.payment_id)
    elim payment [
      | none ↦ commit
      | some p ↦ do dispatch "refund.completed" (completed_payload refund) p.customer_id; pure tt
    ]

  -- `process_refund` from the draw on.
  unfoldable pub settle : Refund → Exec World Refund
  settle refund = do
    draw ← random
    if ltb draw complete_below
        then (do
          completed_refund ← transition refund completed
          write_ledger_entry completed_refund "refund.completed"
          save_refund completed_refund
          announce completed_refund
          pure completed_refund)
        else (do
          failed_refund ← transition refund failed
          save_refund failed_refund
          commit
          pure failed_refund)

  -- `process_refund`
  unfoldable pub process_refund : ℕ → Exec World Refund
  process_refund refund_id = do
    found ← gets (λ w. P.refunds.get w.working.refunds refund_id)
    refund ← or_raise found payment_not_found
    if is_closed refund.status
        then pure refund
        else do started ← transition refund processing; save_refund started; settle started
