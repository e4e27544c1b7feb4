-- ===== src/Payments/Service/Confirmation.antt =====
-- pulsepay/payments/service.py: `confirm_payment` and `mark_payment_failed_max_retries`. A payment
-- that a method changes is the value that it goes on with.
use tru_dev_tasks.Prelude.{ℕ, ◌+◌, String, Option, none, some, ltb, leb, if◌then◌else◌}
use tru_dev_tasks.Core.Exceptions.{payment_already_processed, soft_payment_processing_failure}
use tru_dev_tasks.Exec.{Exec, pure, raise, ◌>>=◌, ◌>>◌}
use tru_dev_tasks.Payments.Models.{Payment, processing, success, failed, soft, hard}
use tru_dev_tasks.Payments.StateMachine.{transition}
use tru_dev_tasks.Platform.{
  Platform, World, utcnow, random, write_log, payment_ledger, webhook_emitted, commit,
}
use tru_dev_tasks.Payments.Service.Rows.{
  is_terminal, is_pending, success_below, soft_below, save_payment, get_payment,
}

module _ ⦃P : Platform⦄ where
  -- `_write_ledger_entry` and `_emit_webhook_event`
  abbrev pub write_ledger_entry : Payment → Exec World (Unit {0})
  write_ledger_entry p = write_log (payment_ledger p.id p.amount p.currency)

  abbrev pub emit_webhook_event : Payment → String → Exec World (Unit {0})
  emit_webhook_event p event_type = write_log (webhook_emitted event_type p.id)

  -- `mark_payment_failed_max_retries`
  unfoldable pub start_if_pending : Payment → Exec World Payment
  start_if_pending payment =
      if is_pending payment.status
      then transition payment processing (some "processor_started")
      else pure payment

  unfoldable pub fail_started : Payment → Exec World Payment
  fail_started started = do
    stopped ← transition started failed (some "max_retries_exceeded")
    let marked : Payment = record stopped {
      failure_class = some hard;
      failure_reason = some "max_retries_exceeded";
    }
    emit_webhook_event marked "payment.failed"
    save_payment marked
    commit
    pure marked

  unfoldable pub mark_payment_failed_max_retries : ℕ → Exec World Payment
  mark_payment_failed_max_retries payment_id = do
    payment ← get_payment payment_id
    elim payment.status [
      | failed ↦ pure payment
      | success ↦ raise payment_already_processed
      | _ ↦ start_if_pending payment >>= fail_started
    ]

  -- The three outcomes of `confirm_payment`, after the attempt has been counted and flushed.
  unfoldable pub authorize : Payment → Exec World Payment
  authorize attempted = do
    authorized ← transition attempted success (some "processor_authorized")
    now ← utcnow
    let confirmed : Payment = record authorized {
      failure_reason = none;
      failure_class = none;
      confirmed_at = some now;
    }
    write_ledger_entry confirmed
    emit_webhook_event confirmed "payment.succeeded"
    save_payment confirmed
    commit
    pure confirmed

  unfoldable pub soft_failure : ℕ → Payment → Exec World Payment
  soft_failure payment_id attempted = do
    save_payment (record attempted {
      failure_class = some soft;
      failure_reason = some "Temporary upstream processor failure";
    })
    commit
    if leb P.max_payment_retry_attempts attempted.retry_count
        then mark_payment_failed_max_retries payment_id
        else raise
            (soft_payment_processing_failure attempted.retry_count P.max_payment_retry_attempts)

  unfoldable pub decline : Payment → Exec World Payment
  decline attempted = do
    declined ← transition attempted failed (some "processor_hard_failure")
    let marked : Payment = record declined {
      failure_class = some hard;
      failure_reason = some "Processor declined the payment";
    }
    save_payment marked
    commit
    pure marked

  abbrev pub metadata_or : Option String → Option String → Option String
  metadata_or none old = old
  metadata_or (some metadata) old = some metadata

  -- `confirm_payment` from the count of the attempt on.
  unfoldable pub run_attempt : ℕ → Option String → Payment → Exec World Payment
  run_attempt payment_id metadata started = do
    let attempted : Payment = record started {
      payment_metadata = metadata_or metadata started.payment_metadata;
      retry_count = started.retry_count + 1;
    }
    save_payment attempted
    outcome ← random
    if ltb outcome success_below
        then authorize attempted
        else if ltb outcome soft_below
        then soft_failure payment_id attempted
        else decline attempted

  -- `confirm_payment`
  unfoldable pub confirm_payment : ℕ → Option String → Exec World Payment
  confirm_payment payment_id metadata = do
    payment ← get_payment payment_id
    if is_terminal payment.status
        then raise payment_already_processed
        else do started ← start_if_pending payment; run_attempt payment_id metadata started
