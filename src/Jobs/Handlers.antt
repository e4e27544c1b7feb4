-- ===== src/Jobs/Handlers.antt =====
-- pulsepay/jobs/handlers.py. The log lines that only report a handler's progress are left out.
use tru_dev_tasks.Prelude.{
  ℕ, ◌+◌, ◌*◌, ◌^◌, String, Option, none, some, List, [], ◌∷◌, leb, str_eq, if◌then◌else◌,
}
use tru_dev_tasks.Core.Exceptions.{
  Exception, value_error, payment_not_found, soft_payment_processing_failure,
}
use tru_dev_tasks.Exec.{Exec, Result, ok, err, pure, raise, lift, catch, ◌>>=◌, ◌>>◌}
use tru_dev_tasks.Jobs.Models.{Payload, Value, uuid_text, number}
use tru_dev_tasks.Jobs.Queue.{enqueue_job}
use tru_dev_tasks.Payments.Service.{get_payment, confirm_payment, mark_payment_failed_max_retries}
use tru_dev_tasks.Platform.{Platform, World, utcnow, random, with_session}
use tru_dev_tasks.Refunds.Service as RefundService
use tru_dev_tasks.Webhooks.Dispatcher.{jitter, deliver}

-- `payload.get(key)`, its test and `UUID(...)`: `_parse_payment_id`, `_parse_event_id` and
-- `_parse_refund_id`, each with its own key.
abbrev uuid_of : Value → Result ℕ
uuid_of (uuid_text id) = ok id
uuid_of _ = err value_error

unfoldable pub parse_id : String → Payload → Result ℕ
parse_id key [] = err value_error
parse_id key ((k, v) ∷ rest) = if str_eq k key then uuid_of v else parse_id key rest

module _ ⦃P : Platform⦄ where
  abbrev pub JobHandler : Type 0
  JobHandler = Payload → Exec World (Unit {0})

  -- `_next_retry_schedule`: the time of the next run
  unfoldable pub next_retry_schedule : ℕ → Exec World ℕ
  unfolding jitter
  next_retry_schedule retry_count = do
    draw ← random
    now ← utcnow
    pure (now + (2 ^ retry_count * 1000000 + jitter draw))

  -- The job that both payment handlers leave behind after a soft failure.
  unfoldable pub schedule_retry : ℕ → ℕ → Exec World (Unit {0})
  schedule_retry payment_id retry_count = do
    next_run_at ← next_retry_schedule retry_count
    enqueue_job "retry_payment"
        (("payment_id", uuid_text payment_id)
          ∷ ("attempt_number", number retry_count)
          ∷ ("next_run_at", number next_run_at)
          ∷ [])
        (some next_run_at)
    pure tt

  -- The `except` clauses of `process_payment`.
  unfoldable pub process_payment_except : ℕ → Exception → Exec World (Unit {0})
  process_payment_except payment_id (soft_payment_processing_failure attempt cap) = do
    payment ← get_payment payment_id
    schedule_retry payment_id payment.retry_count
  process_payment_except payment_id payment_not_found = pure tt
  process_payment_except payment_id e = raise e

  unfoldable pub process_payment : JobHandler
  process_payment payload = do
    payment_id ← lift (parse_id "payment_id" payload)
    with_session
        (catch (confirm_payment payment_id none >> pure tt) (process_payment_except payment_id))

  -- The `except` clause of `retry_payment`.
  unfoldable pub retry_payment_except : ℕ → Exception → Exec World (Unit {0})
  retry_payment_except payment_id (soft_payment_processing_failure attempt cap) = do
    updated_payment ← get_payment payment_id
    if leb P.max_payment_retry_attempts updated_payment.retry_count
        then mark_payment_failed_max_retries payment_id >> pure tt
        else schedule_retry payment_id updated_payment.retry_count
  retry_payment_except payment_id e = raise e

  unfoldable pub retry_payment : JobHandler
  retry_payment payload = do
    payment_id ← lift (parse_id "payment_id" payload)
    with_session (do
      payment ← get_payment payment_id
      if leb P.max_payment_retry_attempts payment.retry_count
          then mark_payment_failed_max_retries payment_id >> pure tt
          else catch (confirm_payment payment_id none >> pure tt) (retry_payment_except payment_id))

  unfoldable pub deliver_webhook : JobHandler
  deliver_webhook payload = do
    event_id ← lift (parse_id "event_id" payload)
    with_session (deliver event_id >> pure tt)

  unfoldable pub process_refund : JobHandler
  process_refund payload = do
    refund_id ← lift (parse_id "refund_id" payload)
    with_session (RefundService.process_refund refund_id >> pure tt)

  -- `_job_handlers`, `register_handler` and `get_handler`
  abbrev pub Handlers : Type 0
  Handlers = List (String × JobHandler)

  unfoldable pub register_handler : String → JobHandler → Handlers → Handlers
  register_handler job_type fn [] = (job_type, fn) ∷ []
  register_handler job_type fn ((k, f) ∷ rest) =
      if str_eq k job_type then (k, fn) ∷ rest else (k, f) ∷ register_handler job_type fn rest

  unfoldable pub get_handler : String → Handlers → Option JobHandler
  get_handler job_type [] = none
  get_handler job_type ((k, f) ∷ rest) =
      if str_eq k job_type then some f else get_handler job_type rest

  -- The registrations at the end of the module.
  unfoldable pub job_handlers : Handlers
  unfolding register_handler
  job_handlers = register_handler "process_refund" process_refund (
      register_handler "deliver_webhook" deliver_webhook (
        register_handler "retry_payment" retry_payment
          (register_handler "process_payment" process_payment [])))
