-- ===== src/Core/Exceptions.antt =====
-- pulsepay/core/exceptions.py, with the exceptions that payments/service.py and webhooks/service.py
-- derive there, and those of the libraries that reach the callers. An exception's message is not
-- modelled.
use tru_dev_tasks.Prelude.{ℕ, String, Option, none, some}

pub data Exception : Type 0 where
  payment_not_found : Exception
  payment_already_processed : Exception
  invalid_state_transition : Exception
  idempotency_conflict : Exception
  insufficient_refundable_amount : Exception
  refund_exceeds_original : Exception
  webhook_delivery_failed : Exception
  rate_limit_exceeded : Exception
  job_queue_full : Exception
  -- `SoftPaymentProcessingFailure`, with `attempt_number` and `max_attempts`
  soft_payment_processing_failure : ℕ → ℕ → Exception
  webhook_event_not_found : Exception
  webhook_endpoint_not_found : Exception
  -- no `PulsePayException`: a violated constraint, `scalar_one_or_none` on several rows, and
  -- Python's `ValueError` and `RuntimeError`
  integrity_error : Exception
  multiple_results_found : Exception
  value_error : Exception
  runtime_error : Exception

-- `error_code` of a `PulsePayException`
unfoldable pub error_code : Exception → Option String
error_code payment_not_found = some "PAYMENT_NOT_FOUND"
error_code payment_already_processed = some "PAYMENT_ALREADY_PROCESSED"
error_code invalid_state_transition = some "INVALID_STATE_TRANSITION"
error_code idempotency_conflict = some "IDEMPOTENCY_CONFLICT"
error_code insufficient_refundable_amount = some "INSUFFICIENT_REFUNDABLE_AMOUNT"
error_code refund_exceeds_original = some "REFUND_EXCEEDS_ORIGINAL"
error_code webhook_delivery_failed = some "WEBHOOK_DELIVERY_FAILED"
error_code rate_limit_exceeded = some "RATE_LIMIT_EXCEEDED"
error_code job_queue_full = some "JOB_QUEUE_FULL"
error_code (soft_payment_processing_failure _ _) = some "SOFT_PAYMENT_PROCESSING_FAILURE"
error_code webhook_event_not_found = some "WEBHOOK_EVENT_NOT_FOUND"
error_code webhook_endpoint_not_found = some "WEBHOOK_ENDPOINT_NOT_FOUND"
error_code _ = none

-- `status_code` of a `PulsePayException`
unfoldable pub status_code : Exception → Option ℕ
status_code payment_not_found = some 404
status_code payment_already_processed = some 409
status_code invalid_state_transition = some 409
status_code idempotency_conflict = some 409
status_code insufficient_refundable_amount = some 409
status_code refund_exceeds_original = some 400
status_code webhook_delivery_failed = some 502
status_code rate_limit_exceeded = some 429
status_code job_queue_full = some 503
status_code (soft_payment_processing_failure _ _) = some 503
status_code webhook_event_not_found = some 404
status_code webhook_endpoint_not_found = some 404
status_code _ = none
