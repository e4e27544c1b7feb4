-- ===== src/Example/Retry.antt =====
-- The first attempt of a payment at a server whose processor fails softly.
use tru_dev_tasks.Prelude.{ℕ, ◌≡◌, refl, subst, some, [], ◌∷◌, ◌==◌, ◌++◌, Bool-cases, inl, inr}
use tru_dev_tasks.Example.Payments.{payment, request}
use tru_dev_tasks.Example.Server.{server, fresh, empty_db}
use tru_dev_tasks.Jobs.FollowUp.{HasRetry, process_payment-HasRetry}
use tru_dev_tasks.Jobs.FollowUp.RetryPayment.{retry_payment-HasRetry}
use tru_dev_tasks.Jobs.Handlers.{
  retry_payment, retry_payment_except, parse_id, process_payment, process_payment_except,
  schedule_retry, next_retry_schedule,
}
use tru_dev_tasks.Jobs.Models.{uuid_text}
use tru_dev_tasks.Jobs.Queue.{enqueue, enqueue_job}
use tru_dev_tasks.Prelude.Round.{half_even}
use tru_dev_tasks.Payments.Create.{new_payment-IsValid}
use tru_dev_tasks.Payments.Lifecycle.{IsValid, AllValid}
use tru_dev_tasks.Payments.Models.{Payment, PaymentStatus, FailureClass}
use tru_dev_tasks.Payments.Service.{
  confirm_payment, get_payment, start_if_pending, run_attempt, soft_failure, new_payment,
}
use tru_dev_tasks.Payments.StateMachine.{transition}
use tru_dev_tasks.Platform.{Platform, World}

abbrev draws : ℕ → ℕ
draws n = 8000000000000000

instance abbrev busy : Platform
busy = server draws

abbrev unprocessed : World
unprocessed = record (fresh draws) {
  committed = record (empty_db draws) {
    payments = record { items = payment ∷ []; distinct = (tt, tt) };
  };
}

unprocessed-AllValid : AllValid unprocessed.committed.payments
unfolding new_payment
unprocessed-AllValid i p e = elim (Bool-cases (i == 1)) [
  | inl same ↦
      let h : payment ≡ p = cc (rw same at e) in
      subst IsValid h (new_payment-IsValid request "key-1" 0 1 2000000)
  | inr other ↦ cc (rw other at e)
]

-- The payment after the attempt.
abbrev attempted : Payment
unfolding new_payment
attempted = record payment {
  status = PaymentStatus.processing;
  state_history =
      payment.state_history
      ++ record {
        state = PaymentStatus.processing;
        timestamp = 0;
        reason = some "processor_started";
      }
        ∷ [];
  retry_count = 1;
  failure_class = some FailureClass.soft;
  failure_reason = some "Temporary upstream processor failure";
}

process_payment-HasRetry_example :
    HasRetry 1 (process_payment (("payment_id", uuid_text 1) ∷ []) unprocessed).1
unfolding process_payment process_payment_except schedule_retry next_retry_schedule parse_id
    confirm_payment get_payment start_if_pending run_attempt soft_failure transition enqueue
    enqueue_job new_payment half_even
process_payment-HasRetry_example =
    process_payment-HasRetry (("payment_id", uuid_text 1) ∷ []) 1 attempted unprocessed refl
      unprocessed-AllValid refl refl refl

retry_payment-HasRetry_example :
    HasRetry 1 (retry_payment (("payment_id", uuid_text 1) ∷ []) unprocessed).1
unfolding retry_payment retry_payment_except schedule_retry next_retry_schedule parse_id
    confirm_payment get_payment start_if_pending run_attempt soft_failure transition enqueue
    enqueue_job new_payment half_even
retry_payment-HasRetry_example =
    retry_payment-HasRetry (("payment_id", uuid_text 1) ∷ []) 1 attempted unprocessed refl
      unprocessed-AllValid refl refl refl
