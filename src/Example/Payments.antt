-- ===== src/Example/Payments.antt =====
-- The payment theorems at a server whose processor authorizes every attempt, and runs of it.
use tru_dev_tasks.Prelude.{
  select, ℕ, ◌≡◌, refl, true, some, none, [], ◌∷◌, arith, ◌==◌, Bool-cases, inl, inr, subst,
}
use tru_dev_tasks.Core.Exceptions.{integrity_error}
use tru_dev_tasks.Example.Server.{server, fresh}
use tru_dev_tasks.Exec.{ok, err}
use tru_dev_tasks.Jobs.Handlers.{
  job_handlers, register_handler, get_handler, parse_id, process_payment, process_payment_except,
}
use tru_dev_tasks.Jobs.Models.{completed, uuid_text}
use tru_dev_tasks.Jobs.Overtaken.{record_answer_overtaken, overtaken-completed}
use tru_dev_tasks.Jobs.Worker.{consume, process, run_handler, finish}
use tru_dev_tasks.Jobs.Queue.{enqueue, enqueue_job}
use tru_dev_tasks.Payments.Machine.{stays}
use tru_dev_tasks.Payments.Models.{Payment, CreatePaymentRequest, PaymentResponse, payment_response}
use tru_dev_tasks.Payments.Service.{
  get_idempotency_record, new_payment, create_new, record_answer, store_answer, answer_record,
  enqueue_process_job, create_payment, confirm_payment, created, is_terminal, get_payment,
}
use tru_dev_tasks.Payments.Create.{create_payment-AllValid}
use tru_dev_tasks.Payments.Idempotency.{create_payment-replays, create_payment-expired_key}
use tru_dev_tasks.Payments.Lifecycle.{IsValid, AllValid}
use mathlib.Core.List.{Pairwise, not-mem-nil}
use tru_dev_tasks.Database.Listing.{IsListing}
use tru_dev_tasks.Payments.Listing.{is_listed, first_pages, list_payments-pages}
use tru_dev_tasks.Payments.Confirm.{confirm_payment-AllValid}
use tru_dev_tasks.Payments.Readback.{Shows, create_payment-get_payment}
use tru_dev_tasks.Payments.Termination.{confirmations, confirmations-terminal}
use tru_dev_tasks.Platform.{Platform, World, with_session}

instance abbrev calm : Platform
calm = server (λ n. 0)

abbrev start : World
start = fresh (λ n. 0)

abbrev pub request : CreatePaymentRequest
request = record {
  customer_id = "c1";
  amount = record { coefficient = 10000; places = 2 };
  currency = "USD";
  metadata = none;
}

abbrev opened : World
opened = (create_payment request "key-1" start).1

opened_queue : opened.dispatch_queue ≡ 4 ∷ []
unfolding create_payment get_idempotency_record create_new record_answer store_answer
    enqueue_process_job enqueue_job enqueue
opened_queue = refl

abbrev pub payment : Payment
payment = new_payment request "key-1" 0 1 2000000

abbrev first_answer : PaymentResponse × ℕ
first_answer = (payment_response payment, created)

abbrev pub with_payment : World
with_payment = record start {
  working = record start.working {
    payments = record { items = payment ∷ []; distinct = (tt, tt) };
  };
}

payment-IsValid : IsValid payment
unfolding new_payment
payment-IsValid = record {
  history = (refl, refl);
  capped = omega arith;
  attempt_left = λ h. omega arith;
  confirmed = λ h. cc;
  unconfirmed = λ h. refl;
  classified = λ h. cc;
  reached = stays;
}

pub with_payment-AllValid : AllValid with_payment.working.payments
unfolding new_payment
with_payment-AllValid i p e = elim (Bool-cases (i == 1)) [
  | inl same ↦ let h : payment ≡ p = cc (rw same at e) in subst IsValid h payment-IsValid
  | inr other ↦ cc (rw other at e)
]

confirm_payment-AllValid_example :
    AllValid (confirm_payment 1 none with_payment).1.committed.payments
confirm_payment-AllValid_example =
    confirm_payment-AllValid 1 none with_payment with_payment-AllValid (λ i p e. cc)

create_payment-AllValid_example :
    AllValid (create_payment request "key-2" with_payment).1.committed.payments
create_payment-AllValid_example =
    create_payment-AllValid request "key-2" with_payment with_payment-AllValid (λ i p e. cc)

create_payment-replays_example :
    with_session (create_payment request "key-1") opened
    ≡ (ok first_answer, record opened { working = opened.committed; reads = 8 })
unfolding create_payment get_idempotency_record create_new record_answer store_answer
    enqueue_process_job enqueue_job enqueue
create_payment-replays_example =
    create_payment-replays request request "key-1" start opened refl refl refl (omega arith)

-- A day later the record of "key-1" has expired.
abbrev day_later : World
day_later = record opened { reads = 90000 }

create_payment-expired_key_example :
    ((create_payment request "key-1" day_later).0 ≡ err integrity_error)
    × ((create_payment request "key-1" day_later).1.committed ≡ day_later.committed)
unfolding create_payment get_idempotency_record create_new record_answer store_answer
    enqueue_process_job enqueue_job enqueue new_payment answer_record
create_payment-expired_key_example =
    create_payment-expired_key request "key-1" day_later (answer_record payment "key-1" 0 6) 1
      payment refl (omega arith) refl refl

list_payments-pages_example :
    IsListing
      (λ p. p.created_at)
      (select (is_listed (some "c1") none) (calm.payments.rows with_payment.working.payments))
      (first_pages 2 1 (some "c1") none with_payment)
unfolding new_payment
list_payments-pages_example =
    list_payments-pages 2 1 (some "c1") none with_payment (omega arith)
      (Pairwise.cons (λ q m. absurd (not-mem-nil m)) Pairwise.nil)

abbrev stocked : World
stocked = record with_payment { committed = with_payment.working }

confirmations-terminal_example :
    (q : Payment) × (calm.payments.get (confirmations 1 3 stocked).committed.payments 1 ≡ some q)
    × (is_terminal q.status ≡ true)
unfolding new_payment
confirmations-terminal_example =
    confirmations-terminal 1 3 stocked payment refl with_payment-AllValid (omega arith)

create_payment-get_payment_example :
    (p : Payment) × ((with_session (get_payment 1) opened).0 ≡ ok p)
    × (payment_response p ≡ payment_response payment)
    × Shows request "key-1" (payment_response payment)
unfolding create_payment get_idempotency_record create_new record_answer store_answer
    enqueue_process_job enqueue_job enqueue new_payment payment_response
create_payment-get_payment_example =
    create_payment-get_payment request "key-1" start opened refl refl refl

abbrev overtaken : World
overtaken = (record_answer_overtaken payment "key-1" 0 with_payment).1

overtaken-returns :
    record_answer_overtaken payment "key-1" 0 with_payment ≡ (ok first_answer, overtaken)
unfolding record_answer_overtaken enqueue_process_job enqueue_job enqueue consume process
    run_handler finish job_handlers register_handler get_handler parse_id process_payment
    process_payment_except confirm_payment get_payment store_answer answer_record
overtaken-returns = refl

overtaken-completed_example :
    (overtaken.committed.payments ≡ with_payment.working.payments)
    × (calm.jobs.get overtaken.jobs 1
        ≡ some (record {
          id = 1;
          job_type = "process_payment";
          payload = ("payment_id", uuid_text 1) ∷ [];
          status = completed;
          attempt_count = 0;
          max_attempts = 3;
          run_at = 0;
          last_error = none;
        }))
    × (overtaken.dispatch_queue ≡ [])
unfolding new_payment
overtaken-completed_example =
    overtaken-completed payment "key-1" 0 with_payment refl (omega arith) refl overtaken-returns
