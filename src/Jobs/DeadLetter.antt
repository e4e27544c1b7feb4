-- ===== src/Jobs/DeadLetter.antt =====
-- The job of a payment that was already confirmed or failed when the worker takes it up:
-- `process_payment` has no `except` clause for `PaymentAlreadyProcessed`.
use tru_dev_tasks.Prelude.{ℕ, ◌≤◌, ◌≡◌, refl, ap, ◌∙◌, true, none, some}
use tru_dev_tasks.Core.Exceptions.{payment_already_processed}
use tru_dev_tasks.Exec.{ok, err, Result, pure, ◌>>◌, >>=-err, catch-err}
use tru_dev_tasks.Jobs.Models.{Job, Payload}
use tru_dev_tasks.Jobs.Handlers.{
  parse_id, process_payment, process_payment_except, job_handlers, get_handler, register_handler,
}
use tru_dev_tasks.Jobs.Worker.{call}
use tru_dev_tasks.Jobs.Retries.{AlwaysRaises, HasFailed, rounds, rounds-dead}
use tru_dev_tasks.Payments.Models.{Payment}
use tru_dev_tasks.Payments.Service.{is_terminal, confirm_payment}
use tru_dev_tasks.Payments.Lookup.{confirm_terminal}
use tru_dev_tasks.Platform.{Platform, World, Db}

module _ ⦃P : Platform⦄ where
  process_payment-terminal :
      (payload : Payload) (i : ℕ) (p : Payment) (w : World)
      → parse_id "payment_id" payload ≡ ok i
      → P.payments.get w.committed.payments i ≡ some p
      → is_terminal p.status ≡ true
      → process_payment payload w
        ≡ (err payment_already_processed, record w { working = w.committed })
  unfolding process_payment process_payment_except
  process_payment-terminal payload i p w parsed found terminal = rw parsed (
      ap ends (
        catch-err (confirm_payment i none >> pure tt) (process_payment_except i)
          (>>=-err (confirm_payment i none) _ (confirm_terminal i begun p found none terminal))))
    where
      begun : World
      begun = record w { working = w.committed }

      ends : Result (Unit {0}) × World → Result (Unit {0}) × World
      ends (r, w') = (r, record w' { working = w'.committed })

  pub process_payment-registered : get_handler "process_payment" job_handlers ≡ some process_payment
  unfolding job_handlers get_handler register_handler
  process_payment-registered = refl

  -- While a payment is confirmed or failed, its `process_payment` job raises at every attempt. So
  -- a job that is queued for it ends dead, with `max_attempts` attempts.
  pub process_payment-dead_letters :
      (job : Job) (i : ℕ) (p : Payment) (n : ℕ) (w : World)
      → job.job_type ≡ "process_payment"
      → parse_id "payment_id" job.payload ≡ ok i
      → P.payments.get w.committed.payments i ≡ some p
      → is_terminal p.status ≡ true
      → HasFailed job 0 w
      → job.max_attempts ≤ n
      → HasFailed job job.max_attempts (rounds job_handlers job.id n w)
  process_payment-dead_letters job i p n w kind parsed found terminal at over =
      rounds-dead job_handlers job w.committed raises n w refl at over
    where
      raises : AlwaysRaises job_handlers job w.committed
      raises v same = (
        payment_already_processed,
        record v { working = v.committed },
        ap (λ kind. call (get_handler kind job_handlers) job.payload v) kind
            ∙ ap (λ handler. call handler job.payload v) process_payment-registered
            ∙ process_payment-terminal job.payload i p v parsed
                (ap (λ (db : Db). P.payments.get db.payments i) same ∙ found) terminal,
        refl,
        same,
      )
