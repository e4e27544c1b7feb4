-- ===== src/Jobs/Uncommitted.antt =====
-- The job of a payment that is not committed, processed: `process_payment` of
-- pulsepay/jobs/handlers.py finds no payment and returns.
use tru_dev_tasks.Prelude.{ℕ, ◌≡◌, refl, ap, ◌∙◌, none, some, [], ◌∷◌, ==_self}
use tru_dev_tasks.Core.Exceptions.{payment_not_found}
use tru_dev_tasks.Exec.{ok, err, Result, pure, ◌>>◌, >>=-err, catch-err}
use tru_dev_tasks.Jobs.DeadLetter.{process_payment-registered}
use tru_dev_tasks.Jobs.Models.{Job, Payload, queued, running, completed, uuid_text}
use tru_dev_tasks.Jobs.Queue.{save_job}
use tru_dev_tasks.Jobs.Handlers.{parse_id, process_payment, process_payment_except, job_handlers}
use tru_dev_tasks.Jobs.Worker.{call, conclude, run_handler, process, finish}
use tru_dev_tasks.Payments.Service.{confirm_payment, get_payment}
use tru_dev_tasks.Platform.{Platform, World}

module _ ⦃P : Platform⦄ where
  confirm_payment-missing :
      (i : ℕ) (w : World)
      → P.payments.get w.working.payments i ≡ none
      → confirm_payment i none w ≡ (err payment_not_found, w)
  unfolding confirm_payment get_payment
  confirm_payment-missing i w absent = rw absent refl

  -- The handler of a payment that is not committed returns, having done nothing.
  process_payment-skips :
      (payload : Payload) (i : ℕ) (w : World)
      → parse_id "payment_id" payload ≡ ok i
      → P.payments.get w.committed.payments i ≡ none
      → process_payment payload w ≡ (ok tt, record w { working = w.committed })
  unfolding process_payment process_payment_except
  process_payment-skips payload i w parsed absent = rw parsed (
      ap ends (
        catch-err (confirm_payment i none >> pure tt) (process_payment_except i)
          (>>=-err (confirm_payment i none) _ (confirm_payment-missing i begun absent))))
    where
      begun : World
      begun = record w { working = w.committed }

      ends : Result (Unit {0}) × World → Result (Unit {0}) × World
      ends (r, w') = (r, record w' { working = w'.committed })

  -- The job that `_enqueue_process_job` makes.
  abbrev pub job_of : ℕ → ℕ → ℕ → Job
  job_of payment_id id run_at = record {
    id = id;
    job_type = "process_payment";
    payload = ("payment_id", uuid_text payment_id) ∷ [];
    status = queued;
    attempt_count = 0;
    max_attempts = 3;
    run_at = run_at;
    last_error = none;
  }

  abbrev pub completed_in : World → Job → World
  completed_in w job = record w {
    jobs =
        P.jobs.update (P.jobs.update w.jobs (record job { status = running }))
          (record job { status = completed; last_error = none });
    working = w.committed;
  }

  pub process-completes :
      (i id at : ℕ) (w : World)
      → P.jobs.get w.jobs id ≡ some (job_of i id at)
      → P.payments.get w.committed.payments i ≡ none
      → process job_handlers id w ≡ (ok tt, completed_in w (job_of i id at))
  unfolding process finish parse_id run_handler
  process-completes i id at w found absent = rw found (ap (conclude started) run)
    where
      started : Job
      started = record (job_of i id at) { status = running }

      begun : World
      begun = (save_job started w).1

      run :
          run_handler job_handlers started begun
          ≡ (ok tt, record begun { working = begun.committed })
      run =
          ap (λ h. call h started.payload begun) process_payment-registered
          ∙ process_payment-skips started.payload i begun refl absent

  -- The job is stored as completed.
  pub completed_in-get :
      (i id at : ℕ) (w : World)
      → P.jobs.get w.jobs id ≡ some (job_of i id at)
      → P.jobs.get (completed_in w (job_of i id at)).jobs id
        ≡ some (record (job_of i id at) { status = completed })
  completed_in-get i id at w found =
      let started : Job = record (job_of i id at) { status = running } in
      let saved : P.jobs.get (P.jobs.update w.jobs started) id ≡ some started =
        P.jobs.update_get w.jobs started found id ∙ rw (==_self id) refl in
      P.jobs.update_get (P.jobs.update w.jobs started) _ saved id ∙ rw (==_self id) refl
