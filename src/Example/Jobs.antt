-- ===== src/Example/Jobs.antt =====
-- The theorems on jobs: one of a type that nothing is registered for, and that of a payment
-- which is already confirmed.
use mathlib.Core.List.{Memᴰ}
use tru_dev_tasks.Prelude.{ℕ, ◌≡◌, ◌≤◌, ◌↔◌, ◌⊎◌, refl, none, some, [], ◌∷◌, arith}
use tru_dev_tasks.Core.Exceptions.{runtime_error}
use tru_dev_tasks.Example.Server.{server, fresh}
use tru_dev_tasks.Example.Refunds.{payment}
use tru_dev_tasks.Jobs.Models.{Job, queued, dead, uuid_text}
use tru_dev_tasks.Jobs.Handlers.{get_handler, parse_id, job_handlers}
use tru_dev_tasks.Jobs.Worker.{enqueue_due_jobs}
use tru_dev_tasks.Jobs.Retries.{AlwaysRaises, HasFailed, rounds, rounds-dead}
use tru_dev_tasks.Jobs.DeadLetter.{process_payment-dead_letters}
use tru_dev_tasks.Jobs.Schedule.{enqueue_due_jobs-dispatches}
use tru_dev_tasks.Platform.{Platform, World}

instance abbrev calm : Platform
calm = server (λ n. 0)

abbrev start : World
start = fresh (λ n. 0)

abbrev job : Job
job = record {
  id = 9;
  job_type = "process_payment";
  payload = ("payment_id", uuid_text 1) ∷ [];
  status = queued;
  attempt_count = 0;
  max_attempts = 3;
  run_at = 0;
  last_error = none;
}

abbrev with_jobs : Job → World
with_jobs j = record start { jobs = record { items = j ∷ []; distinct = (tt, tt) } }

new-HasFailed : HasFailed job 0 (with_jobs job)
new-HasFailed = record {
  row = job;
  stored = refl;
  id = refl;
  job_type = refl;
  payload = refl;
  max_attempts = refl;
  attempts = refl;
  status = refl;
}

-- No handler is registered.
unregistered : AlwaysRaises [] job start.committed
unfolding get_handler
unregistered w same = (runtime_error, w, refl, refl, same)

rounds-dead_example : HasFailed job 3 (rounds [] 9 5 (with_jobs job))
rounds-dead_example =
    rounds-dead [] job start.committed unregistered 5 (with_jobs job) refl new-HasFailed
      (omega arith)

-- The payment of the job is confirmed before the worker takes it up.
abbrev confirmed : World
confirmed = record (with_jobs job) {
  committed = record start.committed {
    payments = record { items = payment ∷ []; distinct = (tt, tt) };
  };
}

confirmed-HasFailed : HasFailed job 0 confirmed
confirmed-HasFailed = record {
  row = job;
  stored = refl;
  id = refl;
  job_type = refl;
  payload = refl;
  max_attempts = refl;
  attempts = refl;
  status = refl;
}

process_payment-dead_letters_example : HasFailed job 3 (rounds job_handlers 9 3 confirmed)
unfolding parse_id
process_payment-dead_letters_example =
    process_payment-dead_letters job 1 payment 3 confirmed refl refl refl refl confirmed-HasFailed
      (omega arith)

abbrev buried : Job
buried = record job { status = dead; attempt_count = 3; last_error = some runtime_error }

enqueue_due_jobs-dispatches_example : Memᴰ 9 (enqueue_due_jobs (with_jobs job)).1.dispatch_queue ↔ (
    Memᴰ {A = ℕ} 9 []
    ⊎ ((j : Job) × (calm.jobs.get (with_jobs job).jobs 9 ≡ some j)
        × (j.status ≡ queued)
        × (j.run_at ≤ 0)))
enqueue_due_jobs-dispatches_example = enqueue_due_jobs-dispatches (with_jobs job) 9
