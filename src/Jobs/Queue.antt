-- ===== src/Jobs/Queue.antt =====
-- pulsepay/jobs/queue.py: `StormQueue`. Every call opens a session of its own and commits it.
-- The queue is taken as initialised (`set_storm_queue` runs before the first request: Main).
use tru_dev_tasks.Prelude.{ℕ, String, Option, none, some, [], ◌∷◌, ◌++◌, leb, if◌then◌else◌}
use tru_dev_tasks.Core.Exceptions.{integrity_error, value_error}
use tru_dev_tasks.Exec.{Exec, pure, raise, gets, modify, or_raise, ◌>>=◌, ◌>>◌}
use tru_dev_tasks.Jobs.Models.{Job, queued, Payload}
use tru_dev_tasks.Platform.{Platform, World, utcnow, new_uuid}

module _ ⦃P : Platform⦄ where
  -- `await self._dispatch_queue.put(job_id)`
  abbrev pub put_dispatch : ℕ → Exec World (Unit {0})
  put_dispatch id = modify λ w. record w { dispatch_queue = w.dispatch_queue ++ id ∷ [] }

  -- `session.add(job); await session.commit()`
  abbrev pub insert_job : Job → Exec World (Unit {0})
  insert_job job = do
    jobs ← gets (λ w. P.jobs.insert w.jobs job)
    elim jobs [
      | none ↦ raise integrity_error
      | some new_jobs ↦ modify (λ w. record w { jobs = new_jobs })
    ]

  -- the commit of a changed job
  abbrev pub save_job : Job → Exec World (Unit {0})
  save_job job = modify λ w. record w { jobs = P.jobs.update w.jobs job }

  abbrev effective : Option ℕ → Exec World ℕ
  effective (some t) = pure t
  effective none = utcnow

  -- `StormQueue.enqueue`
  unfoldable pub enqueue : String → Payload → Option ℕ → ℕ → Exec World Job
  enqueue job_type payload run_at max_attempts = do
    effective_run_at ← effective run_at
    id ← new_uuid
    let job : Job = record {
      id = id;
      job_type = job_type;
      payload = payload;
      status = queued;
      attempt_count = 0;
      max_attempts = max_attempts;
      run_at = effective_run_at;
      last_error = none;
    }
    insert_job job
    now ← utcnow
    if leb effective_run_at now then (do put_dispatch id; pure job) else pure job

  -- `enqueue_job`, with its default for `max_attempts`
  unfoldable pub enqueue_job : String → Payload → Option ℕ → Exec World Job
  enqueue_job job_type payload run_at = enqueue job_type payload run_at 3

  -- `StormQueue.retry_dead_job`
  unfoldable pub retry_dead_job : ℕ → Exec World Job
  retry_dead_job id = do
    found ← gets (λ w. P.jobs.get w.jobs id)
    job ← or_raise found value_error
    now ← utcnow
    let retried : Job = record job {
      status = queued;
      last_error = none;
      attempt_count = 0;
      run_at = now;
    }
    save_job retried
    put_dispatch id
    pure retried
