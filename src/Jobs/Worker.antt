-- ===== src/Jobs/Worker.antt =====
-- pulsepay/jobs/worker.py: `JobWorker`. A round of the consumer and a round of the poller are
-- functions; starting and stopping the two tasks is in Jobs.Tasks. The registry of handlers is an
-- argument.
use tru_dev_tasks.Prelude.{
  ℕ, ◌+◌, Bool, true, false, ◌&&◌, Option, none, some, [], ◌∷◌, ◌++◌, map, ltb, leb, if◌then◌else◌,
  select,
}
use tru_dev_tasks.Core.Exceptions.{Exception, runtime_error}
use tru_dev_tasks.Exec.{Exec, Result, ok, err, pure, raise, gets, modify, ◌>>=◌, ◌>>◌}
use tru_dev_tasks.Jobs.Models.{Job, JobStatus, queued, running, completed, failed, dead, Payload}
use tru_dev_tasks.Jobs.Queue.{put_dispatch, save_job}
use tru_dev_tasks.Jobs.Handlers.{Handlers, JobHandler, get_handler}
use tru_dev_tasks.Platform.{Platform, World, utcnow}

-- `job.status in {JOB_STATUS_COMPLETED, JOB_STATUS_DEAD}`
abbrev pub is_done : JobStatus → Bool
is_done completed = true
is_done dead = true
is_done _ = false

-- The filter of `_enqueue_due_jobs`.
abbrev pub is_queued : JobStatus → Bool
is_queued queued = true
is_queued _ = false

abbrev pub is_due : ℕ → Job → Bool
is_due now job = is_queued job.status && leb job.run_at now

module _ ⦃P : Platform⦄ where
  abbrev pub call : Option JobHandler → Payload → Exec World (Unit {0})
  call none payload = raise runtime_error
  call (some handler) payload = handler payload

  -- The `try` block of `_process`, up to the handler's return.
  unfoldable pub run_handler : Handlers → Job → Exec World (Unit {0})
  run_handler handlers job = call (get_handler job.job_type handlers) job.payload

  -- The rest of the `try` block.
  unfoldable pub finish : Job → Exec World (Unit {0})
  finish job = save_job (record job { status = completed; last_error = none })

  -- The `except` block of `_process`.
  unfoldable pub fail : Job → Exception → Exec World (Unit {0})
  fail job e =
      let attempted : Job = record job {
        attempt_count = job.attempt_count + 1;
        last_error = some e;
        status = failed;
      } in
      if ltb attempted.attempt_count attempted.max_attempts
      then (do
        now ← utcnow
        save_job (record attempted { status = queued; run_at = now })
        put_dispatch attempted.id)
      else save_job (record attempted { status = dead })

  -- How `_process` goes on after the handler.
  abbrev pub conclude : Job → Result (Unit {0}) × World → Result (Unit {0}) × World
  conclude job (ok u, w) = finish job w
  conclude job (err e, w) = fail job e w

  abbrev pub attempt : Handlers → Job → Exec World (Unit {0})
  attempt handlers job w = conclude job (run_handler handlers job w)

  -- `_process`
  unfoldable pub process : Handlers → ℕ → Exec World (Unit {0})
  process handlers job_id = do
    found ← gets (λ w. P.jobs.get w.jobs job_id)
    elim found [
      | none ↦ pure tt
      | some job ↦ if is_done job.status then pure tt else do
        let started : Job = record job { status = running }
        save_job started
        attempt handlers started
    ]

  -- A round of `_consume_loop` that finds a job in the dispatch queue.
  unfoldable pub consume : Handlers → Exec World (Unit {0})
  consume handlers w = elim w.dispatch_queue [
    | [] ↦ (ok tt, w)
    | job_id ∷ rest ↦ process handlers job_id (record w { dispatch_queue = rest })
  ]

  -- `_enqueue_due_jobs`
  unfoldable pub enqueue_due_jobs : Exec World (Unit {0})
  enqueue_due_jobs = do
    now ← utcnow
    due ← gets (λ w. select (is_due now) (P.jobs.rows w.jobs))
    modify (λ w. record w { dispatch_queue = w.dispatch_queue ++ map (λ job. job.id) due })
