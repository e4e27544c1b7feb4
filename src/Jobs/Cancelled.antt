-- ===== src/Jobs/Cancelled.antt =====
-- A job whose processing is cancelled: `JobWorker.stop` in pulsepay/jobs/worker.py ends the
-- consumer while a handler runs, and a process that ends does the same. Nothing catches
-- `CancelledError`, so the job stays as `_process` has committed it before the handler.
use mathlib.Core.List.{Memᴰ}
use tru_dev_tasks.Prelude.{
  ℕ, zero, suc, ◌≡◌, ◌≢◌, refl, sym, ap, subst, ◌∙◌, some-injective, false, none, some, inl, inr,
  ==_self, if◌then◌else◌,
}
use tru_dev_tasks.Jobs.Models.{Job, queued, running}
use tru_dev_tasks.Jobs.Queue.{save_job}
use tru_dev_tasks.Jobs.Schedule.{enqueue_due_jobs-dispatches}
use tru_dev_tasks.Jobs.Worker.{enqueue_due_jobs, is_done}
use tru_dev_tasks.Platform.{Platform, World}

running≢queued : running ≢ queued
running≢queued e = cc e

module _ ⦃P : Platform⦄ where
  -- `_process` of a job, cancelled in the handler; `effect` is what the handler has done by then.
  unfoldable pub process_cancelled : (World → World) → ℕ → World → World
  process_cancelled effect job_id w = elim (P.jobs.get w.jobs job_id) [
    | none ↦ w
    | some job ↦
        if is_done job.status then w else effect (save_job (record job { status = running }) w).1
  ]

  -- Rounds of the poller.
  unfoldable pub polls : ℕ → World → World
  polls zero w = w
  polls (suc n) w = polls n (enqueue_due_jobs w).1

  polls_keep_jobs : (n : ℕ) (w : World) → (polls n w).jobs ≡ w.jobs
  unfolding polls enqueue_due_jobs
  polls_keep_jobs zero w = refl
  polls_keep_jobs (suc n) w = polls_keep_jobs n _

  polls_skip_running :
      (n i : ℕ) (job : Job) (w : World)
      → P.jobs.get w.jobs i ≡ some job
      → job.status ≡ running
      → Memᴰ i (polls n w).dispatch_queue
      → Memᴰ i w.dispatch_queue
  unfolding polls enqueue_due_jobs
  polls_skip_running zero i job w found up m = m
  polls_skip_running (suc n) i job w found up m =
      elim ((enqueue_due_jobs-dispatches w i).0
        (polls_skip_running n i job (enqueue_due_jobs w).1 found up m)) [
          | inl before ↦ before
          | inr (other, found', waiting, due) ↦ absurd (
              running≢queued (
                sym up
                ∙ ap (λ (j : Job). j.status) (some-injective (sym found ∙ found'))
                ∙ waiting))
        ]

  -- A job that was taken from the dispatch queue and is cancelled in its handler stays `running`
  -- and, if the handler has not touched it, is not dispatched by any number of rounds of the
  -- poller.
  pub process_cancelled-strands :
      (effect : World → World) (n : ℕ) (job : Job) (w : World)
      → P.jobs.get w.jobs job.id ≡ some job
      → is_done job.status ≡ false
      → ¬ Memᴰ job.id w.dispatch_queue
      → ((v : World) → P.jobs.get (effect v).jobs job.id ≡ P.jobs.get v.jobs job.id)
      → ((v : World) → Memᴰ job.id (effect v).dispatch_queue → Memᴰ job.id v.dispatch_queue)
      → let w' = polls n (process_cancelled effect job.id w) in
        (P.jobs.get w'.jobs job.id ≡ some (record job { status = running }))
        × (¬ Memᴰ job.id w'.dispatch_queue)
  unfolding process_cancelled
  process_cancelled-strands effect n job w found todo taken keeps queue =
      let v : World = (save_job (record job { status = running }) w).1 in
      let saved : P.jobs.get (effect v).jobs job.id ≡ some (record job { status = running }) =
        keeps v
        ∙ P.jobs.update_get w.jobs (record job { status = running }) found job.id
        ∙ rw (==_self job.id) refl in
      let cut : process_cancelled effect job.id w ≡ effect v =
        rw (process_cancelled, found, todo) refl in
      subst
        (λ u.
          (P.jobs.get (polls n u).jobs job.id ≡ some (record job { status = running }))
          × (¬ Memᴰ job.id (polls n u).dispatch_queue))
        (sym cut)
        (
          ap (λ t. P.jobs.get t job.id) (polls_keep_jobs n (effect v)) ∙ saved,
          λ m. taken (queue v (polls_skip_running n job.id _ (effect v) saved refl m)),
        )
