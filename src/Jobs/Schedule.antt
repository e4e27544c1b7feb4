-- ===== src/Jobs/Schedule.antt =====
-- What puts a job in the dispatch queue, and with how many attempts left.
use mathlib.Core.List.{Memᴰ, map}
use mathlib.Core.List.Memᴰ
use tru_dev_tasks.Database.Queries.{mem_select, select_mem}
use tru_dev_tasks.Prelude.{
  ℕ, ◌≤◌, ◌≡◌, refl, sym, ap, subst, ◌∙◌, ◌↔◌, ◌⊎◌, inl, inr, true, none, some, [], ◌∷◌, ◌++◌,
  lt→ltb, ==_self, select, arith,
}
use tru_dev_tasks.Jobs.Models.{Job, queued}
use tru_dev_tasks.Jobs.Queue.{retry_dead_job}
use tru_dev_tasks.Jobs.Worker.{is_due, enqueue_due_jobs}
use tru_dev_tasks.Jobs.Retries.{HasFailed}
use tru_dev_tasks.Platform.{Platform, World}

module _ ⦃P : Platform⦄ where
  -- A retried job is queued as if it had never failed, and is in the dispatch queue.
  pub retry_dead_job-HasFailed :
      (job : Job) (w : World)
      → P.jobs.get w.jobs job.id ≡ some job
      → 1 ≤ job.max_attempts
      → HasFailed job 0 (retry_dead_job job.id w).1
        × ((retry_dead_job job.id w).1.dispatch_queue ≡ w.dispatch_queue ++ job.id ∷ [])
  unfolding retry_dead_job
  retry_dead_job-HasFailed job w stored some_attempt = (
    record {
      row = record job {
        status = queued;
        last_error = none;
        attempt_count = 0;
        run_at = P.time w.reads;
      };
      stored = rw stored (P.jobs.update_get w.jobs _ stored job.id ∙ rw (==_self job.id) refl);
      id = refl;
      job_type = refl;
      payload = refl;
      max_attempts = refl;
      attempts = refl;
      status = rw (lt→ltb 0 job.max_attempts some_attempt) refl;
    },
    rw stored refl,
  )

  is_due-inv :
      (now : ℕ) (job : Job) → is_due now job ≡ true → (job.status ≡ queued) × (job.run_at ≤ now)
  is_due-inv now job e = ground arith

  is_due_of : (now : ℕ) (job : Job) → job.status ≡ queued → job.run_at ≤ now → is_due now job ≡ true
  is_due_of now job q t = ground arith

  -- A round of the poller puts exactly the queued jobs whose time has come in the dispatch queue,
  -- behind what is there.
  pub enqueue_due_jobs-dispatches :
      (w : World) (i : ℕ)
      → Memᴰ i (enqueue_due_jobs w).1.dispatch_queue ↔ (
          Memᴰ i w.dispatch_queue
          ⊎ ((job : Job) × (P.jobs.get w.jobs i ≡ some job)
              × (job.status ≡ queued)
              × (job.run_at ≤ P.time w.reads)))
  unfolding enqueue_due_jobs
  enqueue_due_jobs-dispatches w i = (queued_before, queued_after)
    where
      now : ℕ
      now = P.time w.reads

      IsWaiting : Type 0
      IsWaiting =
          (job : Job) × (P.jobs.get w.jobs i ≡ some job)
          × (job.status ≡ queued)
          × (job.run_at ≤ now)

      from_row :
          (job : Job) → Memᴰ job (select (is_due now) (P.jobs.rows w.jobs)) → i ≡ job.id → IsWaiting
      from_row job m e =
          let (present, due) = mem_select (is_due now) job (P.jobs.rows w.jobs) m in
          (
            job,
            ap (P.jobs.get w.jobs) e ∙ P.jobs.rows_get present,
            (is_due-inv now job due).0,
            (is_due-inv now job due).1,
          )

      queued_before :
          Memᴰ i (enqueue_due_jobs w).1.dispatch_queue → Memᴰ i w.dispatch_queue ⊎ IsWaiting
      queued_before m = elim (Memᴰ.append_cases w.dispatch_queue m) [
        | inl there ↦ inl there
        | inr new ↦
            let (job, from, e) =
              Memᴰ.of_map (λ (job : Job). job.id) (select (is_due now) (P.jobs.rows w.jobs)) new in
            inr (from_row job from (sym e))
      ]

      queued_after :
          Memᴰ i w.dispatch_queue ⊎ IsWaiting → Memᴰ i (enqueue_due_jobs w).1.dispatch_queue
      queued_after (inl there) =
          Memᴰ.append_left (map (λ (job : Job). job.id) (select (is_due now) (P.jobs.rows w.jobs)))
            there
      queued_after (inr (job, found, q, t)) = Memᴰ.append_right w.dispatch_queue (
          subst
            (λ k. Memᴰ k (map (λ (job : Job). job.id) (select (is_due now) (P.jobs.rows w.jobs))))
            (P.jobs.get_key found)
            (Memᴰ.map (λ (job : Job). job.id)
              (select_mem (is_due now) job (P.jobs.rows w.jobs) (P.jobs.get_rows found)
                (is_due_of now job q t))))
