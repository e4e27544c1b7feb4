-- ===== src/Jobs/Frame.antt =====
-- What enqueuing a job leaves alone: the sessions of the services, and their log.
use tru_dev_tasks.Prelude.{sym, subst, ℕ, ◌≡◌, ◌⊎◌, String, Option, arith}
use tru_dev_tasks.Exec.{ok, pure, ◌>>◌}
use tru_dev_tasks.Jobs.Models.{Payload}
use tru_dev_tasks.Jobs.Queue.{enqueue, enqueue_job}
use tru_dev_tasks.Exec.Preserves.{Preserves}
use tru_dev_tasks.Platform.{Platform, World, Db, commit}

module _ ⦃P : Platform⦄ where
  pub record SameSessions (w w' : World) : Type 0 where
    pub committed : w'.committed ≡ w.committed
    pub working : w'.working ≡ w.working
    pub log : w'.log ≡ w.log

  pub enqueue_job-SameSessions :
      (job_type : String) (payload : Payload) (run_at : Option ℕ) (w : World)
      → SameSessions w (enqueue_job job_type payload run_at w).1
  unfolding enqueue_job enqueue
  enqueue_job-SameSessions job_type payload run_at w = ground arith

  -- A session that enqueues a job and commits has committed what it saw before, or nothing.
  pub enqueue_then_commit :
      (job_type : String) (payload : Payload) (run_at : Option ℕ) {A : Type 0} (a : A) (w : World)
      → (((enqueue_job job_type payload run_at >> (commit >> pure a)) w).1.committed ≡ w.committed)
        ⊎ (((enqueue_job job_type payload run_at >> (commit >> pure a)) w).1.committed ≡ w.working)
  enqueue_then_commit job_type payload run_at a w =
      ground (arith, enqueue_job-SameSessions job_type payload run_at w)

  -- If it returns, it has committed.
  pub enqueue_then_commit_ok :
      (job_type : String) (payload : Payload) (run_at : Option ℕ) {A : Type 0} (a : A) (w : World)
      {b : A} {w' : World}
      → (enqueue_job job_type payload run_at >> (commit >> pure a)) w ≡ (ok b, w')
      → (w'.committed ≡ w.working) × (a ≡ b)
  enqueue_then_commit_ok job_type payload run_at a w e =
      (ground (arith, enqueue_job-SameSessions job_type payload run_at w), ground arith)

  -- What is said of the two copies of the tables outlives an enqueued job.
  pub enqueue_job-Preserves :
      (I : Db → Db → Type 0) (job_type : String) (payload : Payload) (run_at : Option ℕ)
      → Preserves (λ (w : World). I w.working w.committed) (enqueue_job job_type payload run_at)
  enqueue_job-Preserves I job_type payload run_at w h =
      let same = enqueue_job-SameSessions job_type payload run_at w in
      subst (λ db. I (enqueue_job job_type payload run_at w).1.working db) (sym same.committed)
        (subst (λ db. I db w.committed) (sym same.working) h)
