-- ===== src/Jobs/Returns.antt =====
-- pulsepay/jobs/worker.py: `_process` raises nothing itself.
use tru_dev_tasks.Prelude.{
  ℕ, ◌+◌, ◌≡◌, refl, Option-cases, Bool-cases, inl, inr, List, [], ◌∷◌, ltb,
}
use tru_dev_tasks.Core.Exceptions.{Exception}
use tru_dev_tasks.Exec.{Result, ok, err}
use tru_dev_tasks.Jobs.Handlers.{Handlers}
use tru_dev_tasks.Jobs.Models.{Job, running as job_running}
use tru_dev_tasks.Jobs.Worker.{consume, process, is_done, finish, fail, conclude}
use tru_dev_tasks.Platform.{Platform, World}

module _ ⦃P : Platform⦄ where
  fail-returns : (job : Job) (e : Exception) (w : World) → (fail job e w).0 ≡ ok tt
  unfolding fail
  fail-returns job e w = elim (Bool-cases (ltb (job.attempt_count + 1) job.max_attempts)) [
    | inl again ↦ rw again refl
    | inr last ↦ rw last refl
  ]

  conclude-returns : (job : Job) (r : Result (Unit {0}) × World) → (conclude job r).0 ≡ ok tt
  unfolding finish
  conclude-returns job (ok u, w) = refl
  conclude-returns job (err e, w) = fail-returns job e w

  -- `_process` catches what a handler raises, and raises nothing itself.
  process-returns : (handlers : Handlers) (i : ℕ) (w : World) → (process handlers i w).0 ≡ ok tt
  unfolding process
  process-returns handlers i w = elim (Option-cases (P.jobs.get w.jobs i)) [
    | inl absent ↦ rw absent refl
    | inr (job, found) ↦ elim (Bool-cases (is_done job.status)) [
      | inl done ↦ rw (found, done) refl
      | inr todo ↦ rw (found, todo) (conclude-returns (record job { status = job_running }) _)
    ]
  ]

  pub consume-returns : (handlers : Handlers) (w : World) → (consume handlers w).0 ≡ ok tt
  unfolding consume
  consume-returns handlers w = by_queue w.dispatch_queue
    where
      by_queue :
          (queue : List ℕ) → (consume handlers (record w { dispatch_queue = queue })).0 ≡ ok tt
      by_queue [] = refl
      by_queue (i ∷ rest) = process-returns handlers i _
