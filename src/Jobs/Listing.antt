-- ===== src/Jobs/Listing.antt =====
-- pulsepay/jobs/queue.py: `get_dead_jobs`. The database keeps the time of a row's last change,
-- which orders the list: it is an argument.
use mathlib.Core.List.Permᴰ
use tru_dev_tasks.Prelude.{
  ℕ, zero, suc, ◌*◌, ◌-◌, Bool, true, false, List, [], ◌++◌, length, select, min, max,
}
use tru_dev_tasks.Database.Listing.{slice, order_desc}
use tru_dev_tasks.Exec.{Exec, Result, ok, pure, gets, ◌>>=◌}
use tru_dev_tasks.Jobs.Models.{Job, JobStatus, dead}
use tru_dev_tasks.Platform.{Platform, World}

abbrev pub is_dead : JobStatus → Bool
is_dead dead = true
is_dead _ = false

module _ ⦃P : Platform⦄ (updated_at : Job → ℕ) where
  unfoldable pub get_dead_jobs : ℕ → ℕ → Exec World (List Job × ℕ)
  get_dead_jobs page limit = do
    rows ← gets (λ w. select (λ j. is_dead j.status) (P.jobs.rows w.jobs))
    let effective_limit = min (max limit 1) 100
    let offset = (max page 1 - 1) * effective_limit
    found ← gets (λ w. P.found_jobs w.reads offset effective_limit rows)
    pure (slice offset effective_limit (order_desc updated_at found), length rows)

  abbrev answered : Result (List Job × ℕ) × World → List Job
  answered (ok (items, total), w) = items
  answered _ = []

  -- The answers for the pages 1 to `n`, one after another.
  unfoldable pub first_dead_pages : ℕ → ℕ → World → List Job
  first_dead_pages zero limit w = []
  first_dead_pages (suc n) limit w =
      first_dead_pages n limit w ++ answered (get_dead_jobs (suc n) limit w)
