-- ===== src/Jobs/Retries.antt =====
-- The retries of a job whose handler raises at every call: it is queued again after each attempt
-- but the last, and then dead.
use tru_dev_tasks.Prelude.{
  ℕ, zero, suc, ◌+◌, ◌≤◌, ◌<◌, ◌≡◌, refl, sym, ap, ap₂, subst, ◌∙◌, inl, inr, false, some, ltb,
  ltb→lt, lt→ltb, ==_self, if◌then◌else◌, Bool-cases, arith,
}
use tru_dev_tasks.Core.Exceptions.{Exception}
use tru_dev_tasks.Exec.{err}
use tru_dev_tasks.Jobs.Models.{Job, JobStatus, queued, running, dead}
use tru_dev_tasks.Jobs.Handlers.{Handlers, get_handler}
use tru_dev_tasks.Jobs.Worker.{is_done, call, run_handler, fail, process, conclude}
use tru_dev_tasks.Platform.{Platform, World, Db}

module _ ⦃P : Platform⦄ where
  -- The status of a job after `n` failed attempts.
  abbrev pub status_after : ℕ → ℕ → JobStatus
  status_after max_attempts n = if ltb n max_attempts then queued else dead

  -- The row of a job after `n` failed attempts.
  pub record HasFailed (job : Job) (n : ℕ) (w : World) : Type 0 where
    pub row : Job
    pub stored : P.jobs.get w.jobs job.id ≡ some row
    pub id : row.id ≡ job.id
    pub job_type : row.job_type ≡ job.job_type
    pub payload : row.payload ≡ job.payload
    pub max_attempts : row.max_attempts ≡ job.max_attempts
    pub attempts : row.attempt_count ≡ n
    pub status : row.status ≡ status_after job.max_attempts n

  -- The handler of a job raises at every call while `db` is what is committed, and leaves the jobs
  -- and what is committed alone.
  abbrev pub AlwaysRaises : Handlers → Job → Db → Type 0
  AlwaysRaises handlers job db =
      (w : World)
      → w.committed ≡ db
      → (e : Exception) × (w' : World) × (call (get_handler job.job_type handlers) job.payload w
          ≡ (err e, w'))
        × (w'.jobs ≡ w.jobs)
        × (w'.committed ≡ db)

  fail-stores :
      (job : Job) (e : Exception) (w : World)
      → P.jobs.get w.jobs job.id ≡ some job
      → P.jobs.get (fail job e w).1.jobs job.id
        ≡ some (record job {
          attempt_count = job.attempt_count + 1;
          last_error = some e;
          status = status_after job.max_attempts (job.attempt_count + 1);
          run_at =
              if ltb (job.attempt_count + 1) job.max_attempts then P.time w.reads else job.run_at;
        })
  unfolding fail
  fail-stores job e w stored = elim (Bool-cases (ltb (job.attempt_count + 1) job.max_attempts)) [
    | inl more ↦ rw more (P.jobs.update_get w.jobs _ stored job.id ∙ rw (==_self job.id) refl)
    | inr last ↦ rw last (P.jobs.update_get w.jobs _ stored job.id ∙ rw (==_self job.id) refl)
  ]

  fail-committed :
      (job : Job) (e : Exception) (w : World) → (fail job e w).1.committed ≡ w.committed
  unfolding fail
  fail-committed job e w = ground arith

  -- `_process` on a job that is not done and whose handler raises.
  process_raises :
      (handlers : Handlers) (job : Job) (w : World) {e : Exception} {w' : World}
      → P.jobs.get w.jobs job.id ≡ some job
      → is_done job.status ≡ false
      → call
          (get_handler job.job_type handlers)
          job.payload
          (record w { jobs = P.jobs.update w.jobs (record job { status = running }) })
        ≡ (err e, w')
      → process handlers job.id w ≡ fail (record job { status = running }) e w'
  unfolding process run_handler
  process_raises handlers job w stored undone raised =
      rw (stored, undone) (ap (conclude (record job { status = running })) raised)

  started-stored :
      (job : Job) (w : World)
      → P.jobs.get w.jobs job.id ≡ some job
      → P.jobs.get (P.jobs.update w.jobs (record job { status = running })) job.id
        ≡ some (record job { status = running })
  started-stored job w stored =
      P.jobs.update_get w.jobs (record job { status = running }) stored job.id
      ∙ rw (==_self job.id) refl

  -- `_process` on the job, `n` times over.
  unfoldable pub rounds : Handlers → ℕ → ℕ → World → World
  rounds handlers job_id zero w = w
  rounds handlers job_id (suc n) w = (process handlers job_id (rounds handlers job_id n w)).1

  status_after-undone :
      (max_attempts n : ℕ) → n < max_attempts → is_done (status_after max_attempts n) ≡ false
  status_after-undone max_attempts n h = rw (lt→ltb n max_attempts h) refl

  status_after-dead : (max_attempts : ℕ) → status_after max_attempts max_attempts ≡ dead
  status_after-dead max_attempts = ground arith

  module _ (handlers : Handlers) (job : Job) (db : Db) (raises : AlwaysRaises handlers job db) where
    abbrev started : Job → Job
    started row = record row { status = running }

    abbrev begun : Job → World → World
    begun row w = record w { jobs = P.jobs.update w.jobs (started row) }

    abbrev failed_row : Job → Exception → World → Job
    failed_row row e w = record row {
      attempt_count = row.attempt_count + 1;
      last_error = some e;
      status = status_after row.max_attempts (row.attempt_count + 1);
      run_at = if ltb (row.attempt_count + 1) row.max_attempts then P.time w.reads else row.run_at;
    }

    process_once :
        (n : ℕ) (w : World) (row : Job)
        → w.committed ≡ db
        → P.jobs.get w.jobs job.id ≡ some row
        → row.id ≡ job.id
        → row.job_type ≡ job.job_type
        → row.payload ≡ job.payload
        → row.max_attempts ≡ job.max_attempts
        → row.attempt_count ≡ n
        → is_done row.status ≡ false
        → ((process handlers job.id w).1.committed ≡ db)
          × HasFailed job (suc n) (process handlers job.id w).1
    process_once n w row same stored i t l m a undone =
        let (e, w', raised, kept, same') = raises (begun row w) same in
        let ends : process handlers job.id w ≡ fail (started row) e w' =
          ap (λ id. process handlers id w) (sym i)
          ∙ process_raises handlers row w (ap (P.jobs.get w.jobs) i ∙ stored) undone (
              ap₂ (λ job_type payload. call (get_handler job_type handlers) payload (begun row w)) t
                l
              ∙ raised) in
        let row_there : P.jobs.get w'.jobs row.id ≡ some (started row) =
          ap (λ jobs. P.jobs.get jobs row.id) kept
          ∙ started-stored row w (ap (P.jobs.get w.jobs) i ∙ stored) in
        (
          ap (λ r. r.1.committed) ends ∙ fail-committed (started row) e w' ∙ same',
          record {
            row = failed_row row e w';
            stored =
                ap (λ r. P.jobs.get r.1.jobs job.id) ends
                ∙ ap (P.jobs.get (fail (started row) e w').1.jobs) (sym i)
                ∙ fail-stores (started row) e w' row_there;
            id = i;
            job_type = t;
            payload = l;
            max_attempts = m;
            attempts = omega (arith, a);
            status = ap₂ status_after m (omega (arith, a));
          },
        )

    -- A queued job without an attempt, whose handler raises at every call and leaves the jobs and
    -- what is committed alone, counts `n` attempts after `n` processings, for `n` up to its
    -- `max_attempts`: it is queued again below them and dead at them, and nothing else is
    -- committed.
    pub rounds-HasFailed :
        (n : ℕ) (w : World)
        → w.committed ≡ db
        → HasFailed job 0 w
        → n ≤ job.max_attempts
        → ((rounds handlers job.id n w).committed ≡ db)
          × HasFailed job n (rounds handlers job.id n w)
    unfolding rounds
    rounds-HasFailed zero w same at small = (same, at)
    rounds-HasFailed (suc n) w same at small =
        let (same', at') = rounds-HasFailed n w same at (omega arith) in
        process_once n (rounds handlers job.id n w) at'.row same' at'.stored at'.id at'.job_type
          at'.payload at'.max_attempts at'.attempts
          (rw (at'.status) (status_after-undone job.max_attempts n (omega arith)))

    dead_stays : (w : World) → HasFailed job job.max_attempts w → (process handlers job.id w).1 ≡ w
    unfolding process
    dead_stays w at = rw at.stored (rw (at.status) (rw (status_after-dead job.max_attempts) refl))

    -- A queued job without an attempt, whose handler raises at every call and leaves the jobs and
    -- what is committed alone, is dead and counts `max_attempts` attempts after that many
    -- processings or more.
    pub rounds-dead :
        (n : ℕ) (w : World)
        → w.committed ≡ db
        → HasFailed job 0 w
        → job.max_attempts ≤ n
        → HasFailed job job.max_attempts (rounds handlers job.id n w)
    unfolding rounds
    rounds-dead zero w same at over = subst (λ k. HasFailed job k w) (omega (arith, over)) at
    rounds-dead (suc n) w same at over = elim (Bool-cases (ltb n job.max_attempts)) [
      | inl last ↦
          subst (λ k. HasFailed job k (rounds handlers job.id (suc n) w))
            (omega (arith, ltb→lt n job.max_attempts last, over))
            (rounds-HasFailed (suc n) w same at (omega (arith, ltb→lt n job.max_attempts last))).1
      | inr past ↦
          let before = rounds-dead n w same at (ground (arith, lt→ltb n job.max_attempts)) in
          subst (HasFailed job job.max_attempts)
            (sym (dead_stays (rounds handlers job.id n w) before)) before
    ]
