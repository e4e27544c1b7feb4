-- ===== src/Example/Startup.antt =====
-- The start and the end of the application on the server of the other examples, and runs of its
-- worker.
use mathlib.Core.List.{Memᴰ}
use tru_dev_tasks.Prelude.{suc, ◌≡◌, ◌≤◌, refl, true, false, none, some, List, [], ◌∷◌, length}
use tru_dev_tasks.Core.Config.{
  Environ, development, Settings, settings, IsUsable, settings-IsUsable, int_field,
  environment_field, bool_field, pos,
}
use tru_dev_tasks.Core.Exceptions.{runtime_error}
use tru_dev_tasks.Example.Server.{server, fresh}
use tru_dev_tasks.Exec.{Exec, err, pure}
use tru_dev_tasks.Jobs.Cancelled.{process_cancelled, polls, process_cancelled-strands}
use tru_dev_tasks.Jobs.Handlers.{job_handlers}
use tru_dev_tasks.Jobs.Lifecycle.{run_worker-bounds}
use tru_dev_tasks.Jobs.Models.{Job, queued, running, uuid_text}
use tru_dev_tasks.Jobs.Tasks.{
  JobWorker, new_worker, TaskEvent, starting, consumer_turns, poller_turns, consumer_fails,
  elsewhere, step, start, stop, run_worker, leaks, consumer_turn, poller_turn,
}
use tru_dev_tasks.Jobs.Worker.{consume, enqueue_due_jobs}
use tru_dev_tasks.Main.{App, SeedModule, seed_function, startup, lifespan}
use tru_dev_tasks.Main.Lifespan.{IsQuiet, Started, startup-Started, RunsWorker, lifespan-IsQuiet}
use tru_dev_tasks.Platform.{Platform, World, with_session}
use tru_dev_tasks.Api.Server.{serve}
use tru_dev_tasks.Example.Api.{web, store}
use tru_dev_tasks.Example.System.{idle, ask}
use tru_dev_tasks.Seed.{seed_data}

instance abbrev calm : Platform
calm = server (λ n. 0)

abbrev start_world : World
start_world = fresh (λ n. 0)

-- Only what has no default is given, and a seeding is asked for.
abbrev environ : Environ
environ = record {
  database_url = some "postgresql+asyncpg://localhost/pulsepay";
  secret_key = some "secret";
  environment = none;
  api_rate_limit_per_minute = none;
  api_burst_limit_per_second = none;
  webhook_signing_secret = some "signing";
  max_payment_retry_attempts = none;
  seed_on_startup = some true;
  db_pool_size = none;
  db_max_overflow = none;
  db_pool_timeout_seconds = none;
  db_pool_recycle_seconds = none;
}

abbrev defaults : Settings
defaults = record {
  database_url = "postgresql+asyncpg://localhost/pulsepay";
  secret_key = "secret";
  environment = development;
  api_rate_limit_per_minute = 100;
  api_burst_limit_per_second = 20;
  webhook_signing_secret = "signing";
  max_payment_retry_attempts = 3;
  seed_on_startup = true;
  db_pool_size = 10;
  db_max_overflow = 20;
  db_pool_timeout_seconds = 30;
  db_pool_recycle_seconds = 1800;
}

environ-accepted : settings environ ≡ some defaults
unfolding settings int_field environment_field bool_field
environ-accepted = refl

-- No attempts are refused.
no_attempts : settings (record environ { max_payment_retry_attempts = some (pos 0) }) ≡ none
unfolding settings int_field environment_field bool_field
no_attempts = refl

settings-IsUsable_example : IsUsable defaults
settings-IsUsable_example = settings-IsUsable environ environ-accepted

abbrev idle_worker : JobWorker
idle_worker = record {
  stop_event = false;
  consumer_task = none;
  delayed_poll_task = none;
  consumers = [];
  pollers = [];
  next_task = 0;
  world = start_world;
}

-- The consumer fails, the worker is started again and stopped.
abbrev hiccup : List TaskEvent
hiccup = starting ∷ poller_turns 1 ∷ consumer_fails 0 ∷ starting ∷ consumer_turns 2 ∷ []

-- The first poller is still there after a stop.
poller_left : (stop (run_worker job_handlers hiccup idle_worker)).pollers ≡ 1 ∷ []
unfolding run_worker step start stop consumer_turn poller_turn consume enqueue_due_jobs
poller_left = refl

run_worker-bounds_example :
    let t = run_worker job_handlers hiccup (new_worker idle_worker) in
    (length t.consumers ≤ 1)
    × (length t.pollers ≤ suc (leaks job_handlers hiccup (new_worker idle_worker) 0))
    × ((stop t).consumers ≡ [])
    × (length (stop t).pollers ≤ leaks job_handlers hiccup (new_worker idle_worker) 0)
run_worker-bounds_example = run_worker-bounds job_handlers hiccup idle_worker refl refl

abbrev off : App
off = record { storm_queue = none; queues = 0; worker_queue = none; worker = idle_worker }

off-IsQuiet : IsQuiet off
off-IsQuiet = record { consumers = refl; pollers = refl }

abbrev seeding : SeedModule
seeding = seed_function (with_session seed_data)

startup-Started_example : Started (startup defaults (pure tt) seeding off)
startup-Started_example = startup-Started defaults (pure tt) seeding off off-IsQuiet

-- The consumer fails while the application serves, which then ends in an error.
abbrev serving : Exec App (Unit {0})
serving a = (
  err runtime_error,
  record a { worker = run_worker job_handlers (poller_turns 1 ∷ consumer_fails 0 ∷ []) a.worker },
)

serving-RunsWorker : RunsWorker serving
unfolding RunsWorker
serving-RunsWorker a = (job_handlers, poller_turns 1 ∷ consumer_fails 0 ∷ [], refl, refl)

lifespan-IsQuiet_example : IsQuiet (lifespan defaults (pure tt) seeding serving off).1
lifespan-IsQuiet_example =
    lifespan-IsQuiet defaults (pure tt) seeding serving off off-IsQuiet serving-RunsWorker

-- The application on the database with a payment, which a request confirms while the consumer
-- fails.
abbrev on_payment : App
on_payment = record off { worker = record idle_worker { world = idle.world } }

abbrev confirming : List TaskEvent
confirming =
    elsewhere (λ w. (serve store web ask (record idle { world = w })).1.world)
    ∷ consumer_turns 0
    ∷ consumer_fails 0
    ∷ []

abbrev serving_payment : Exec App (Unit {0})
serving_payment a =
    (err runtime_error, record a { worker = run_worker job_handlers confirming a.worker })

abbrev unseeded : Settings
unseeded = record defaults { seed_on_startup = false }

abbrev job : Job
job = record {
  id = 9;
  job_type = "process_payment";
  payload = ("payment_id", uuid_text 1) ∷ [];
  status = queued;
  attempt_count = 0;
  max_attempts = 3;
  run_at = 0;
  last_error = none;
}

abbrev with_job : World
with_job = record start_world { jobs = record { items = job ∷ []; distinct = (tt, tt) } }

process_cancelled-strands_example :
    let w' = polls 2 (process_cancelled (λ w. w) 9 with_job) in
    (calm.jobs.get w'.jobs 9 ≡ some (record job { status = running }))
    × (¬ Memᴰ 9 w'.dispatch_queue)
process_cancelled-strands_example =
    process_cancelled-strands (λ w. w) 2 job with_job refl refl (λ m. elim m [ ]) (λ v. refl)
      (λ v m. m)
