-- ===== src/Main.antt =====
-- pulsepay/main.py: the start and the end of the application, with `set_storm_queue` and
-- `get_storm_queue` of pulsepay/jobs/queue.py. `app.state`, which nothing reads, is left out. The
-- migrations that Alembic runs, the module that `import_module` finds and what happens while the
-- application serves are arguments.
pub mod Lifespan
pub mod Soundness
use tru_dev_tasks.Prelude.{ℕ, suc, Bool, true, false, Option, none, some, [], if◌then◌else◌}
use tru_dev_tasks.Core.Config.{Settings, Environment, development, staging, production}
use tru_dev_tasks.Core.Exceptions.{runtime_error}
use tru_dev_tasks.Exec.{Exec, Result, pure, gets, modify, or_raise, ◌>>=◌, ◌>>◌}
use tru_dev_tasks.Jobs.Tasks.{JobWorker, new_worker, start, stop}
use tru_dev_tasks.Platform.{Platform, World}

abbrev pub is_development : Environment → Bool
is_development development = true
is_development staging = false
is_development production = false

module _ ⦃P : Platform⦄ where
  -- What `import_module("pulsepay.seed")` comes to: no module, one without `seed_data`, or the
  -- function.
  pub data SeedModule : Type 0 where
    not_found : SeedModule
    without_function : SeedModule
    seed_function : Exec World (Unit {0}) → SeedModule

  -- The state of the process: `_storm_queue`, the number of queues made so far, by which a queue
  -- is told, the queue of the worker, and the worker with the rest of the process.
  pub record App : Type 0 where
    pub storm_queue : Option ℕ
    pub queues : ℕ
    pub worker_queue : Option ℕ
    pub worker : JobWorker

  abbrev pub with_world : App → World → App
  with_world a w = record a { worker = record a.worker { world = w } }

  abbrev pub in_world : Exec World (Unit {0}) → Exec App (Unit {0})
  in_world m a = let (r, w) = m a.worker.world in (r, with_world a w)

  -- `StormQueue(SessionLocal)`, whose dispatch queue is empty
  abbrev pub new_storm_queue : Exec App ℕ
  new_storm_queue = do
    queue ← gets (λ a. a.queues)
    modify (λ a. record a {
      queues = suc a.queues;
      worker = record a.worker { world = record a.worker.world { dispatch_queue = [] } };
    })
    pure queue

  -- `set_storm_queue`
  abbrev pub set_storm_queue : ℕ → Exec App (Unit {0})
  set_storm_queue queue = modify λ a. record a { storm_queue = some queue }

  -- `get_storm_queue`
  unfoldable pub get_storm_queue : Exec App ℕ
  get_storm_queue = do found ← gets (λ a. a.storm_queue); or_raise found runtime_error

  -- `JobWorker(storm_queue)`
  abbrev pub make_worker : ℕ → Exec App (Unit {0})
  make_worker queue =
      modify λ a. record a { worker_queue = some queue; worker = new_worker a.worker }

  -- `_seed_on_startup`
  abbrev pub seed_on_startup : SeedModule → Exec App (Unit {0})
  seed_on_startup not_found = pure tt
  seed_on_startup without_function = pure tt
  seed_on_startup (seed_function seed_data) = in_world seed_data

  abbrev pub when : Bool → Exec App (Unit {0}) → Exec App (Unit {0})
  when true m = m
  when false m = pure tt

  -- `lifespan` from the worker on to its `try`, and all of it up to there
  abbrev pub seed_and_start : Settings → SeedModule → Exec App (Unit {0})
  seed_and_start s seed = do
    when s.seed_on_startup (seed_on_startup seed)
    modify (λ a. record a { worker = start a.worker })

  abbrev pub set_up : Settings → SeedModule → Exec App (Unit {0})
  set_up s seed = do
    storm_queue ← new_storm_queue
    set_storm_queue storm_queue
    make_worker storm_queue
    seed_and_start s seed

  unfoldable pub startup : Settings → Exec World (Unit {0}) → SeedModule → Exec App (Unit {0})
  startup s run_migrations seed = do
    when (is_development s.environment) (in_world run_migrations)
    set_up s seed

  -- `try: serve finally: worker.stop()`
  unfoldable pub serve_then_stop : Exec App (Unit {0}) → Exec App (Unit {0})
  serve_then_stop serve a = let (r, b) = serve a in (r, record b { worker = stop b.worker })

  -- `lifespan`
  unfoldable pub lifespan :
      Settings → Exec World (Unit {0}) → SeedModule → Exec App (Unit {0}) → Exec App (Unit {0})
  lifespan s run_migrations seed serve = do startup s run_migrations seed; serve_then_stop serve
