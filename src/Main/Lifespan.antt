-- ===== src/Main/Lifespan.antt =====
-- The tasks and the queue of the application, from its start to its end.
use tru_dev_tasks.Prelude.{
  ℕ, suc, ◌≡◌, ◌≤◌, refl, sym, ap, subst, arith, Bool, true, false, none, some, List, [], ◌∷◌,
  length,
}
use tru_dev_tasks.Core.Config.{Settings}
use tru_dev_tasks.Core.Exceptions.{Exception}
use tru_dev_tasks.Exec.{modify, Exec, Result, ok, err, after}
use tru_dev_tasks.Jobs.Handlers.{Handlers}
use tru_dev_tasks.Jobs.Lifecycle.{run_up-stops, leaks_without_start}
use tru_dev_tasks.Jobs.Tasks.{TaskEvent, started, start, stop, run_worker, none_starts}
use tru_dev_tasks.Main.{
  is_development, App, SeedModule, get_storm_queue, with_world, in_world, when, not_found,
  without_function, seed_function, seed_on_startup, seed_and_start, set_up, startup,
  serve_then_stop, lifespan,
}
use tru_dev_tasks.Platform.{Platform, World}

none_in : (tasks : List ℕ) → length tasks ≤ 0 → tasks ≡ []
none_in [] h = refl
none_in (t ∷ tasks) h = absurd (omega arith)

module _ ⦃P : Platform⦄ where
  -- No task of a worker runs.
  pub record IsQuiet (a : App) : Type 0 where
    pub consumers : a.worker.consumers ≡ []
    pub pollers : a.worker.pollers ≡ []

  -- The queue that the services get is the worker's, and one consumer and one poller run.
  pub record IsReady (a : App) : Type 0 where
    pub queue : ℕ
    pub got : get_storm_queue a ≡ (ok queue, a)
    pub shared : a.worker_queue ≡ some queue
    pub consumer : ℕ
    pub consumers : a.worker.consumers ≡ consumer ∷ []
    pub poller : ℕ
    pub pollers : a.worker.pollers ≡ poller ∷ []
    pub held : a.worker.consumer_task ≡ some consumer
    pub held_poller : a.worker.delayed_poll_task ≡ some poller
    pub up : a.worker.stop_event ≡ false

  -- How `startup` ends.
  pub data Started : Result (Unit {0}) × App → Type 0 where
    ready : (a : App) → IsReady a → Started (ok tt, a)
    broken : (x : Exception) (a : App) → IsQuiet a → Started (err x, a)

  -- A step of the start that may change the world and nothing else.
  KeepsTasks : Exec App (Unit {0}) → Type 0
  KeepsTasks m = (a : App) → (w : World) × ((m a).1 ≡ with_world a w)

  when-KeepsTasks : (b : Bool) (m : Exec App (Unit {0})) → KeepsTasks m → KeepsTasks (when b m)
  unfolding KeepsTasks
  when-KeepsTasks true m h a = h a
  when-KeepsTasks false m h a = (a.worker.world, refl)

  in_world-KeepsTasks : (m : Exec World (Unit {0})) → KeepsTasks (in_world m)
  unfolding KeepsTasks
  in_world-KeepsTasks m a = (_, refl)

  seed_on_startup-KeepsTasks : (seed : SeedModule) → KeepsTasks (seed_on_startup seed)
  unfolding KeepsTasks
  seed_on_startup-KeepsTasks not_found a = (a.worker.world, refl)
  seed_on_startup-KeepsTasks without_function a = (a.worker.world, refl)
  seed_on_startup-KeepsTasks (seed_function seed_data) a = (_, refl)

  with_world-IsQuiet : (a b : App) (w : World) → IsQuiet a → b ≡ with_world a w → IsQuiet b
  with_world-IsQuiet a b w h e =
      subst IsQuiet (sym e) (record { consumers = h.consumers; pollers = h.pollers })

  -- A worker that has just been made, on the queue that was just set.
  record IsMade (a : App) : Type 0 where
    queue : ℕ
    set : a.storm_queue ≡ some queue
    shared : a.worker_queue ≡ some queue
    idle : a.worker.consumer_task ≡ none
    quiet : IsQuiet a

  start-IsReady : (a : App) → IsMade a → IsReady (record a { worker = start a.worker })
  unfolding start get_storm_queue
  start-IsReady a h =
      let begun : start a.worker ≡ started a.worker = rw h.idle refl in
      subst (λ t. IsReady (record a { worker = t })) (sym begun)
        (record {
          queue = h.queue;
          got = rw h.set refl;
          shared = h.shared;
          consumer = a.worker.next_task;
          consumers = ap (λ tasks. a.worker.next_task ∷ tasks) h.quiet.consumers;
          poller = suc a.worker.next_task;
          pollers = ap (λ tasks. suc a.worker.next_task ∷ tasks) h.quiet.pollers;
          held = refl;
          held_poller = refl;
          up = refl;
        })

  -- A step that raises leaves no task behind, and one that returns is followed by the rest.
  after-Started :
      (a : App) (rest : Exec App (Unit {0})) (r : Result (Unit {0}) × App) (w : World)
      → IsQuiet a
      → r.1 ≡ with_world a w
      → Started (rest (with_world a w))
      → Started (after (λ _. rest) r)
  after-Started a rest (ok u, b) w h e then_ = subst (λ c. Started (rest c)) (sym e) then_
  after-Started a rest (err x, b) w h e then_ = broken x b (with_world-IsQuiet a b w h e)

  seed_and_start-Started :
      (s : Settings) (seed : SeedModule) (a : App) → IsMade a → Started (seed_and_start s seed a)
  unfolding KeepsTasks
  seed_and_start-Started s seed a h =
      let (w, kept) =
        when-KeepsTasks s.seed_on_startup (seed_on_startup seed) (seed_on_startup-KeepsTasks seed)
          a in
      after-Started a (modify (λ b. record b { worker = start b.worker }))
        (when s.seed_on_startup (seed_on_startup seed) a) w h.quiet kept
        (ready _ (
          start-IsReady (with_world a w) (record {
            queue = h.queue;
            set = h.set;
            shared = h.shared;
            idle = h.idle;
            quiet = with_world-IsQuiet a _ w h.quiet refl;
          })))

  -- If no task of a worker runs before, the start either returns with one consumer and one poller
  -- running, on the queue that the services get, or raises, and then no task runs.
  pub startup-Started :
      (s : Settings) (run_migrations : Exec World (Unit {0})) (seed : SeedModule) (a : App)
      → IsQuiet a
      → Started (startup s run_migrations seed a)
  unfolding startup KeepsTasks
  startup-Started s run_migrations seed a h =
      let (w, kept) =
        when-KeepsTasks (is_development s.environment) (in_world run_migrations)
          (in_world-KeepsTasks run_migrations) a in
      after-Started a (set_up s seed) _ w h kept (
        seed_and_start-Started s seed _ (record {
          queue = a.queues;
          set = refl;
          shared = refl;
          idle = refl;
          quiet = record { consumers = h.consumers; pollers = h.pollers };
        }))

  -- While the application serves, the worker's tasks take their turns and may fail, the worker
  -- is not started again, and the rest of the process does what it likes.
  unfoldable pub RunsWorker : Exec App (Unit {0}) → Type 0
  RunsWorker serve =
      (a : App)
      → (handlers : Handlers) × (events : List TaskEvent) × ((serve a).1.worker
          ≡ run_worker handlers events a.worker)
        × (none_starts events ≡ true)

  -- If no task of a worker runs before, and while the application serves the worker's tasks only
  -- take their turns or fail and the worker is not started again, no task of a worker runs after
  -- the lifespan, however its start and its serving end.
  pub lifespan-IsQuiet :
      (s : Settings) (run_migrations : Exec World (Unit {0})) (seed : SeedModule)
      (serve : Exec App (Unit {0})) (a : App)
      → IsQuiet a
      → RunsWorker serve
      → IsQuiet (lifespan s run_migrations seed serve a).1
  unfolding lifespan serve_then_stop RunsWorker
  lifespan-IsQuiet s run_migrations seed serve a h runs =
      stopped (startup s run_migrations seed a) (startup-Started s run_migrations seed a h)
    where
      stopped :
          (r : Result (Unit {0}) × App)
          → Started r
          → IsQuiet (after (λ _. serve_then_stop serve) r).1
      stopped _ (ready b up) =
          let (handlers, events, ran, no_start) = runs b in
          let (none_left, few) =
            run_up-stops handlers events b.worker up.consumer up.poller up.consumers up.pollers
              up.held up.held_poller up.up in
          subst (λ t. IsQuiet (record (serve b).1 { worker = stop t })) (sym ran)
            (record {
              consumers = none_left;
              pollers =
                  none_in _
                    (omega (arith, few, leaks_without_start handlers events b.worker 0 no_start));
            })
      stopped _ (broken x b quiet) = quiet
