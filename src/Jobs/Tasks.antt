-- ===== src/Jobs/Tasks.antt =====
-- pulsepay/jobs/worker.py: `JobWorker.start` and `stop`, and the turns of the two tasks that they
-- run, `_consume_loop` and `_poll_delayed_jobs_loop`. asyncio is the state of its tasks: those
-- that have not ended, by a number each. `task.cancel` ends a task, since neither loop catches
-- `CancelledError`; `stop` is taken as one step, though it awaits the ends of the tasks. The count
-- of `task_done`, which nothing reads, and the sleep are left out.
use tru_dev_tasks.Prelude.{
  ℕ, suc, Bool, true, false, not, Option, none, some, List, [], ◌∷◌, any, select, ◌==◌, ◌&&◌,
  if◌then◌else◌,
}
use tru_dev_tasks.Exec.{Result, ok, err}
use tru_dev_tasks.Jobs.Handlers.{Handlers}
use tru_dev_tasks.Jobs.Worker.{consume, enqueue_due_jobs}
use tru_dev_tasks.Platform.{Platform, World}

abbrev pub is_running : ℕ → List ℕ → Bool
is_running task = any (λ t. task == t)

abbrev pub without : ℕ → List ℕ → List ℕ
without task = select (λ t. not (task == t))

-- `task.cancel()` and the wait for its end
abbrev pub cancel : Option ℕ → List ℕ → List ℕ
cancel none tasks = tasks
cancel (some task) tasks = without task tasks

-- `task is not None and not task.done()`
abbrev pub is_busy : Option ℕ → List ℕ → Bool
is_busy none tasks = false
is_busy (some task) tasks = is_running task tasks

abbrev pub is_held : Option ℕ → Bool
is_held none = false
is_held (some task) = true

module _ ⦃P : Platform⦄ where
  -- A `JobWorker`, beside all tasks of the process that run its loops and have not ended.
  pub record JobWorker : Type 0 where
    pub stop_event : Bool
    pub consumer_task : Option ℕ
    pub delayed_poll_task : Option ℕ
    pub consumers : List ℕ
    pub pollers : List ℕ
    pub next_task : ℕ
    pub world : World

  -- `JobWorker.__init__`: the tasks of the process are those of earlier workers, if any
  abbrev pub new_worker : JobWorker → JobWorker
  new_worker s = record s { stop_event = false; consumer_task = none; delayed_poll_task = none }

  abbrev pub started : JobWorker → JobWorker
  started s = record s {
    stop_event = false;
    consumer_task = some s.next_task;
    delayed_poll_task = some (suc s.next_task);
    consumers = s.next_task ∷ s.consumers;
    pollers = suc s.next_task ∷ s.pollers;
    next_task = suc (suc s.next_task);
  }

  -- `JobWorker.start`
  unfoldable pub start : JobWorker → JobWorker
  start s = if is_busy s.consumer_task s.consumers then s else started s

  -- `JobWorker.stop`. What a handler that is cancelled in its run has committed by then is an event
  -- `elsewhere` before it; what becomes of its job is in Jobs.Cancelled.
  unfoldable pub stop : JobWorker → JobWorker
  stop s = record s {
    stop_event = true;
    consumers = cancel s.consumer_task s.consumers;
    pollers = cancel s.delayed_poll_task s.pollers;
    consumer_task = none;
    delayed_poll_task = none;
  }

  abbrev pub end_consumer : ℕ → JobWorker → JobWorker
  end_consumer task s = record s { consumers = without task s.consumers }

  -- What the `finally` of a turn lets through: an exception ends the task.
  abbrev pub consumed : ℕ → JobWorker → Result (Unit {0}) × World → JobWorker
  consumed task s (ok u, w) = record s { world = w }
  consumed task s (err e, w) = end_consumer task (record s { world = w })

  -- A turn of `_consume_loop`: the test of the loop, and a job if there is one within the timeout
  unfoldable pub consumer_turn : Handlers → ℕ → JobWorker → JobWorker
  consumer_turn handlers task s =
      if s.stop_event then end_consumer task s else consumed task s (consume handlers s.world)

  -- A turn of `_poll_delayed_jobs_loop`, which goes on after an exception
  unfoldable pub poller_turn : ℕ → JobWorker → JobWorker
  poller_turn task s =
      if s.stop_event
      then record s { pollers = without task s.pollers }
      else record s { world = (enqueue_due_jobs s.world).1 }

  -- What happens to the worker. An exception of the session, outside the `try` of `_process` or
  -- in its handler, ends the consumer that meets it.
  pub data TaskEvent : Type 0 where
    starting stopping : TaskEvent
    consumer_turns poller_turns consumer_fails : ℕ → TaskEvent
    -- anything else that the process does
    elsewhere : (World → World) → TaskEvent

  unfoldable pub step : Handlers → TaskEvent → JobWorker → JobWorker
  step handlers starting s = start s
  step handlers stopping s = stop s
  step handlers (consumer_turns task) s =
      if is_running task s.consumers then consumer_turn handlers task s else s
  step handlers (poller_turns task) s = if is_running task s.pollers then poller_turn task s else s
  step handlers (consumer_fails task) s = end_consumer task s
  step handlers (elsewhere f) s = record s { world = f s.world }

  -- Events one after another.
  unfoldable pub run_worker : Handlers → List TaskEvent → JobWorker → JobWorker
  run_worker handlers [] s = s
  run_worker handlers (e ∷ rest) s = run_worker handlers rest (step handlers e s)

  -- The worker is started although it has not been stopped since its consumer failed: its poller
  -- runs on, and it holds a new one.
  abbrev pub is_lame : JobWorker → Bool
  is_lame s = not (is_busy s.consumer_task s.consumers) && is_held s.consumer_task

  abbrev pub count_leak : TaskEvent → JobWorker → ℕ → ℕ
  count_leak starting s n = if is_lame s then suc n else n
  count_leak _ s n = n

  -- How often that happens, counted from `n` on.
  abbrev pub leaks : Handlers → List TaskEvent → JobWorker → ℕ → ℕ
  leaks handlers [] s n = n
  leaks handlers (e ∷ rest) s n = leaks handlers rest (step handlers e s) (count_leak e s n)

  -- No event is a start.
  abbrev is_start : TaskEvent → Bool
  is_start starting = true
  is_start _ = false

  abbrev pub none_starts : List TaskEvent → Bool
  none_starts events = not (any is_start events)
