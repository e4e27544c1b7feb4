-- ===== src/Jobs/Lifecycle.antt =====
-- How many tasks of the worker run at a time.
use tru_dev_tasks.Prelude.{ℕ, suc, ◌≤◌, ◌≡◌, refl, arith, true, false, some, List, [], ◌∷◌, length}
use tru_dev_tasks.Jobs.Handlers.{Handlers}
use tru_dev_tasks.Jobs.Tasks.{
  JobWorker, new_worker, stop, TaskEvent, starting, stopping, consumer_turns, poller_turns,
  consumer_fails, elsewhere, step, run_worker, count_leak, leaks, none_starts,
}
use tru_dev_tasks.Platform.{Platform}
use tru_dev_tasks.Jobs.Phase.{Phase, step-Phase, stop-empties, without_self, idle, busy, lame}

module _ ⦃P : Platform⦄ where
  run_worker-Phase :
      (handlers : Handlers) (events : List TaskEvent) (n : ℕ) (s : JobWorker)
      → Phase n s
      → Phase (leaks handlers events s n) (run_worker handlers events s)
  unfolding run_worker
  run_worker-Phase handlers [] n s h = h
  run_worker-Phase handlers (e ∷ rest) n s h =
      run_worker-Phase handlers rest (count_leak e s n) (step handlers e s)
        (step-Phase handlers e n s h)

  Phase-bounds :
      (n : ℕ) (s : JobWorker) → Phase n s → (length s.consumers ≤ 1) × (length s.pollers ≤ suc n)
  Phase-bounds n s (idle cs ct dt few) = (rw cs (omega arith), omega arith)
  Phase-bounds n s (busy c d cs ct dt up few rest) = (rw cs (omega arith), few)
  Phase-bounds n s (lame c d cs ct dt up few rest) = (rw cs (omega arith), few)

  -- A stop of a worker that was up before the events.
  pub run_up-stops :
      (handlers : Handlers) (events : List TaskEvent) (s : JobWorker) (c d : ℕ)
      → s.consumers ≡ c ∷ []
      → s.pollers ≡ d ∷ []
      → s.consumer_task ≡ some c
      → s.delayed_poll_task ≡ some d
      → s.stop_event ≡ false
      → let t = stop (run_worker handlers events s) in
        (t.consumers ≡ []) × (length t.pollers ≤ leaks handlers events s 0)
  run_up-stops handlers events s c d cs ps ct dt up = stop-empties _ _ (
      run_worker-Phase handlers events 0 s
        (busy c d cs ct dt up (rw ps (omega arith)) (rw ps (rw (without_self d) (omega arith)))))

  -- Without a start there is no such start.
  pub leaks_without_start :
      (handlers : Handlers) (events : List TaskEvent) (s : JobWorker) (n : ℕ)
      → none_starts events ≡ true
      → leaks handlers events s n ≡ n
  leaks_without_start handlers [] s n h = refl
  leaks_without_start handlers (starting ∷ rest) s n h = cc h
  leaks_without_start handlers (stopping ∷ rest) s n h = leaks_without_start handlers rest _ n h
  leaks_without_start handlers (consumer_turns _ ∷ rest) s n h =
      leaks_without_start handlers rest _ n h
  leaks_without_start handlers (poller_turns _ ∷ rest) s n h =
      leaks_without_start handlers rest _ n h
  leaks_without_start handlers (consumer_fails _ ∷ rest) s n h =
      leaks_without_start handlers rest _ n h
  leaks_without_start handlers (elsewhere _ ∷ rest) s n h = leaks_without_start handlers rest _ n h

  -- However a new worker is started and stopped in a process that runs no task of a worker yet,
  -- and whatever its tasks and the rest of the process do and whatever fails in them, at most one
  -- consumer runs at a time, and at most one poller more than the starts between the failure of a
  -- consumer and a stop; a stop then leaves no consumer, and at most a poller for each such start.
  pub run_worker-bounds :
      (handlers : Handlers) (events : List TaskEvent) (s : JobWorker)
      → s.consumers ≡ []
      → s.pollers ≡ []
      → let t = run_worker handlers events (new_worker s) in
        (length t.consumers ≤ 1)
        × (length t.pollers ≤ suc (leaks handlers events (new_worker s) 0))
        × ((stop t).consumers ≡ [])
        × (length (stop t).pollers ≤ leaks handlers events (new_worker s) 0)
  run_worker-bounds handlers events s cs ps =
      let fresh = idle cs refl refl (rw ps (omega arith)) in
      let h = run_worker-Phase handlers events 0 (new_worker s) fresh in
      let (one, some_more) = Phase-bounds _ _ h in
      let (none_left, few) = stop-empties _ _ h in (one, some_more, none_left, few)
