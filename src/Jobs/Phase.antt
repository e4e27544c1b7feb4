-- ===== src/Jobs/Phase.antt =====
-- What holds of the worker of pulsepay/jobs/worker.py between two events.
use mathlib.Core.Bool.{true≢false}
use tru_dev_tasks.Prelude.{
  ℕ, suc, ◌≤◌, ◌≡◌, refl, sym, ◌∙◌, arith, true, false, none, some, Bool-cases, inl, inr, ◌⊎◌, List,
  [], ◌∷◌, length, ◌==◌, ==_self, if◌then◌else◌, if_intro,
}
use tru_dev_tasks.Exec.{Result, ok, err}
use tru_dev_tasks.Jobs.Handlers.{Handlers}
use tru_dev_tasks.Jobs.Worker.{consume}
use tru_dev_tasks.Jobs.Tasks.{
  JobWorker, without, is_running, is_busy, started, start, stop, end_consumer, consumed,
  consumer_turn, poller_turn, TaskEvent, starting, stopping, consumer_turns, poller_turns,
  consumer_fails, elsewhere, step, is_lame, is_held, count_leak,
}
use tru_dev_tasks.Platform.{Platform, World}
use tru_dev_tasks.Jobs.Returns.{consume-returns}

length-without : (task : ℕ) (tasks : List ℕ) → length (without task tasks) ≤ length tasks
length-without task [] = omega arith
length-without task (t ∷ tasks) = ground (arith, length-without task tasks)

length-without_self :
    (task : ℕ) (tasks : List ℕ) → length (without task (task ∷ tasks)) ≤ length tasks
length-without_self task tasks = ground (arith, ==_self task, length-without task tasks)

is_running_self : (task : ℕ) → is_running task (task ∷ []) ≡ true
is_running_self task = ground (arith, ==_self task)

pub without_self : (task : ℕ) → without task (task ∷ []) ≡ []
without_self task = ground (arith, ==_self task)

without_other : (task c : ℕ) → (without task (c ∷ []) ≡ c ∷ []) ⊎ (without task (c ∷ []) ≡ [])
without_other task c = elim (Bool-cases (task == c)) [
  | inl same ↦ inr (rw same refl)
  | inr other ↦ inl (rw other refl)
]

module _ ⦃P : Platform⦄ where
  -- Idle, running, or running without the consumer, which has failed; in each the pollers that
  -- the worker no longer holds number at most `n`.
  pub data Phase (n : ℕ) (s : JobWorker) : Type 0 where
    idle :
        s.consumers ≡ []
        → s.consumer_task ≡ none
        → s.delayed_poll_task ≡ none
        → length s.pollers ≤ n
        → Phase n s
    busy :
        (c d : ℕ)
        → s.consumers ≡ c ∷ []
        → s.consumer_task ≡ some c
        → s.delayed_poll_task ≡ some d
        → s.stop_event ≡ false
        → length s.pollers ≤ suc n
        → length (without d s.pollers) ≤ n
        → Phase n s
    lame :
        (c d : ℕ)
        → s.consumers ≡ []
        → s.consumer_task ≡ some c
        → s.delayed_poll_task ≡ some d
        → s.stop_event ≡ false
        → length s.pollers ≤ suc n
        → length (without d s.pollers) ≤ n
        → Phase n s

  pub world-Phase :
      (n : ℕ) (s : JobWorker) (w : World) → Phase n s → Phase n (record s { world = w })
  world-Phase n s w (idle cs ct dt few) = idle cs ct dt few
  world-Phase n s w (busy c d cs ct dt up few rest) = busy c d cs ct dt up few rest
  world-Phase n s w (lame c d cs ct dt up few rest) = lame c d cs ct dt up few rest

  pub started-Phase :
      (n : ℕ) (s : JobWorker) → s.consumers ≡ [] → length s.pollers ≤ n → Phase n (started s)
  started-Phase n s none_left few =
      busy s.next_task (suc s.next_task) (rw none_left refl) refl refl refl (omega arith)
        (omega (arith, length-without_self (suc s.next_task) s.pollers))

  pub start-Phase :
      (n : ℕ) (s : JobWorker) → Phase n s → Phase (if is_lame s then suc n else n) (start s)
  unfolding start
  start-Phase n s (idle cs ct dt few) =
      let off : is_busy s.consumer_task s.consumers ≡ false = rw ct refl in
      let free : is_held s.consumer_task ≡ false = rw ct refl in
      rw (off, free) (started-Phase n s cs few)
  start-Phase n s (busy c d cs ct dt up few rest) =
      let on : is_busy s.consumer_task s.consumers ≡ true = rw (ct, cs) (is_running_self c) in
      rw on (busy c d cs ct dt up few rest)
  start-Phase n s (lame c d cs ct dt up few rest) =
      let off : is_busy s.consumer_task s.consumers ≡ false = rw (ct, cs) refl in
      let held : is_held s.consumer_task ≡ true = rw ct refl in
      rw (off, held) (started-Phase (suc n) s cs few)

  -- Whatever has happened, a stop ends the consumer, and the poller that the worker holds.
  pub stop-empties :
      (n : ℕ) (s : JobWorker)
      → Phase n s
      → ((stop s).consumers ≡ []) × (length (stop s).pollers ≤ n)
  unfolding stop
  stop-empties n s (idle cs ct dt few) = rw (cs, ct, dt) (refl, few)
  stop-empties n s (busy c d cs ct dt up few rest) = rw (cs, ct, dt) (without_self c, rest)
  stop-empties n s (lame c d cs ct dt up few rest) = rw (cs, ct, dt) (refl, rest)

  pub stop-Phase : (n : ℕ) (s : JobWorker) → Phase n s → Phase n (stop s)
  unfolding stop
  stop-Phase n s h = let (none_left, few) = stop-empties n s h in idle none_left refl refl few

  pub poller_turn-Phase : (n task : ℕ) (s : JobWorker) → Phase n s → Phase n (poller_turn task s)
  unfolding poller_turn
  poller_turn-Phase n task s (idle cs ct dt few) =
      if_intro (Phase n) s.stop_event
        (λ _. idle cs ct dt (omega (arith, length-without task s.pollers))) (λ _. idle cs ct dt few)
  poller_turn-Phase n task s (busy c d cs ct dt up few rest) =
      if_intro (Phase n) s.stop_event (λ down. absurd (true≢false (sym down ∙ up)))
        (λ _. busy c d cs ct dt up few rest)
  poller_turn-Phase n task s (lame c d cs ct dt up few rest) =
      if_intro (Phase n) s.stop_event (λ down. absurd (true≢false (sym down ∙ up)))
        (λ _. lame c d cs ct dt up few rest)

  -- A consumer that is up and returns from its job goes on.
  pub consumed-Phase :
      (n task : ℕ) (s : JobWorker) (r : Result (Unit {0}) × World)
      → r.0 ≡ ok tt
      → Phase n s
      → Phase n (consumed task s r)
  consumed-Phase n task s (ok u, w) e h = world-Phase n s w h
  consumed-Phase n task s (err x, w) e h = cc e

  pub consumer_turn-Phase :
      (n : ℕ) (handlers : Handlers) (task : ℕ) (s : JobWorker)
      → Phase n s
      → is_running task s.consumers ≡ true
      → Phase n (consumer_turn handlers task s)
  unfolding consumer_turn
  consumer_turn-Phase n handlers task s (busy c d cs ct dt up few rest) _ =
      if_intro (Phase n) s.stop_event (λ down. absurd (true≢false (sym down ∙ up)))
        (λ _.
          consumed-Phase n task s (consume handlers s.world) (consume-returns handlers s.world)
            (busy c d cs ct dt up few rest))
  consumer_turn-Phase n handlers task s (idle cs ct dt few) running =
      absurd (true≢false (sym running ∙ rw cs refl))
  consumer_turn-Phase n handlers task s (lame c d cs ct dt up few rest) running =
      absurd (true≢false (sym running ∙ rw cs refl))

  pub end_consumer-Phase : (n task : ℕ) (s : JobWorker) → Phase n s → Phase n (end_consumer task s)
  end_consumer-Phase n task s (idle cs ct dt few) = idle (rw cs refl) ct dt few
  end_consumer-Phase n task s (lame c d cs ct dt up few rest) =
      lame c d (rw cs refl) ct dt up few rest
  end_consumer-Phase n task s (busy c d cs ct dt up few rest) = elim (without_other task c) [
    | inl kept ↦ busy c d (rw cs kept) ct dt up few rest
    | inr ended ↦ lame c d (rw cs ended) ct dt up few rest
  ]

  pub step-Phase :
      (handlers : Handlers) (e : TaskEvent) (n : ℕ) (s : JobWorker)
      → Phase n s
      → Phase (count_leak e s n) (step handlers e s)
  unfolding step
  step-Phase handlers starting n s h = start-Phase n s h
  step-Phase handlers stopping n s h = stop-Phase n s h
  step-Phase handlers (consumer_turns task) n s h =
      elim (Bool-cases (is_running task s.consumers)) [
        | inl running ↦ rw running (consumer_turn-Phase n handlers task s h running)
        | inr ended ↦ rw ended h
      ]
  step-Phase handlers (poller_turns task) n s h =
      if_intro (Phase n) (is_running task s.pollers) (λ _. poller_turn-Phase n task s h) (λ _. h)
  step-Phase handlers (consumer_fails task) n s h = end_consumer-Phase n task s h
  step-Phase handlers (elsewhere f) n s h = world-Phase n s (f s.world) h
