-- ===== src/Jobs/Overtaken.antt =====
-- The worker overtakes a creation: `create_payment` of pulsepay/payments/service.py enqueues the
-- job of its payment, in a session that commits at once, before it commits the payment; between
-- the two the worker takes the job up.
use tru_dev_tasks.Prelude.{
  ℕ, suc, ◌≤◌, ◌≡◌, refl, sym, ap, ◌∙◌, String, true, none, some, [], ◌∷◌, arith, ==_self, leb,
  Option-cases, inl, inr,
}
use tru_dev_tasks.Exec.{Exec, ok, Result, ◌>>◌, >>=-ok, >>=-inv}
use tru_dev_tasks.Jobs.Models.{Job, completed}
use tru_dev_tasks.Jobs.Queue.{enqueue, enqueue_job}
use tru_dev_tasks.Jobs.Handlers.{job_handlers}
use tru_dev_tasks.Jobs.Worker.{consume}
use tru_dev_tasks.Payments.Models.{Payment, PaymentResponse}
use tru_dev_tasks.Payments.Service.{enqueue_process_job, answer_record, store_answer}
use tru_dev_tasks.Platform.{Platform, World}
use tru_dev_tasks.Jobs.Uncommitted.{job_of, completed_in, process-completes, completed_in-get}

module _ ⦃P : Platform⦄ where
  -- What runs while a session stays open.
  abbrev pub aside : Exec World (Unit {0}) → Exec World (Unit {0})
  aside m w = (ok tt, record (m w).1 { working = w.working })

  -- `create_payment` from the flush of the payment on, with a turn of the worker in between.
  unfoldable pub record_answer_overtaken : Payment → String → ℕ → Exec World (PaymentResponse × ℕ)
  record_answer_overtaken payment idempotency_key now = do
    enqueue_process_job payment.id
    aside (consume job_handlers)
    store_answer payment idempotency_key now

  abbrev id_in : World → ℕ
  id_in w = P.uuid (suc w.reads)

  abbrev job_in : ℕ → World → Job
  job_in i w = job_of i (id_in w) (P.time w.reads)

  abbrev enqueued_in : World → P.jobs.State → World
  enqueued_in w t = record w {
    jobs = t;
    dispatch_queue = id_in w ∷ [];
    reads = suc (suc (suc w.reads));
  }

  -- `_enqueue_process_job` puts its job in the dispatch queue at once.
  enqueue_process_job-dispatches :
      (i : ℕ) (w : World) (t : P.jobs.State)
      → w.dispatch_queue ≡ []
      → P.time w.reads ≤ P.time (suc (suc w.reads))
      → P.jobs.insert w.jobs (job_in i w) ≡ some t
      → enqueue_process_job i w ≡ (ok tt, enqueued_in w t)
  unfolding enqueue_process_job enqueue_job enqueue
  enqueue_process_job-dispatches i w t empty clock inserts =
      let now : leb (P.time w.reads) (P.time (suc (suc w.reads))) ≡ true = ground arith in
      rw (inserts, now, empty) refl

  enqueue_process_job-inserts :
      (i : ℕ) (w : World) {w' : World}
      → enqueue_process_job i w ≡ (ok tt, w')
      → (t : P.jobs.State) × (P.jobs.insert w.jobs
            (job_of i (P.uuid (suc w.reads)) (P.time w.reads))
          ≡ some t)
  unfolding enqueue_process_job enqueue_job enqueue
  enqueue_process_job-inserts i w e = elim (Option-cases (P.jobs.insert w.jobs (job_in i w))) [
    | inl refused ↦ absurd (cc (ap (λ (r : Result (Unit {0}) × World). r.0) (rw refused at e)))
    | inr inserted ↦ inserted
  ]

  store_answer-frame :
      (payment : Payment) (key : String) (now : ℕ) (v : World) {answer : PaymentResponse × ℕ}
      {w' : World}
      → store_answer payment key now v ≡ (ok answer, w')
      → (w'.jobs ≡ v.jobs)
        × (w'.dispatch_queue ≡ v.dispatch_queue)
        × (w'.committed.payments ≡ v.working.payments)
  unfolding store_answer
  store_answer-frame payment key now v e =
      elim (Option-cases (
        P.idempotency_records.insert v.working.idempotency_records
          (answer_record payment key now (P.uuid v.reads)))) [
            | inl refused ↦
                absurd
                  (cc (ap (λ (r : Result (PaymentResponse × ℕ) × World). r.0) (rw refused at e)))
            | inr (t, inserts) ↦
                let stored = rw inserts at e in
                (
                  sym (ap (λ (r : Result (PaymentResponse × ℕ) × World). r.1.jobs) stored),
                  sym (
                      ap (λ (r : Result (PaymentResponse × ℕ) × World). r.1.dispatch_queue) stored),
                  sym (
                      ap (λ (r : Result (PaymentResponse × ℕ) × World). r.1.committed.payments)
                        stored),
                )
          ]

  -- The worker's turn.
  turn-completes :
      (i : ℕ) (w : World) (t : P.jobs.State)
      → P.jobs.insert w.jobs (job_in i w) ≡ some t
      → P.payments.get w.committed.payments i ≡ none
      → consume job_handlers (enqueued_in w t)
        ≡ (ok tt, completed_in (record (enqueued_in w t) { dispatch_queue = [] }) (job_in i w))
  unfolding consume
  turn-completes i w t inserts absent =
      process-completes i (id_in w) (P.time w.reads) _
        (P.jobs.insert_get w.jobs (job_in i w) inserts (id_in w) ∙ rw (==_self (id_in w)) refl)
        absent

  -- If the worker takes up the job of a new payment, with nothing else to do, before the payment
  -- is committed, the clock has not run backwards as the job was enqueued, and the creation then
  -- returns, the payment is committed as it was created, its job is stored as completed and
  -- nothing is left in the dispatch queue.
  pub overtaken-completed :
      (payment : Payment) (key : String) (now : ℕ) (w : World) {answer : PaymentResponse × ℕ}
      {w' : World}
      → w.dispatch_queue ≡ []
      → P.time w.reads ≤ P.time (suc (suc w.reads))
      → P.payments.get w.committed.payments payment.id ≡ none
      → record_answer_overtaken payment key now w ≡ (ok answer, w')
      → (w'.committed.payments ≡ w.working.payments)
        × (P.jobs.get w'.jobs (id_in w)
            ≡ some (record (job_in payment.id w) { status = completed }))
        × (w'.dispatch_queue ≡ [])
  unfolding record_answer_overtaken
  overtaken-completed payment key now w {answer} {w'} empty clock absent e =
      let (_, _, first, _) =
        >>=-inv (enqueue_process_job payment.id)
          (λ _. aside (consume job_handlers) >> store_answer payment key now) e in
      let (t, inserts) = enqueue_process_job-inserts payment.id w first in
      let stored : P.jobs.get t (id_in w) ≡ some (job_in payment.id w) =
        P.jobs.insert_get w.jobs (job_in payment.id w) inserts (id_in w)
        ∙ rw (==_self (id_in w)) refl in
      let after_turn : World =
        record (completed_in (record (enqueued_in w t) { dispatch_queue = [] })
          (job_in payment.id w)) { working = w.working } in
      let ran : store_answer payment key now after_turn ≡ (ok answer, w') =
        sym (
          ap
            (λ (r : Result (Unit {0}) × World).
              store_answer payment key now (record r.1 { working = w.working }))
            (turn-completes payment.id w t inserts absent))
        ∙ sym (
            >>=-ok (enqueue_process_job payment.id)
              (λ _. aside (consume job_handlers) >> store_answer payment key now)
              (enqueue_process_job-dispatches payment.id w t empty clock inserts))
        ∙ e in
      let (jobs_kept, queue_kept, payments_kept) =
        store_answer-frame payment key now after_turn ran in
      (
        payments_kept,
        ap (λ j. P.jobs.get j (id_in w)) jobs_kept
            ∙ completed_in-get payment.id (id_in w) (P.time w.reads) (enqueued_in w t) stored,
        queue_kept,
      )
