-- ===== src/Jobs/FollowUp.antt =====
-- A payment that a job leaves open has a job that retries it.
pub mod RetryPayment
use tru_dev_tasks.Prelude.{
  some-injective, ℕ, suc, ◌≡◌, leb, ◌+◌, ◌*◌, ◌^◌, refl, sym, ap, subst, ◌∙◌, inl, inr, false,
  String, Option, none, some, [], ◌∷◌, Bool-cases, Option-cases, ==_self,
}
use tru_dev_tasks.Core.Exceptions.{soft_payment_processing_failure, payment_not_found}
use tru_dev_tasks.Exec.{
  Exec, Result, ok, err, pure, catch, after, ◌>>◌, >>=-inv, >>=-err, catch-err,
}
use tru_dev_tasks.Jobs.Handlers.{
  parse_id, next_retry_schedule, schedule_retry, process_payment, process_payment_except,
}
use tru_dev_tasks.Jobs.Models.{Job, queued, Payload, uuid_text, number}
use tru_dev_tasks.Jobs.Queue.{enqueue, enqueue_job}
use tru_dev_tasks.Payments.Lifecycle.{AllValid}
use tru_dev_tasks.Payments.Lookup.{get_payment_missing, confirm_terminal}
use tru_dev_tasks.Payments.Models.{Payment}
use tru_dev_tasks.Payments.Returned.{Ends, confirm_open-Ends}
use tru_dev_tasks.Payments.Service.{is_terminal, get_payment, confirm_payment}
use tru_dev_tasks.Webhooks.Dispatcher.{jitter}
use tru_dev_tasks.Platform.{Platform, World}

module _ ⦃P : Platform⦄ where
  -- There is a queued job that retries the payment.
  pub record HasRetry (payment_id : ℕ) (w : World) : Type 0 where
    pub job : Job
    pub stored : P.jobs.get w.jobs job.id ≡ some job
    pub job_type : job.job_type ≡ "retry_payment"
    pub status : job.status ≡ queued
    pub payload : parse_id "payment_id" job.payload ≡ ok payment_id

  -- The job that was enqueued, if one was.
  abbrev Stores : String → Payload → Result Job × World → Type 0
  Stores job_type payload (ok job, w) =
      (P.jobs.get w.jobs job.id ≡ some job)
      × (job.job_type ≡ job_type)
      × (job.status ≡ queued)
      × (job.payload ≡ payload)
  Stores job_type payload (err x, w) = Unit

  enqueue_job-Stores :
      (job_type : String) (payload : Payload) (t : ℕ) (w : World)
      → Stores job_type payload (enqueue_job job_type payload (some t) w)
  unfolding enqueue_job enqueue
  enqueue_job-Stores job_type payload t w = elim (Option-cases (P.jobs.insert w.jobs new)) [
    | inl refused ↦ rw refused tt
    | inr (jobs, inserted) ↦
        let there : P.jobs.get jobs new.id ≡ some new =
          P.jobs.insert_get w.jobs new inserted new.id ∙ rw (==_self new.id) refl in
        elim (Bool-cases (leb t (P.time (suc w.reads)))) [
          | inl due ↦ rw (inserted, due) (there, refl, refl, refl)
          | inr later ↦ rw (inserted, later) (there, refl, refl, refl)
        ]
  ]
    where
      new : Job
      new = record {
        id = P.uuid w.reads;
        job_type = job_type;
        payload = payload;
        status = queued;
        attempt_count = 0;
        max_attempts = 3;
        run_at = t;
        last_error = none;
      }

  pub schedule_retry-HasRetry :
      (payment_id retry_count : ℕ) (w : World) {u : Unit {0}} {w' : World}
      → schedule_retry payment_id retry_count w ≡ (ok u, w')
      → HasRetry payment_id w'
  unfolding schedule_retry next_retry_schedule parse_id
  schedule_retry-HasRetry payment_id retry_count w {u} {w'} e =
      let (job, w1, e1, e2) =
        >>=-inv (enqueue_job "retry_payment" payload (some t)) (λ _. pure tt) {s = read} e in
      let (stored, kind, status, body) =
        subst (Stores "retry_payment" payload) e1
          (enqueue_job-Stores "retry_payment" payload t read) in
      subst (HasRetry payment_id) (ap (λ (x : Result (Unit {0}) × World). x.1) e2) (record {
        job = job;
        stored = stored;
        job_type = kind;
        status = status;
        payload = ap (parse_id "payment_id") body;
      })
    where
      t : ℕ
      t = P.time (suc w.reads) + (2 ^ retry_count * 1000000 + jitter (P.random w.reads))

      payload : Payload
      payload =
          ("payment_id", uuid_text payment_id)
          ∷ ("attempt_number", number retry_count)
          ∷ ("next_run_at", number t)
          ∷ []

      read : World
      read = record w { reads = suc (suc w.reads) }

  -- A session that returns and leaves the payment open has left a job for it.
  abbrev pub FollowsUp : ℕ → Result (Unit {0}) × World → Type 0
  FollowsUp i (ok u, w) =
      (q : Payment)
      → P.payments.get w.committed.payments i ≡ some q
      → is_terminal q.status ≡ false
      → HasRetry i w
  FollowsUp i (err x, w) = Unit

  pub returns-FollowsUp :
      (i : ℕ) (r : Result (Unit {0}) × World)
      → ((u : Unit {0}) (w : World) → r ≡ (ok u, w) → HasRetry i w)
      → FollowsUp i r
  returns-FollowsUp i (ok u, w) h = λ q there n. h u w refl
  returns-FollowsUp i (err x, w) h = tt

  soft-FollowsUp :
      (i a c : ℕ) (v : World)
      → FollowsUp i (process_payment_except i (soft_payment_processing_failure a c) v)
  unfolding process_payment_except
  soft-FollowsUp i a c v = returns-FollowsUp i _ λ u w e.
      let (p, v', found, scheduled) =
        >>=-inv (get_payment i) (λ (p : Payment). schedule_retry i p.retry_count) e in
      schedule_retry-HasRetry i p.retry_count v' scheduled

  abbrev caught : ℕ → Result Payment × World → Result (Unit {0}) × World
  caught i r = catch (λ (s : World). after (λ _. pure (tt {0})) r) (process_payment_except i) r.1

  caught-FollowsUp : (i : ℕ) (r : Result Payment × World) → Ends i r → FollowsUp i (caught i r)
  caught-FollowsUp i (ok p, v) (stored, terminal) = λ q there n.
      let same : p ≡ q = some-injective (sym stored ∙ there) in
      absurd (cc (ap (λ (x : Payment). is_terminal x.status) same, terminal, n))
  caught-FollowsUp i (err x, v) (a, c, e) =
      subst (λ y. FollowsUp i (process_payment_except i y v)) (sym e) (soft-FollowsUp i a c v)

  abbrev body : ℕ → Exec World (Unit {0})
  body i = catch (confirm_payment i none >> pure tt) (process_payment_except i)

  body-FollowsUp :
      (i : ℕ) (w : World)
      → w.working ≡ w.committed
      → AllValid w.working.payments
      → FollowsUp i (body i w)
  unfolding process_payment_except
  body-FollowsUp i w clean valid = elim (Option-cases (P.payments.get w.working.payments i)) [
    | inl missing ↦
        rw
          (catch-err (confirm_payment i none >> pure tt) (process_payment_except i)
            (>>=-err (confirm_payment i none) (λ _. pure tt) (confirm_missing missing)))
          (λ q there n. cc (missing, there, clean))
    | inr (p, found) ↦ elim (Bool-cases (is_terminal p.status)) [
      | inl terminal ↦
          rw
            (catch-err (confirm_payment i none >> pure tt) (process_payment_except i) (
              >>=-err (confirm_payment i none) (λ _. pure tt)
                (confirm_terminal i w p found none terminal)))
            tt
      | inr n ↦ caught-FollowsUp i (confirm_payment i none w) (
          subst (λ k. Ends k (confirm_payment k none w)) (P.payments.get_key found)
            (confirm_open-Ends p none w (simp (P.payments.get_key found) found) n
              (valid i p found).history))
    ]
  ]
    where
      confirm_missing :
          P.payments.get w.working.payments i ≡ none
          → confirm_payment i none w ≡ (err payment_not_found, w)
      confirm_missing missing =
          unfold confirm_payment in >>=-err (get_payment i) _ (get_payment_missing i w missing)

  pub closed-FollowsUp :
      (i : ℕ) (r : Result (Unit {0}) × World)
      → FollowsUp i r
      → FollowsUp i (r.0, record r.1 { working = r.1.committed })
  closed-FollowsUp i (ok u, w) h = λ q there n.
      let kept : HasRetry i w = h q there n in
      record {
        job = kept.job;
        stored = kept.stored;
        job_type = kept.job_type;
        status = kept.status;
        payload = kept.payload;
      }
  closed-FollowsUp i (err x, w) h = tt

  -- If the committed payments are valid and the handler of `process_payment` returns for a payment
  -- that is still neither confirmed nor failed, there is a queued `retry_payment` job for it.
  pub process_payment-HasRetry :
      (payload : Payload) (i : ℕ) (q : Payment) (w : World) {u : Unit {0}} {w' : World}
      → parse_id "payment_id" payload ≡ ok i
      → AllValid w.committed.payments
      → process_payment payload w ≡ (ok u, w')
      → P.payments.get w'.committed.payments i ≡ some q
      → is_terminal q.status ≡ false
      → HasRetry i w'
  unfolding process_payment
  process_payment-HasRetry payload i q w {u} {w'} parsed valid e there n =
      let begun : World = record w { working = w.committed } in
      subst (FollowsUp i) (rw parsed at e)
        (closed-FollowsUp i (body i begun) (body-FollowsUp i begun refl valid)) q there n
