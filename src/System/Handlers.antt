-- ===== src/System/Handlers.antt =====
-- The handlers and the worker keep the tables sound, whatever job they are given.
use tru_dev_tasks.Prelude.{
  ℕ, ◌+◌, if_intro, ◌≡◌, sym, subst, String, Option, none, some, [], ◌∷◌, inl, inr, Option-cases,
  str_eq, leb, ltb, if◌then◌else◌,
}
use tru_dev_tasks.Core.Exceptions.{Exception, soft_payment_processing_failure, payment_not_found}
use tru_dev_tasks.Exec.{Exec, Result, ok, err, pure, lift, catch, ◌>>=◌, ◌>>◌, >>-pure}
use tru_dev_tasks.Exec.Preserves.{
  Preserves, >>=-Preserves, if-Preserves, catch-Preserves, or_raise-Preserves,
}
use tru_dev_tasks.Jobs.Models.{Job, Payload, running}
use tru_dev_tasks.Jobs.Worker.{is_done, call, run_handler, finish, fail, conclude, process}
use tru_dev_tasks.Jobs.Queue.{enqueue_job}
use tru_dev_tasks.Jobs.Frame.{enqueue_job-Preserves}
use tru_dev_tasks.Jobs.Handlers.{
  parse_id, next_retry_schedule, schedule_retry, process_payment, process_payment_except,
  retry_payment, retry_payment_except, deliver_webhook, process_refund, job_handlers, JobHandler,
  Handlers, get_handler, register_handler,
}
use tru_dev_tasks.Payments.Models.{Payment}
use tru_dev_tasks.Payments.Service.{confirm_payment, mark_payment_failed_max_retries, get_payment}
use tru_dev_tasks.Payments.Clean.{confirm_payment-IsClean, mark_payment_failed-IsClean}
use tru_dev_tasks.Refunds.Service as RefundService
use tru_dev_tasks.Platform.{Platform, World, with_session}
use tru_dev_tasks.System.Soundness.{IsLater, KeepsLater, with_session-IsLater}
use tru_dev_tasks.System.Sessions.{
  confirm_payment-KeepsLater, mark_payment_failed-KeepsLater, process_refund-KeepsLater,
  deliver-KeepsLater,
}
use tru_dev_tasks.Webhooks.Dispatcher.{deliver}

module _ ⦃P : Platform⦄ (s : P.payments.State) where
  -- Inside a session, where nothing is uncommitted.
  abbrev IsSettled : World → Type 0
  IsSettled w = (w.working ≡ w.committed) × IsLater s w.committed

  confirm-IsSettled :
      (payment_id : ℕ) (metadata : Option String)
      → Preserves IsSettled (confirm_payment payment_id metadata)
  confirm-IsSettled payment_id metadata w (clean, h) = (
    confirm_payment-IsClean payment_id metadata w
        (subst (λ db. IsLater s db) (sym clean) h).sound.valid clean,
    confirm_payment-KeepsLater s payment_id metadata w clean h,
  )

  mark-IsSettled :
      (payment_id : ℕ) → Preserves IsSettled (mark_payment_failed_max_retries payment_id)
  mark-IsSettled payment_id w (clean, h) = (
    mark_payment_failed-IsClean payment_id w (subst (λ db. IsLater s db) (sym clean) h).sound.valid
        clean,
    mark_payment_failed-KeepsLater s payment_id w clean h,
  )

  get_payment-IsSettled : (payment_id : ℕ) → Preserves IsSettled (get_payment payment_id)
  unfolding get_payment
  get_payment-IsSettled payment_id w h =
      or_raise-Preserves IsSettled (P.payments.get w.working.payments payment_id) payment_not_found
        w h

  schedule_retry-IsSettled :
      (payment_id retry_count : ℕ) → Preserves IsSettled (schedule_retry payment_id retry_count)
  unfolding schedule_retry next_retry_schedule
  schedule_retry-IsSettled payment_id retry_count w h =
      >>=-Preserves IsSettled (enqueue_job "retry_payment" _ _) _
        (enqueue_job-Preserves (λ a b. (a ≡ b) × IsLater s b) _ _ _) (λ _ v k. k) _ h

  process_payment_except-IsSettled :
      (payment_id : ℕ) (e : Exception) → Preserves IsSettled (process_payment_except payment_id e)
  unfolding process_payment_except
  process_payment_except-IsSettled payment_id (soft_payment_processing_failure attempt cap) =
      >>=-Preserves IsSettled (get_payment payment_id) _ (get_payment-IsSettled payment_id)
        (λ p. schedule_retry-IsSettled payment_id p.retry_count)
  process_payment_except-IsSettled payment_id e = λ w h. h

  retry_payment_except-IsSettled :
      (payment_id : ℕ) (e : Exception) → Preserves IsSettled (retry_payment_except payment_id e)
  unfolding retry_payment_except
  retry_payment_except-IsSettled payment_id (soft_payment_processing_failure attempt cap) =
      >>=-Preserves IsSettled (get_payment payment_id) _ (get_payment-IsSettled payment_id) (λ p.
        if-Preserves IsSettled (leb P.max_payment_retry_attempts p.retry_count) _ _
          (>>=-Preserves IsSettled (mark_payment_failed_max_retries payment_id) _
            (mark-IsSettled payment_id) (λ _ v k. k))
          (schedule_retry-IsSettled payment_id p.retry_count))
  retry_payment_except-IsSettled payment_id e = λ w h. h

  -- A handler, whatever its payload.
  abbrev pub HandlerKeeps : JobHandler → Type 0
  HandlerKeeps handler =
      (payload : Payload) → Preserves (λ w. IsLater s w.committed) (handler payload)

  confirm_then-IsSettled :
      (payment_id : ℕ) (handle : Exception → Exec World (Unit {0}))
      → ((e : Exception) → Preserves IsSettled (handle e))
      → Preserves IsSettled (catch (confirm_payment payment_id none >> pure tt) handle)
  confirm_then-IsSettled payment_id handle keeps =
      catch-Preserves IsSettled (confirm_payment payment_id none >> pure tt) handle
        (>>=-Preserves IsSettled (confirm_payment payment_id none) _
          (confirm-IsSettled payment_id none) (λ _ v k. k))
        keeps

  -- A handler's own session, once it has its id.
  in_session :
      (parsed : Result ℕ) (m : ℕ → Exec World (Unit {0}))
      → ((i : ℕ) → KeepsLater s (m i))
      → Preserves (λ w. IsLater s w.committed) (lift parsed >>= (λ i. with_session (m i)))
  in_session (ok i) m keeps w h = with_session-IsLater s (m i) w (keeps i) h
  in_session (err e) m keeps w h = h

  discarded : {A : Type 0} (m : Exec World A) → KeepsLater s m → KeepsLater s (m >> pure tt)
  discarded m keeps w clean h =
      subst (λ (v : World). IsLater s v.committed) (sym (>>-pure m (tt {0}) w)) (keeps w clean h)

  process_payment-HandlerKeeps : HandlerKeeps process_payment
  unfolding process_payment
  process_payment-HandlerKeeps payload =
      in_session (parse_id "payment_id" payload)
        (λ i. catch (confirm_payment i none >> pure tt) (process_payment_except i))
        (λ i w clean h.
          (confirm_then-IsSettled i (process_payment_except i) (process_payment_except-IsSettled i)
            w (clean, h)).1)

  -- The session of `retry_payment`, on the payment that it found.
  abbrev attempt_again : ℕ → Payment → Exec World (Unit {0})
  attempt_again i p =
      if leb P.max_payment_retry_attempts p.retry_count
      then mark_payment_failed_max_retries i >> pure tt
      else catch (confirm_payment i none >> pure tt) (retry_payment_except i)

  attempt_again-IsSettled : (i : ℕ) (p : Payment) → Preserves IsSettled (attempt_again i p)
  attempt_again-IsSettled i p =
      if-Preserves IsSettled (leb P.max_payment_retry_attempts p.retry_count)
        (mark_payment_failed_max_retries i >> pure tt)
        (catch (confirm_payment i none >> pure tt) (retry_payment_except i))
        (>>=-Preserves IsSettled (mark_payment_failed_max_retries i) (λ _. pure tt)
          (mark-IsSettled i) (λ _ v k. k))
        (confirm_then-IsSettled i (retry_payment_except i) (retry_payment_except-IsSettled i))

  retry_payment-HandlerKeeps : HandlerKeeps retry_payment
  unfolding retry_payment
  retry_payment-HandlerKeeps payload =
      in_session (parse_id "payment_id" payload) (λ i. get_payment i >>= attempt_again i)
        (λ i w clean h.
          (>>=-Preserves IsSettled (get_payment i) (attempt_again i) (get_payment-IsSettled i)
            (attempt_again-IsSettled i) w (clean, h)).1)

  deliver_webhook-HandlerKeeps : HandlerKeeps deliver_webhook
  unfolding deliver_webhook
  deliver_webhook-HandlerKeeps payload =
      in_session (parse_id "event_id" payload) (λ i. deliver i >> pure tt)
        (λ i. discarded (deliver i) (deliver-KeepsLater s i))

  process_refund-HandlerKeeps : HandlerKeeps process_refund
  unfolding process_refund
  process_refund-HandlerKeeps payload =
      in_session (parse_id "refund_id" payload) (λ i. RefundService.process_refund i >> pure tt)
        (λ i. discarded (RefundService.process_refund i) (process_refund-KeepsLater s i))

  abbrev AllKeep : Handlers → Type 0
  AllKeep [] = Unit
  AllKeep (e ∷ rest) = HandlerKeeps e.1 × AllKeep rest

  job_handlers-AllKeep : AllKeep job_handlers
  unfolding job_handlers register_handler
  job_handlers-AllKeep = (
    process_payment-HandlerKeeps,
    (retry_payment-HandlerKeeps, (deliver_webhook-HandlerKeeps, (process_refund-HandlerKeeps, tt))),
  )

  abbrev CallKeeps : Option JobHandler → Type 0
  CallKeeps none = Unit
  CallKeeps (some handler) = HandlerKeeps handler

  get_handler-CallKeeps :
      (job_type : String) (handlers : Handlers)
      → AllKeep handlers
      → CallKeeps (get_handler job_type handlers)
  unfolding get_handler
  get_handler-CallKeeps job_type [] all = tt
  get_handler-CallKeeps job_type (e ∷ rest) all =
      if_intro CallKeeps (str_eq e.0 job_type) (λ _. all.0)
        (λ _. get_handler-CallKeeps job_type rest all.1)

  call-IsLater :
      (o : Option JobHandler) (payload : Payload)
      → CallKeeps o
      → Preserves (λ w. IsLater s w.committed) (call o payload)
  call-IsLater none payload keeps = λ w h. h
  call-IsLater (some handler) payload keeps = keeps payload

  fail-IsLater : (job : Job) (e : Exception) → Preserves (λ w. IsLater s w.committed) (fail job e)
  unfolding fail
  fail-IsLater job e =
      if-Preserves (λ (w : World). IsLater s w.committed)
        (ltb (job.attempt_count + 1) job.max_attempts) _ _ (λ w h. h) (λ w h. h)

  conclude-IsLater :
      (job : Job) (r : Result (Unit {0}) × World)
      → IsLater s r.1.committed
      → IsLater s (conclude job r).1.committed
  unfolding finish
  conclude-IsLater job (ok u, w) h = h
  conclude-IsLater job (err e, w) h = fail-IsLater job e w h

  pub process-IsLater :
      (job_id : ℕ) → Preserves (λ w. IsLater s w.committed) (process job_handlers job_id)
  unfolding process run_handler
  process-IsLater job_id w h = elim (Option-cases (P.jobs.get w.jobs job_id)) [
    | inl missing ↦ rw missing h
    | inr (job, found) ↦ rw found (
        if-Preserves (λ (v : World). IsLater s v.committed) (is_done job.status) _ _ (λ v k. k)
          (λ v k.
            conclude-IsLater (record job { status = running }) _
              (call-IsLater (get_handler job.job_type job_handlers) job.payload
                (get_handler-CallKeeps job.job_type job_handlers job_handlers-AllKeep) _ k))
          w h)
  ]
