-- ===== src/Payments/Frame.antt =====
-- The methods of the payment service leave the refunds alone.
use tru_dev_tasks.Prelude.{
  ℕ, suc, ◌≡◌, ◌∙◌, ap, String, Option, none, some, [], ◌∷◌, if◌then◌else◌, ltb, leb, inl, inr,
  Option-cases,
}
use tru_dev_tasks.Core.Exceptions.{payment_already_processed, payment_not_found}
use tru_dev_tasks.Exec.{Exec, pure, raise, ◌>>=◌, ◌>>◌}
use tru_dev_tasks.Exec.Preserves.{Preserves, >>=-Preserves, if-Preserves, or_raise-Preserves}
use tru_dev_tasks.Jobs.Models.{Payload, uuid_text}
use tru_dev_tasks.Jobs.Queue.{enqueue_job}
use tru_dev_tasks.Jobs.Frame.{enqueue_job-SameSessions}
use tru_dev_tasks.Payments.Models.{
  Payment, PaymentStatus, pending, processing, success, failed, IdempotencyRecord,
  CreatePaymentRequest, PaymentResponse,
}
use tru_dev_tasks.Payments.StateMachine.{transition, valid_transitions}
use tru_dev_tasks.Payments.Service.{
  get_payment, get_idempotency_record, enqueue_process_job, store_answer, record_answer, create_new,
  replay, insert_payment, insert_record, delete_record, new_payment, answer_record, create_payment,
  start_if_pending, fail_started, mark_payment_failed_max_retries, authorize, soft_failure, decline,
  run_attempt, confirm_payment, is_terminal, is_pending, success_below, soft_below,
}
use tru_dev_tasks.Platform.{Platform, World}

module _ ⦃P : Platform⦄ (refunds : P.refunds.State) where
  -- The open session and the others see these refunds.
  abbrev pub HasRefunds : World → Type 0
  HasRefunds w = (w.working.refunds ≡ refunds) × (w.committed.refunds ≡ refunds)

  pub enqueue_job-HasRefunds :
      (job_type : String) (payload : Payload) (run_at : Option ℕ)
      → Preserves HasRefunds (enqueue_job job_type payload run_at)
  enqueue_job-HasRefunds job_type payload run_at w h =
      let same = enqueue_job-SameSessions job_type payload run_at w in
      (ap (λ db. db.refunds) same.working ∙ h.0, ap (λ db. db.refunds) same.committed ∙ h.1)

  transition-HasRefunds :
      (p : Payment) (to : PaymentStatus) (reason : Option String)
      → Preserves HasRefunds (transition p to reason)
  unfolding transition
  transition-HasRefunds p to reason =
      if-Preserves HasRefunds (valid_transitions p.status to) _ _ (λ w h. h) (λ w h. h)

  start_if_pending-HasRefunds : (p : Payment) → Preserves HasRefunds (start_if_pending p)
  unfolding start_if_pending
  start_if_pending-HasRefunds p =
      if-Preserves HasRefunds (is_pending p.status) _ _
        (transition-HasRefunds p processing (some "processor_started")) (λ w h. h)

  fail_started-HasRefunds : (p : Payment) → Preserves HasRefunds (fail_started p)
  unfolding fail_started
  fail_started-HasRefunds p =
      >>=-Preserves HasRefunds (transition p failed (some "max_retries_exceeded")) _
        (transition-HasRefunds p failed (some "max_retries_exceeded")) (λ q w h. (h.0, h.0))

  get_payment-HasRefunds : (payment_id : ℕ) → Preserves HasRefunds (get_payment payment_id)
  unfolding get_payment
  get_payment-HasRefunds payment_id w h =
      or_raise-Preserves HasRefunds (P.payments.get w.working.payments payment_id) payment_not_found
        w h

  pub mark_payment_failed-HasRefunds :
      (payment_id : ℕ) → Preserves HasRefunds (mark_payment_failed_max_retries payment_id)
  unfolding mark_payment_failed_max_retries
  mark_payment_failed-HasRefunds payment_id =
      >>=-Preserves HasRefunds (get_payment payment_id) _ (get_payment-HasRefunds payment_id)
        (λ p. by_status p p.status)
    where
      opened : (p : Payment) → Preserves HasRefunds (start_if_pending p >>= fail_started)
      opened p =
          >>=-Preserves HasRefunds (start_if_pending p) fail_started (start_if_pending-HasRefunds p)
            fail_started-HasRefunds

      by_status :
          (p : Payment) (status : PaymentStatus)
          → Preserves HasRefunds (elim status as (λ _. Exec World Payment) [
            | failed ↦ pure p
            | success ↦ raise payment_already_processed
            | _ ↦ start_if_pending p >>= fail_started
          ])
      by_status p pending = opened p
      by_status p processing = opened p
      by_status p success = λ w h. h
      by_status p failed = λ w h. h

  authorize-HasRefunds : (p : Payment) → Preserves HasRefunds (authorize p)
  unfolding authorize
  authorize-HasRefunds p =
      >>=-Preserves HasRefunds (transition p success (some "processor_authorized")) _
        (transition-HasRefunds p success (some "processor_authorized")) (λ q w h. (h.0, h.0))

  decline-HasRefunds : (p : Payment) → Preserves HasRefunds (decline p)
  unfolding decline
  decline-HasRefunds p =
      >>=-Preserves HasRefunds (transition p failed (some "processor_hard_failure")) _
        (transition-HasRefunds p failed (some "processor_hard_failure")) (λ q w h. (h.0, h.0))

  soft_failure-HasRefunds :
      (payment_id : ℕ) (p : Payment) → Preserves HasRefunds (soft_failure payment_id p)
  unfolding soft_failure
  soft_failure-HasRefunds payment_id p w h =
      if-Preserves HasRefunds (leb P.max_payment_retry_attempts p.retry_count) _ _
        (mark_payment_failed-HasRefunds payment_id) (λ w h. h) _ (h.0, h.0)

  run_attempt-HasRefunds :
      (payment_id : ℕ) (metadata : Option String) (p : Payment)
      → Preserves HasRefunds (run_attempt payment_id metadata p)
  unfolding run_attempt
  run_attempt-HasRefunds payment_id metadata p w h =
      if-Preserves HasRefunds (ltb (P.random w.reads) success_below) _ _ (authorize-HasRefunds _)
        (if-Preserves HasRefunds (ltb (P.random w.reads) soft_below) _ _
          (soft_failure-HasRefunds payment_id _) (decline-HasRefunds _))
        _ h

  pub confirm_payment-HasRefunds :
      (payment_id : ℕ) (metadata : Option String)
      → Preserves HasRefunds (confirm_payment payment_id metadata)
  unfolding confirm_payment
  confirm_payment-HasRefunds payment_id metadata =
      >>=-Preserves HasRefunds (get_payment payment_id) _ (get_payment-HasRefunds payment_id) (λ p.
        if-Preserves HasRefunds (is_terminal p.status) _ _ (λ w h. h)
          (>>=-Preserves HasRefunds (start_if_pending p) _ (start_if_pending-HasRefunds p)
            (run_attempt-HasRefunds payment_id metadata)))

  insert_payment-HasRefunds : (p : Payment) → Preserves HasRefunds (insert_payment p)
  insert_payment-HasRefunds p w h = elim (Option-cases (P.payments.insert w.working.payments p)) [
    | inl refused ↦ rw refused h
    | inr (t, e) ↦ rw e h
  ]

  insert_record-HasRefunds : (r : IdempotencyRecord) → Preserves HasRefunds (insert_record r)
  insert_record-HasRefunds r w h =
      elim (Option-cases (P.idempotency_records.insert w.working.idempotency_records r)) [
        | inl refused ↦ rw refused h
        | inr (t, e) ↦ rw e h
      ]

  store_answer-HasRefunds :
      (p : Payment) (key : String) (now : ℕ) → Preserves HasRefunds (store_answer p key now)
  unfolding store_answer
  store_answer-HasRefunds p key now w h =
      >>=-Preserves HasRefunds (insert_record (answer_record p key now (P.uuid w.reads))) _
        (insert_record-HasRefunds _) (λ _ v k. (k.0, k.0)) _ h

  create_new-HasRefunds :
      (request : CreatePaymentRequest) (key : String) (now : ℕ)
      → Preserves HasRefunds (create_new request key now)
  unfolding create_new record_answer enqueue_process_job
  create_new-HasRefunds request key now w h =
      let payment = new_payment request key now (P.uuid w.reads) (P.time (suc w.reads)) in
      >>=-Preserves HasRefunds (insert_payment payment) _ (insert_payment-HasRefunds payment)
        (λ _.
          >>=-Preserves HasRefunds (enqueue_process_job payment.id) _
            (>>=-Preserves HasRefunds
              (enqueue_job "process_payment" (("payment_id", uuid_text payment.id) ∷ []) none) _
              (enqueue_job-HasRefunds _ _ _) (λ _ v k. k))
            (λ _. store_answer-HasRefunds payment key now))
        _ h

  replay-HasRefunds : (r : IdempotencyRecord) → Preserves HasRefunds (replay r)
  replay-HasRefunds r w h = elim (Option-cases r.response_body) [
    | inl none_stored ↦ rw none_stored h
    | inr (a, e) ↦ rw e h
  ]

  pub create_payment-HasRefunds :
      (request : CreatePaymentRequest) (key : String)
      → Preserves HasRefunds (create_payment request key)
  unfolding create_payment get_idempotency_record
  create_payment-HasRefunds request key w h =
      >>=-Preserves HasRefunds (get_idempotency_record key) _ (λ v k. k) answer _ h
    where
      answer :
          (o : Option IdempotencyRecord)
          → Preserves HasRefunds (elim o as (λ _. Exec World (PaymentResponse × ℕ)) [
            | none ↦ create_new request key (P.time w.reads)
            | some existing ↦
                if ltb (P.time w.reads) existing.expires_at
                then replay existing
                else delete_record existing >> create_new request key (P.time w.reads)
          ])
      answer none = create_new-HasRefunds request key (P.time w.reads)
      answer (some existing) =
          if-Preserves HasRefunds (ltb (P.time w.reads) existing.expires_at) (replay existing)
            (delete_record existing >> create_new request key (P.time w.reads))
            (replay-HasRefunds existing)
            (>>=-Preserves HasRefunds (delete_record existing)
              (λ _. create_new request key (P.time w.reads)) (λ v k. k)
              (λ _. create_new-HasRefunds request key (P.time w.reads)))
