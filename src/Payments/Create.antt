-- ===== src/Payments/Create.antt =====
-- `create_payment`: what a new key, a live key and an expired key lead to.
use tru_dev_tasks.Prelude.{
  ℕ, suc, ◌≡◌, refl, true, false, Bool-cases, Option-cases, inl, inr, ◌⊎◌, String, Option, none,
  some, select, str_eq, ltb, [], ◌∷◌, arith,
}
use tru_dev_tasks.Exec.{Result, Result-cases, ok}
use tru_dev_tasks.Jobs.Models.{uuid_text}
use tru_dev_tasks.Jobs.Frame.{SameSessions, enqueue_job-SameSessions}
use tru_dev_tasks.Database.Queries.{scalar_one_or_none}
use tru_dev_tasks.Payments.Machine.{stays}
use tru_dev_tasks.Payments.Models.{Payment, IdempotencyRecord, CreatePaymentRequest}
use tru_dev_tasks.Payments.Service.{
  get_idempotency_record, replay, delete_record, enqueue_process_job, create_new, record_answer,
  store_answer, new_payment, create_payment,
}
use tru_dev_tasks.Payments.Lifecycle.{IsValid, AllValid}
use tru_dev_tasks.Payments.Progress.{AllAdvance, insert-AllAdvance}
use tru_dev_tasks.Platform.{Platform, World}

module _ ⦃P : Platform⦄ where
  pub enqueue_process_job-SameSessions :
      (payment_id : ℕ) (w : World) → SameSessions w (enqueue_process_job payment_id w).1
  unfolding enqueue_process_job
  enqueue_process_job-SameSessions payment_id w = ground (
    arith,
    enqueue_job-SameSessions "process_payment" (("payment_id", uuid_text payment_id) ∷ []) none w,
  )

  -- It ends in a commit of the payments that it began with, or in none.
  pub record_answer-ends :
      (p : Payment) (key : String) (now : ℕ) (w : World)
      → ((record_answer p key now w).1.committed ≡ w.committed)
        ⊎ ((record_answer p key now w).1.committed.payments ≡ w.working.payments)
  unfolding record_answer store_answer
  record_answer-ends p key now w = ground (arith, enqueue_process_job-SameSessions p.id w)

  pub new_payment-IsValid :
      (request : CreatePaymentRequest) (key : String) (now id created_at : ℕ)
      → IsValid (new_payment request key now id created_at)
  unfolding new_payment
  new_payment-IsValid request key now id created_at = record {
    history = (refl, refl);
    capped = omega arith;
    attempt_left = λ _. P.max_attempts_pos;
    confirmed = λ h. cc;
    unconfirmed = λ _. refl;
    classified = λ h. cc;
    reached = stays;
  }

  pub insert-AllValid :
      (s t : P.payments.State) (p : Payment)
      → P.payments.insert s p ≡ some t
      → AllValid s
      → IsValid p
      → AllValid t
  insert-AllValid s t p e valid v i q h = ground (arith, P.payments.insert_get s p e i, valid i q)

  create_new-AllValid :
      (request : CreatePaymentRequest) (key : String) (now : ℕ) (w : World)
      → AllValid w.working.payments
      → AllValid w.committed.payments
      → AllValid (create_new request key now w).1.committed.payments
  unfolding create_new
  create_new-AllValid request key now w valid before =
      elim (Option-cases (P.payments.insert w.working.payments payment)) [
        | inl refused ↦ rw refused before
        | inr (t, e) ↦ rw e (elim (record_answer-ends payment key now (inserted t)) [
          | inl same ↦ rw same before
          | inr saved ↦ rw saved (
              insert-AllValid w.working.payments t payment e valid
                (new_payment-IsValid request key now (P.uuid w.reads) (P.time (suc w.reads))))
        ])
      ]
    where
      payment : Payment
      payment = new_payment request key now (P.uuid w.reads) (P.time (suc w.reads))

      inserted : P.payments.State → World
      inserted t = record w {
        working = record w.working { payments = t };
        reads = suc (suc w.reads);
      }

  replay_unchanged : (r : IdempotencyRecord) (w : World) → (replay r w).1 ≡ w
  replay_unchanged r w = ground arith

  -- How `create_payment` goes on after its first steps.
  module _ (request : CreatePaymentRequest) (key : String) (w : World) where
    abbrev pub read : World
    read = record w { reads = suc w.reads }

    abbrev pub found : Result (Option IdempotencyRecord)
    found =
        scalar_one_or_none (
          select (λ r. str_eq r.key key) (P.idempotency_records.rows w.working.idempotency_records))

    pub create_payment_new :
        found ≡ ok none
        → create_payment request key w ≡ create_new request key (P.time w.reads) read
    unfolding create_payment get_idempotency_record
    create_payment_new e = rw e refl

    pub create_payment_live :
        (r : IdempotencyRecord)
        → found ≡ ok (some r)
        → ltb (P.time w.reads) r.expires_at ≡ true
        → create_payment request key w ≡ replay r read
    unfolding create_payment get_idempotency_record
    create_payment_live r e live = rw e (simp live)

    pub create_payment_expired :
        (r : IdempotencyRecord)
        → found ≡ ok (some r)
        → ltb (P.time w.reads) r.expires_at ≡ false
        → create_payment request key w
          ≡ create_new request key (P.time w.reads) (delete_record r read).1
    unfolding create_payment get_idempotency_record
    create_payment_expired r e live = rw e (simp live)

    -- If every payment that the session sees and every committed one is valid, a creation,
    -- whatever the key has met, leaves every committed payment valid.
    pub create_payment-AllValid :
        AllValid w.working.payments
        → AllValid w.committed.payments
        → AllValid (create_payment request key w).1.committed.payments
    create_payment-AllValid valid before = elim (Result-cases found) [
      | inl (none, e) ↦
          rw (create_payment_new e) (create_new-AllValid request key _ read valid before)
      | inl (some r, e) ↦ elim (Bool-cases (ltb (P.time w.reads) r.expires_at)) [
        | inl live ↦ rw (create_payment_live r e live, replay_unchanged r read) before
        | inr expired ↦
            rw (create_payment_expired r e expired)
              (create_new-AllValid request key _ (delete_record r read).1 valid before)
      ]
      | inr (x, e) ↦ unfold create_payment get_idempotency_record in rw e before
    ]

  -- A creation adds a payment, if anything, and leaves the others as they are.
  module _ (s : P.payments.State) where
    create_new-AllAdvance :
        (request : CreatePaymentRequest) (key : String) (now : ℕ) (w : World)
        → AllAdvance s w.working.payments
        → AllAdvance s w.committed.payments
        → AllAdvance s (create_new request key now w).1.committed.payments
    unfolding create_new
    create_new-AllAdvance request key now w a before =
        elim (Option-cases (P.payments.insert w.working.payments payment)) [
          | inl refused ↦ rw refused before
          | inr (t, e) ↦ rw e (elim (record_answer-ends payment key now (inserted t)) [
            | inl same ↦ rw same before
            | inr saved ↦ rw saved (insert-AllAdvance s w.working.payments t payment e a)
          ])
        ]
      where
        payment : Payment
        payment = new_payment request key now (P.uuid w.reads) (P.time (suc w.reads))

        inserted : P.payments.State → World
        inserted t = record w {
          working = record w.working { payments = t };
          reads = suc (suc w.reads);
        }

    pub create_payment-AllAdvance :
        (request : CreatePaymentRequest) (key : String) (w : World)
        → AllAdvance s w.working.payments
        → AllAdvance s w.committed.payments
        → AllAdvance s (create_payment request key w).1.committed.payments
    create_payment-AllAdvance request key w a before = elim (Result-cases (found request key w)) [
      | inl (none, e) ↦
          rw (create_payment_new request key w e)
            (create_new-AllAdvance request key _ (read request key w) a before)
      | inl (some r, e) ↦ elim (Bool-cases (ltb (P.time w.reads) r.expires_at)) [
        | inl live ↦
            rw (create_payment_live request key w r e live, replay_unchanged r (read request key w))
              before
        | inr expired ↦
            rw (create_payment_expired request key w r e expired) (
              create_new-AllAdvance request key _ (delete_record r (read request key w)).1 a before)
      ]
      | inr (x, e) ↦ unfold create_payment get_idempotency_record in rw e before
    ]
