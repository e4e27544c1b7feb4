-- ===== src/Refunds/Frame.antt =====
-- The methods of the refund service leave the payments alone.
use tru_dev_tasks.Prelude.{
  ℕ, suc, ◌≡◌, String, Option, none, some, [], ◌∷◌, ltb, inl, inr, Option-cases,
}
use tru_dev_tasks.Core.Exceptions.{payment_not_found}
use tru_dev_tasks.Exec.{Exec, pure, gets, or_raise, ◌>>=◌}
use tru_dev_tasks.Exec.Preserves.{Preserves, >>=-Preserves, if-Preserves, or_raise-Preserves}
use tru_dev_tasks.Jobs.Models.{uuid_text}
use tru_dev_tasks.Jobs.Queue.{enqueue_job}
use tru_dev_tasks.Jobs.Frame.{enqueue_job-Preserves}
use tru_dev_tasks.Payments.Models.{Payment}
use tru_dev_tasks.Platform.{Platform, World, Db}
use tru_dev_tasks.Refunds.Models.{Refund, RefundStatus, processing, completed, failed}
use tru_dev_tasks.Refunds.Service.{
  new_refund, insert_refund, get_refund_by_idempotency_key, transition, allowed, add_refund,
  check_refund, refund_payment, initiate_refund, announce, settle, process_refund,
  completed_payload, is_closed, complete_below,
}
use tru_dev_tasks.Refunds.Conservation.{check_refund_state}
use tru_dev_tasks.Webhooks.Dispatcher.{dispatch}
use tru_dev_tasks.Webhooks.Preserves.{dispatch-Preserves}

module _ ⦃P : Platform⦄ (payments : P.payments.State) where
  abbrev SamePayments : Db → Db → Type 0
  SamePayments working committed = (working.payments ≡ payments) × (committed.payments ≡ payments)

  -- The open session and the others see these payments.
  abbrev pub HasPayments : World → Type 0
  HasPayments w = SamePayments w.working w.committed

  insert_refund-HasPayments : (r : Refund) → Preserves HasPayments (insert_refund r)
  insert_refund-HasPayments r w h = elim (Option-cases (P.refunds.insert w.working.refunds r)) [
    | inl refused ↦ rw refused h
    | inr (t, e) ↦ rw e h
  ]

  add_refund-HasPayments :
      (p : Payment) (amount : ℕ) (key : String) (reason : Option String)
      → Preserves HasPayments (add_refund p amount key reason)
  unfolding add_refund
  add_refund-HasPayments p amount key reason w h =
      >>=-Preserves HasPayments
        (insert_refund (new_refund p amount key reason (P.uuid w.reads) (P.time (suc w.reads)))) _
        (insert_refund-HasPayments _)
        (λ _ v k.
          >>=-Preserves HasPayments
            (enqueue_job "process_refund" (("refund_id", uuid_text (P.uuid w.reads)) ∷ []) none) _
            (enqueue_job-Preserves SamePayments _ _ _) (λ _ u l. (l.0, l.0)) _ k)
        _ h

  check_refund-HasPayments :
      (p : Payment) (amount : Option ℕ) → Preserves HasPayments (check_refund p amount)
  check_refund-HasPayments p amount w h = rw (check_refund_state p amount w) h

  refund_payment-HasPayments :
      (p : Payment) (amount : Option ℕ) (key : String) (reason : Option String)
      → Preserves HasPayments (refund_payment p amount key reason)
  unfolding refund_payment
  refund_payment-HasPayments p amount key reason =
      >>=-Preserves HasPayments (check_refund p amount) _ (check_refund-HasPayments p amount)
        (λ granted. add_refund-HasPayments p granted key reason)

  pub initiate_refund-HasPayments :
      (payment_id : ℕ) (amount : Option ℕ) (key : String) (reason : Option String)
      → Preserves HasPayments (initiate_refund payment_id amount key reason)
  unfolding initiate_refund get_refund_by_idempotency_key
  initiate_refund-HasPayments payment_id amount key reason =
      >>=-Preserves HasPayments (get_refund_by_idempotency_key key) _ (λ w h. h) answer
    where
      found : Payment → Exec World Refund
      found p = refund_payment p amount key reason

      answer :
          (o : Option Refund)
          → Preserves HasPayments (elim o as (λ _. Exec World Refund) [
            | some refund ↦ pure refund
            | none ↦
                gets (λ w. P.payments.get w.working.payments payment_id)
                >>= (λ o. or_raise o payment_not_found >>= found)
          ])
      answer (some refund) = λ w h. h
      answer none = λ w h.
          >>=-Preserves HasPayments
            (or_raise (P.payments.get w.working.payments payment_id) payment_not_found) found
            (or_raise-Preserves HasPayments _ _)
            (λ p. refund_payment-HasPayments p amount key reason) w h

  transition-HasPayments :
      (r : Refund) (to : RefundStatus) → Preserves HasPayments (transition r to)
  unfolding transition
  transition-HasPayments r to =
      if-Preserves HasPayments (allowed r.status to) _ _ (λ w h. h) (λ w h. h)

  announce-HasPayments : (r : Refund) → Preserves HasPayments (announce r)
  unfolding announce
  announce-HasPayments r w h =
      elim (Option-cases (P.payments.get w.working.payments r.payment_id)) [
        | inl missing ↦ rw missing (h.0, h.0)
        | inr (p, found) ↦ rw found (
            >>=-Preserves HasPayments
              (dispatch "refund.completed" (completed_payload r) p.customer_id) _
              (dispatch-Preserves SamePayments (λ a b t k. k) (λ a b k. (k.0, k.0)) _ _ _)
              (λ _ v k. k) w h)
      ]

  settle-HasPayments : (r : Refund) → Preserves HasPayments (settle r)
  unfolding settle
  settle-HasPayments r w h =
      if-Preserves HasPayments (ltb (P.random w.reads) complete_below) _ _
        (>>=-Preserves HasPayments (transition r completed) _ (transition-HasPayments r completed)
          (λ q v k.
            >>=-Preserves HasPayments (announce q) _ (announce-HasPayments q) (λ _ u l. l) _ k))
        (>>=-Preserves HasPayments (transition r failed) _ (transition-HasPayments r failed)
          (λ q v k. (k.0, k.0)))
        _ h

  pub process_refund-HasPayments :
      (refund_id : ℕ) → Preserves HasPayments (process_refund refund_id)
  unfolding process_refund
  process_refund-HasPayments refund_id w h =
      >>=-Preserves HasPayments
        (or_raise (P.refunds.get w.working.refunds refund_id) payment_not_found) _
        (or_raise-Preserves HasPayments _ _)
        (λ r.
          if-Preserves HasPayments (is_closed r.status) _ _ (λ v k. k)
            (>>=-Preserves HasPayments (transition r processing) _
              (transition-HasPayments r processing) (λ q v k. settle-HasPayments q _ k)))
        w h
