-- ===== src/Refunds/Process.antt =====
-- `process_refund` keeps the refunds within the payments, and moves a refund along its states.
use tru_dev_tasks.Prelude.{
  ℕ, suc, ◌+◌, ◌≤◌, ◌≡◌, refl, subst, ◌∙◌, ◌⊎◌, inl, inr, false, some, List, [], ◌∷◌, ◌++◌, ltb,
  if◌then◌else◌, if_intro, arith, Option-cases,
}
use tru_dev_tasks.Exec.{Exec, >>-pure}
use tru_dev_tasks.Platform.{Platform, World, Db, refund_ledger}
use tru_dev_tasks.Refunds.Models.{Refund, RefundStatus, pending, processing, completed, failed}
use tru_dev_tasks.Refunds.Service.{
  counts, refunded, is_failed, complete_below, completed_payload, transition, announce, settle,
  process_refund,
}
use tru_dev_tasks.Refunds.Conservation.{refunded_perm, refunded_cons, refundable, IsWithin}
use tru_dev_tasks.Webhooks.Dispatcher.{dispatch}
use tru_dev_tasks.Webhooks.Frame.{dispatch-ends}

module _ ⦃P : Platform⦄ where
  -- `r` stands for `old` with another status, and counts only if `old` does.
  record IsChangeOf (old r : Refund) : Type 0 where
    id : r.id ≡ old.id
    payment_id : r.payment_id ≡ old.payment_id
    amount : r.amount ≡ old.amount
    counted : is_failed r.status ≡ false → is_failed old.status ≡ false

  update-IsWithin :
      (db : Db) (old r : Refund)
      → P.refunds.get db.refunds r.id ≡ some old
      → IsChangeOf old r
      → IsWithin db
      → IsWithin (record db { refunds = P.refunds.update db.refunds r })
  update-IsWithin db old r e c h i =
      let (rest, before, now) = P.refunds.update_rows db.refunds r e in
      lemma rest (refunded_perm i before ∙ refunded_cons i old rest)
        (refunded_perm i now ∙ refunded_cons i r rest)
    where
      lemma :
          (rest : List Refund)
          → refunded i (P.refunds.rows db.refunds)
            ≡ (if counts i old then old.amount else 0) + refunded i rest
          → refunded i (P.refunds.rows (P.refunds.update db.refunds r))
            ≡ (if counts i r then r.amount else 0) + refunded i rest
          → refunded i (P.refunds.rows (P.refunds.update db.refunds r))
            ≤ refundable (P.payments.get db.payments i)
      lemma rest b n = ground (arith, h i)

  announce-ends :
      (r : Refund) (w : World)
      → ((announce r w).1.committed ≡ w.committed)
        ⊎ (((announce r w).1.committed.payments ≡ w.working.payments)
            × ((announce r w).1.committed.refunds ≡ w.working.refunds))
  unfolding announce
  announce-ends r w = elim (Option-cases (P.payments.get w.working.payments r.payment_id)) [
    | inl missing ↦ rw missing (inr (refl, refl))
    | inr (p, found) ↦
        rw (found, >>-pure (dispatch "refund.completed" (completed_payload r) p.customer_id))
          (dispatch-ends "refund.completed" (completed_payload r) p.customer_id w)
  ]

  IsWithin-of_parts :
      (db : Db) (t : P.refunds.State) (db' : Db)
      → db'.payments ≡ db.payments
      → db'.refunds ≡ t
      → IsWithin (record db { refunds = t })
      → IsWithin db'
  IsWithin-of_parts db t db' a b h i = rw (a, b) (h i)

  settle-IsWithin :
      (old r : Refund) (w : World)
      → r.status ≡ processing
      → P.refunds.get w.working.refunds r.id ≡ some old
      → ((status : RefundStatus) → IsChangeOf old (record r { status = status }))
      → IsWithin w.working
      → IsWithin w.committed
      → IsWithin (settle r w).1.committed
  unfolding settle transition
  settle-IsWithin old r w s e change h before =
      if_intro {A = Exec World Refund} (λ m. IsWithin (m drawn).1.committed)
        (ltb (P.random w.reads) complete_below)
        (λ _. rw s (
          rw (>>-pure (announce done) done) (elim (announce-ends done saved) [
            | inl same ↦ rw same before
            | inr (a, b) ↦
                IsWithin-of_parts w.working _ (announce done saved).1.committed a b
                  (update-IsWithin w.working old done e (change completed) h)
          ])))
        (λ _.
          rw s (update-IsWithin w.working old (record r { status = failed }) e (change failed) h))
    where
      drawn : World
      drawn = record w { reads = suc w.reads }

      done : Refund
      done = record r { status = completed }

      saved : World
      saved = record drawn {
        working = record w.working { refunds = P.refunds.update w.working.refunds done };
        log = w.log ++ refund_ledger "refund.completed" r.id r.payment_id r.amount r.currency ∷ [];
      }

  process_pending-IsWithin :
      (r : Refund) (w : World)
      → P.refunds.get w.working.refunds r.id ≡ some r
      → r.status ≡ pending
      → IsWithin w.working
      → IsWithin w.committed
      → IsWithin (process_refund r.id w).1.committed
  unfolding process_refund transition
  process_pending-IsWithin r w e s h before = rw e (
      rw s (
        settle-IsWithin started started flushed refl
          (ground (arith, P.refunds.update_get w.working.refunds started e r.id))
          (λ status. record { id = refl; payment_id = refl; amount = refl; counted = λ _. refl })
          (update-IsWithin w.working r started e
            (record { id = refl; payment_id = refl; amount = refl; counted = λ _. rw s refl }) h)
          before))
    where
      started : Refund
      started = record r { status = processing }

      flushed : World
      flushed = record w {
        working = record w.working { refunds = P.refunds.update w.working.refunds started };
      }

  -- If the refunds of each payment that have not failed are within the payment's amount, and there
  -- are none of a payment that is not there, both as the session sees them and as they are
  -- committed, this holds of what is committed after a refund is processed, whatever comes of it.
  pub process_refund-IsWithin :
      (refund_id : ℕ) (w : World)
      → IsWithin w.working
      → IsWithin w.committed
      → IsWithin (process_refund refund_id w).1.committed
  unfolding process_refund transition
  process_refund-IsWithin refund_id w h before =
      elim (Option-cases (P.refunds.get w.working.refunds refund_id)) [
        | inl missing ↦ rw missing before
        | inr (r, found) ↦ by_status r found r.status refl
      ]
    where
      by_status :
          (r : Refund)
          → P.refunds.get w.working.refunds refund_id ≡ some r
          → (status : RefundStatus) → r.status ≡ status
          → IsWithin (process_refund refund_id w).1.committed
      by_status r found pending s =
          subst (λ i. IsWithin (process_refund i w).1.committed) (P.refunds.get_key found)
            (process_pending-IsWithin r w (simp (P.refunds.get_key found) found) s h before)
      by_status r found processing s = rw (found, s) before
      by_status r found completed s = rw (found, s) before
      by_status r found failed s = rw (found, s) before
