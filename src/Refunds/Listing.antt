-- ===== src/Refunds/Listing.antt =====
-- pulsepay/refunds/service.py: `list_refunds`.
use tru_dev_tasks.Prelude.{ℕ, ◌≤◌, ◌≡◌, refl, subst, ap, some, List, [], ◌∷◌, select, ◌==◌, arith}
use tru_dev_tasks.Database.Listing.{
  order_desc, order_desc-perm, order_desc-IsDescending, IsDescending,
}
use tru_dev_tasks.Exec.{Exec, ok, pure, gets, ◌>>=◌, ok_injective}
use tru_dev_tasks.Payments.Models.{Payment}
use tru_dev_tasks.Platform.{Platform, World}
use tru_dev_tasks.Refunds.Models.{Refund}
use tru_dev_tasks.Refunds.Service.{refunded}
use tru_dev_tasks.Refunds.Conservation.{IsWithin, refunded_perm, refundable}

module _ ⦃P : Platform⦄ where
  unfoldable pub list_refunds : ℕ → Exec World (List Refund)
  list_refunds payment_id = do
    rows ← gets (λ w. select (λ r. r.payment_id == payment_id) (P.refunds.rows w.working.refunds))
    pure (order_desc (λ r. r.created_at) rows)

  refunded-of_payment :
      (payment_id : ℕ) (rows : List Refund)
      → refunded payment_id (select (λ r. r.payment_id == payment_id) rows)
        ≡ refunded payment_id rows
  unfolding refunded
  refunded-of_payment payment_id [] = refl
  refunded-of_payment payment_id (r ∷ rows) = ground (arith, refunded-of_payment payment_id rows)

  -- The refunds that are listed for a payment come newest first; and if the refunds of each
  -- payment are within its amount, those listed that have not failed add up to at most the amount.
  pub list_refunds-within :
      (payment_id : ℕ) (p : Payment) (w : World) (rows : List Refund)
      → P.payments.get w.working.payments payment_id ≡ some p
      → IsWithin w.working
      → (list_refunds payment_id w).0 ≡ ok rows
      → IsDescending (λ r. r.created_at) rows × (refunded payment_id rows ≤ p.amount)
  unfolding list_refunds
  list_refunds-within payment_id p w rows found within e =
      let listed : order_desc (λ (r : Refund). r.created_at) mine ≡ rows = ok_injective e in
      let all = refunded_perm payment_id (order_desc-perm (λ (r : Refund). r.created_at) mine) in
      let bounded : refunded payment_id (P.refunds.rows w.working.refunds) ≤ p.amount =
        subst (λ o. refunded payment_id (P.refunds.rows w.working.refunds) ≤ refundable o) found
          (within payment_id) in
      (
        subst (IsDescending (λ (r : Refund). r.created_at)) listed
            (order_desc-IsDescending (λ (r : Refund). r.created_at) mine),
        omega (
          arith,
          ap (refunded payment_id) listed,
          all,
          refunded-of_payment payment_id (P.refunds.rows w.working.refunds),
          bounded,
        ),
      )
    where
      mine : List Refund
      mine = select (λ r. r.payment_id == payment_id) (P.refunds.rows w.working.refunds)
