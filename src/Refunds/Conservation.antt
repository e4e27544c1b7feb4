-- ===== src/Refunds/Conservation.antt =====
-- The refunds of a payment that have not failed never add up to more than its amount.
use mathlib.Core.List.{Permᴰ}
use tru_dev_tasks.Prelude.{
  ℕ, suc, ◌+◌, ◌≤◌, ◌≡◌, refl, subst, ◌∙◌, ◌==◌, ==_iff, Bool-cases, ◌⊎◌, inl, inr, String, Option,
  none, some, List, [], ◌∷◌, ◌++◌, str_eq, if◌then◌else◌, select, arith, Option-cases,
}
use tru_dev_tasks.Database.Queries.{scalar_one_or_none, sum_perm, select_perm}
use tru_dev_tasks.Exec.{Result-cases, ok, >>=-ok, >>=-err, pair_path}
use tru_dev_tasks.Jobs.Models.{uuid_text}
use tru_dev_tasks.Jobs.Frame.{enqueue_then_commit}
use tru_dev_tasks.Payments.Models.{Payment}
use tru_dev_tasks.Platform.{Platform, World, Db, refund_ledger}
use tru_dev_tasks.Refunds.Models.{Refund}
use tru_dev_tasks.Refunds.Service.{
  counts, refunded, new_refund, add_refund, check_refund, refund_payment, initiate_refund,
  get_refund_by_idempotency_key,
}

pub refunded_perm : (j : ℕ) {xs ys : List Refund} → Permᴰ xs ys → refunded j xs ≡ refunded j ys
unfolding refunded
refunded_perm j p = sum_perm (λ r. r.amount) (select_perm (counts j) p)

pub refunded_cons :
    (j : ℕ) (r : Refund) (rows : List Refund)
    → refunded j (r ∷ rows) ≡ (if counts j r then r.amount else 0) + refunded j rows
unfolding refunded
refunded_cons j r rows = ground arith

-- What can be refunded of a payment at most.
abbrev pub refundable : Option Payment → ℕ
refundable none = 0
refundable (some p) = p.amount

module _ ⦃P : Platform⦄ where
  -- The refunds of each payment that have not failed are within its amount, and there are none of
  -- a payment that is not there.
  abbrev pub IsWithin : Db → Type 0
  IsWithin db =
      (i : ℕ) → refunded i (P.refunds.rows db.refunds) ≤ refundable (P.payments.get db.payments i)

  insert-IsWithin :
      (db : Db) (r : Refund) (p : Payment) (t : P.refunds.State)
      → P.payments.get db.payments r.payment_id ≡ some p
      → P.refunds.insert db.refunds r ≡ some t
      → r.amount + refunded r.payment_id (P.refunds.rows db.refunds) ≤ p.amount
      → IsWithin db
      → IsWithin (record db { refunds = t })
  insert-IsWithin db r p t found e fits h i =
      let grown =
        refunded_perm i (P.refunds.insert_rows db.refunds r e)
        ∙ refunded_cons i r (P.refunds.rows db.refunds) in
      elim (Bool-cases (r.payment_id == i)) [
        | inl same ↦ rw grown (of_same grown ((==_iff r.payment_id i).0 same))
        | inr other ↦ ground (arith, grown, h i)
      ]
    where
      of_same :
          refunded i (P.refunds.rows t)
            ≡ (if counts i r then r.amount else 0) + refunded i (P.refunds.rows db.refunds)
          → r.payment_id ≡ i
          → (if counts i r then r.amount else 0) + refunded i (P.refunds.rows db.refunds)
            ≤ refundable (P.payments.get db.payments i)
      of_same grown same =
          subst
            (λ j.
              (if counts j r then r.amount else 0) + refunded j (P.refunds.rows db.refunds)
              ≤ refundable (P.payments.get db.payments j))
            same (rw found (ground (arith, fits)))

  -- `add_refund` commits the tables that it began with and the new refund, or nothing.
  add_refund-ends :
      (p : Payment) (amount : ℕ) (key : String) (reason : Option String) (w : World)
      → ((add_refund p amount key reason w).1.committed ≡ w.committed)
        ⊎ ((t : P.refunds.State) × (P.refunds.insert w.working.refunds
                (new_refund p amount key reason (P.uuid w.reads) (P.time (suc w.reads)))
              ≡ some t)
            × ((add_refund p amount key reason w).1.committed ≡ record w.working { refunds = t }))
  unfolding add_refund
  add_refund-ends p amount key reason w =
      elim (Option-cases (P.refunds.insert w.working.refunds refund)) [
        | inl refused ↦ rw refused (inl refl)
        | inr (t, e) ↦
            rw e
              (elim (enqueue_then_commit "process_refund" (("refund_id", uuid_text refund.id) ∷ [])
                none refund (inserted t)) [
                  | inl same ↦ inl same
                  | inr saved ↦ inr (t, refl, saved)
                ])
      ]
    where
      refund : Refund
      refund = new_refund p amount key reason (P.uuid w.reads) (P.time (suc w.reads))

      inserted : P.refunds.State → World
      inserted t = record w {
        working = record w.working { refunds = t };
        reads = suc (suc w.reads);
        log =
            w.log
            ++ refund_ledger "refund.initiated" refund.id refund.payment_id refund.amount
                refund.currency
              ∷ [];
      }

  pub check_refund_state :
      (p : Payment) (amount : Option ℕ) (w : World) → (check_refund p amount w).1 ≡ w
  unfolding check_refund
  check_refund_state p amount w = ground arith

  -- What the tests let pass fits beside the refunds that count.
  pub check_refund-fits :
      (p : Payment) (amount : Option ℕ) (w : World) (granted : ℕ)
      → (check_refund p amount w).0 ≡ ok granted
      → granted + refunded p.id (P.refunds.rows w.working.refunds) ≤ p.amount
  unfolding check_refund
  check_refund-fits p amount w granted e = ground arith

  add_refund-IsWithin :
      (p : Payment) (amount : ℕ) (key : String) (reason : Option String) (w : World)
      → P.payments.get w.working.payments p.id ≡ some p
      → amount + refunded p.id (P.refunds.rows w.working.refunds) ≤ p.amount
      → IsWithin w.working
      → IsWithin w.committed
      → IsWithin (add_refund p amount key reason w).1.committed
  unfolding new_refund
  add_refund-IsWithin p amount key reason w found fits h before =
      elim (add_refund-ends p amount key reason w) [
        | inl same ↦ rw same before
        | inr (t, e, saved) ↦ rw saved (insert-IsWithin w.working _ p t found e fits h)
      ]

  refund_payment-IsWithin :
      (p : Payment) (amount : Option ℕ) (key : String) (reason : Option String) (w : World)
      → P.payments.get w.working.payments p.id ≡ some p
      → IsWithin w.working
      → IsWithin w.committed
      → IsWithin (refund_payment p amount key reason w).1.committed
  unfolding refund_payment
  refund_payment-IsWithin p amount key reason w found h before =
      elim (Result-cases (check_refund p amount w).0) [
        | inl (granted, e) ↦
            rw
              (>>=-ok (check_refund p amount) (λ a. add_refund p a key reason)
                (pair_path e (check_refund_state p amount w)))
              (add_refund-IsWithin p granted key reason w found
                (check_refund-fits p amount w granted e) h before)
        | inr (x, e) ↦
            rw
              (>>=-err (check_refund p amount) (λ a. add_refund p a key reason)
                (pair_path e (check_refund_state p amount w)))
              before
      ]

  -- If the refunds of each payment that have not failed are within the payment's amount, and there
  -- are none of a payment that is not there, both as the session sees them and as they are
  -- committed, this holds of what is committed after `initiate_refund`, whatever it is asked for
  -- and however it ends.
  pub initiate_refund-IsWithin :
      (payment_id : ℕ) (amount : Option ℕ) (key : String) (reason : Option String) (w : World)
      → IsWithin w.working
      → IsWithin w.committed
      → IsWithin (initiate_refund payment_id amount key reason w).1.committed
  unfolding initiate_refund get_refund_by_idempotency_key
  initiate_refund-IsWithin payment_id amount key reason w h before =
      elim (Result-cases (
        scalar_one_or_none
          (select (λ r. str_eq r.idempotency_key key) (P.refunds.rows w.working.refunds)))) [
            | inl (some r, e) ↦ rw e before
            | inr (x, e) ↦ rw e before
            | inl (none, e) ↦
                rw e (elim (Option-cases (P.payments.get w.working.payments payment_id)) [
                  | inl missing ↦ rw missing before
                  | inr (p, found) ↦ rw found (
                      refund_payment-IsWithin p amount key reason w
                        (simp (P.payments.get_key found) found) h before)
                ])
          ]
