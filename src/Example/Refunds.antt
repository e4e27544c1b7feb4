-- ===== src/Example/Refunds.antt =====
-- The refund theorems on a payment of 100.00 that succeeded.
use tru_dev_tasks.Prelude.{
  ◌≡◌, ◌≤◌, refl, subst, none, some, [], ◌∷◌, arith, ◌==◌, ==_iff, Bool-cases, inl, inr,
}
use tru_dev_tasks.Example.Server.{server, fresh}
use tru_dev_tasks.Exec.{ok}
use tru_dev_tasks.Jobs.Queue.{enqueue, enqueue_job}
use tru_dev_tasks.Payments.Models.{Payment, PaymentStatus}
use tru_dev_tasks.Platform.{Platform, World, Db, with_session}
use tru_dev_tasks.Refunds.Models.{Refund, RefundStatus}
use tru_dev_tasks.Refunds.Service.{
  get_refund_by_idempotency_key, refund_payment, initiate_refund, process_refund, refunded,
  new_refund, add_refund, check_refund, sum_non_failed_refunds,
}
use tru_dev_tasks.Refunds.Conservation.{refundable, IsWithin, initiate_refund-IsWithin}
use tru_dev_tasks.Refunds.Process.{process_refund-IsWithin}
use tru_dev_tasks.Refunds.Replay.{initiate_refund-replays}
use tru_dev_tasks.Refunds.Race.{race, race_overdraws}

instance abbrev calm : Platform
calm = server (λ n. 0)

abbrev pub payment : Payment
payment = record {
  id = 1;
  customer_id = "c1";
  amount = 10000;
  currency = "USD";
  status = PaymentStatus.success;
  failure_reason = none;
  failure_class = none;
  retry_count = 0;
  idempotency_key = "p1";
  payment_metadata = none;
  state_history = [];
  confirmed_at = some 0;
  created_at = 0;
  updated_at = 0;
}

abbrev half_refunded : Refund
half_refunded = record {
  id = 2;
  payment_id = 1;
  customer_id = "c1";
  amount = 5000;
  currency = "USD";
  status = RefundStatus.pending;
  reason = none;
  idempotency_key = "r1";
  created_at = 0;
}

abbrev start : World
start = fresh (λ n. 0)

abbrev refunding : Db
refunding = record start.working {
  payments = record { items = payment ∷ []; distinct = (tt, tt) };
  refunds = record { items = half_refunded ∷ []; distinct = (tt, tt) };
}

abbrev with_refund : World
with_refund = record start { working = refunding; committed = refunding }

refunding-IsWithin : IsWithin refunding
unfolding refunded
refunding-IsWithin i = elim (Bool-cases (i == 1)) [
  | inl same ↦
      let one : 1 ≡ i = omega (arith, (==_iff i 1).0 same) in
      subst
        (λ k. refunded k (half_refunded ∷ []) ≤ refundable (calm.payments.get refunding.payments k))
        one (omega arith)
  | inr other ↦ ground arith
]

initiate_refund-IsWithin_example :
    IsWithin (initiate_refund 1 (some 5000) "r2" none with_refund).1.committed
initiate_refund-IsWithin_example =
    initiate_refund-IsWithin 1 (some 5000) "r2" none with_refund refunding-IsWithin
      refunding-IsWithin

process_refund-IsWithin_example : IsWithin (process_refund 2 with_refund).1.committed
process_refund-IsWithin_example =
    process_refund-IsWithin 2 with_refund refunding-IsWithin refunding-IsWithin

-- Two requests for 60.00 each, of a payment that nothing is refunded of yet.
abbrev unrefunded : World
unrefunded =
    let tables : Db = record refunding { refunds = record { items = []; distinct = tt } } in
    record start { working = tables; committed = tables }

abbrev raced : World
raced = (race payment 6000 6000 "a" "b" unrefunded).1

abbrev both : Refund × Refund
both = (new_refund payment 6000 "a" none 0 1000000, new_refund payment 6000 "b" none 5 6000000)

raced-granted : race payment 6000 6000 "a" "b" unrefunded ≡ (ok both, raced)
unfolding race check_refund sum_non_failed_refunds refunded add_refund new_refund enqueue_job
    enqueue
raced-granted = refl

race_overdraws_example : ¬ IsWithin raced.committed
unfolding refunded
race_overdraws_example =
    race_overdraws payment 6000 6000 "a" "b" unrefunded refl (omega arith) raced-granted

-- The key of the first refund, with another payment, amount and reason.
abbrev refunded_once : World
refunded_once = (with_session (initiate_refund 1 (some 5000) "r2" none) with_refund).1

abbrev granted : Refund
granted = record half_refunded { id = 0; idempotency_key = "r2"; created_at = 1000000 }

initiate_refund-replays_example :
    with_session (initiate_refund 7 none "r2" (some "other")) refunded_once
    ≡ (ok granted, record refunded_once { working = refunded_once.committed })
unfolding initiate_refund get_refund_by_idempotency_key refund_payment check_refund
    sum_non_failed_refunds refunded add_refund new_refund enqueue_job enqueue
initiate_refund-replays_example =
    initiate_refund-replays 1 7 (some 5000) none "r2" none (some "other") with_refund refunded_once
      refl refl
