-- ===== src/Payments/Started.antt =====
-- A payment that `start_if_pending` of pulsepay/payments/service.py has started.
use tru_dev_tasks.Prelude.{suc, ◌≡◌, refl, ap, false, some, [], ◌∷◌, ◌++◌, arith}
use tru_dev_tasks.Exec.{ok}
use tru_dev_tasks.Payments.Models.{
  Payment, PaymentStatus, StateHistoryEntry, pending, processing, success, failed,
}
use tru_dev_tasks.Payments.StateMachine.{transition}
use tru_dev_tasks.Payments.Service.{is_terminal, start_if_pending}
use tru_dev_tasks.Payments.Lifecycle.{IsHistory, IsHistory-append}
use tru_dev_tasks.Payments.Machine.{stays}
use tru_dev_tasks.Payments.Progress.{Advances, Advances-refl}
use tru_dev_tasks.Platform.{Platform, World}

module _ ⦃P : Platform⦄ where
  -- What `start_if_pending` returns for a payment that is not terminal.
  pub record Started (p : Payment) (w : World) : Type 0 where
    pub payment : Payment
    pub world : World
    pub starts : start_if_pending p w ≡ (ok payment, world)
    pub status : payment.status ≡ processing
    pub history : IsHistory payment.state_history processing
    pub same_id : payment.id ≡ p.id
    pub same_count : payment.retry_count ≡ p.retry_count
    pub same_confirmed : payment.confirmed_at ≡ p.confirmed_at
    pub advances : Advances p payment
    pub same_working : world.working ≡ w.working
    pub same_committed : world.committed ≡ w.committed

  pub start_if_pending-Started :
      (p : Payment) (w : World) (status : PaymentStatus)
      → p.status ≡ status
      → is_terminal status ≡ false
      → IsHistory p.state_history status
      → Started p w
  unfolding start_if_pending transition
  start_if_pending-Started p w pending s n h = record {
    payment =
        let entry : StateHistoryEntry = record {
          state = processing;
          timestamp = P.time w.reads;
          reason = some "processor_started";
        } in
        record p { status = processing; state_history = p.state_history ++ entry ∷ [] };
    world = record w { reads = suc w.reads };
    starts = rw s refl;
    status = refl;
    history = IsHistory-append pending processing p.state_history _ refl refl h;
    same_id = refl;
    same_count = refl;
    same_confirmed = refl;
    advances = record {
      id = refl;
      customer_id = refl;
      amount = refl;
      currency = refl;
      idempotency_key = refl;
      created_at = refl;
      attempts = omega arith;
      history = (_, refl);
      reaches = rw s stays;
      final = λ t. cc (ap is_terminal s);
    };
    same_working = refl;
    same_committed = refl;
  }
  start_if_pending-Started p w processing s n h = record {
    payment = p;
    world = w;
    starts = rw s refl;
    status = s;
    history = h;
    same_id = refl;
    same_count = refl;
    same_confirmed = refl;
    advances = Advances-refl p;
    same_working = refl;
    same_committed = refl;
  }
  start_if_pending-Started p w success s n h = cc
  start_if_pending-Started p w failed s n h = cc
