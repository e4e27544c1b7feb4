-- ===== src/Payments/Advance.antt =====
-- The methods of the payment service only advance payments: each in the shape
-- "what held of both copies of the table holds of the committed one afterwards".
use tru_dev_tasks.Prelude.{
  ℕ, ◌+◌, ◌<◌, ◌≤◌, ◌≡◌, refl, subst, inl, inr, false, String, Option, none, some, List, ◌++◌,
  arith, leb, Bool-cases, Option-cases,
}
use tru_dev_tasks.Exec.{>>=-err}
use tru_dev_tasks.Payments.Models.{
  Payment, PaymentStatus, StateHistoryEntry, processing, success, failed, hard, soft, FailureClass,
}
use tru_dev_tasks.Payments.StateMachine.{transition}
use tru_dev_tasks.Payments.Service.{
  is_terminal, get_payment, fail_started, mark_payment_failed_max_retries, authorize, soft_failure,
  decline,
}
use tru_dev_tasks.Payments.Lifecycle.{get-update_self, IsHistory, AllValid}
use tru_dev_tasks.Payments.Lookup.{get_payment_missing, mark_terminal, mark_open}
use tru_dev_tasks.Payments.Started.{Started, start_if_pending-Started}
use tru_dev_tasks.Payments.Machine.{
  Reaches, stays, attempt, confirm, fail, step-Reaches, phase_of, phase_at, failed_after,
  confirmed_after,
}
use tru_dev_tasks.Payments.Progress.{
  Advances, Advances-refl, Advances-trans, AllAdvance, update-AllAdvance,
}
use tru_dev_tasks.Platform.{Platform, World}

-- What a method writes of a payment that is not terminal.
written-Advances :
    ⦃P : Platform⦄ (p : Payment) (status : PaymentStatus) (more : List StateHistoryEntry)
    (reason : Option String) (class : Option FailureClass) (confirmed_at : Option ℕ)
    (metadata : Option String) (count : ℕ)
    → is_terminal p.status ≡ false
    → p.retry_count ≤ count
    → Reaches P.max_payment_retry_attempts (phase_of p) (phase_at status count)
    → Advances p (record p {
      status = status;
      state_history = p.state_history ++ more;
      failure_reason = reason;
      failure_class = class;
      confirmed_at = confirmed_at;
      payment_metadata = metadata;
      retry_count = count;
    })
written-Advances p status more reason class confirmed_at metadata count n grown reaches = record {
  id = refl;
  customer_id = refl;
  amount = refl;
  currency = refl;
  idempotency_key = refl;
  created_at = refl;
  attempts = grown;
  history = (more, refl);
  reaches = reaches;
  final = λ t. cc;
}

-- The same with no other history.
pub kept-Advances :
    ⦃P : Platform⦄ (p : Payment) (reason : Option String) (class : Option FailureClass)
    (metadata : Option String) (count : ℕ)
    → is_terminal p.status ≡ false
    → p.retry_count ≤ count
    → Reaches P.max_payment_retry_attempts (phase_of p) (phase_at p.status count)
    → Advances p (record p {
      failure_reason = reason;
      failure_class = class;
      payment_metadata = metadata;
      retry_count = count;
    })
kept-Advances p reason class metadata count n grown reaches = record {
  id = refl;
  customer_id = refl;
  amount = refl;
  currency = refl;
  idempotency_key = refl;
  created_at = refl;
  attempts = grown;
  history = (Advances-refl p).history;
  reaches = reaches;
  final = λ t. cc;
}

-- A payment in processing is open, and each way to end it is a step of the machine.
processing-fails :
    ⦃P : Platform⦄ (p : Payment)
    → p.status ≡ processing
    → Reaches P.max_payment_retry_attempts (phase_of p) (failed_after p.retry_count)
processing-fails p st = rw st (step-Reaches fail)

processing-confirms :
    ⦃P : Platform⦄ (p : Payment)
    → p.status ≡ processing
    → 0 < p.retry_count
    → Reaches P.max_payment_retry_attempts (phase_of p) (confirmed_after p.retry_count)
processing-confirms p st tried = rw st (step-Reaches (confirm tried))

pub processing-attempts :
    ⦃P : Platform⦄ (p : Payment)
    → p.status ≡ processing
    → p.retry_count < P.max_payment_retry_attempts
    → Reaches P.max_payment_retry_attempts (phase_of p) (phase_at p.status (p.retry_count + 1))
processing-attempts p st left = rw st (step-Reaches (attempt left refl))

module _ ⦃P : Platform⦄ (s : P.payments.State) where
  pub authorize-AllAdvance :
      (p : Payment) (w : World) {old : Payment}
      → P.payments.get w.working.payments p.id ≡ some old
      → Advances old p
      → p.status ≡ processing
      → 0 < p.retry_count
      → AllAdvance s w.working.payments
      → AllAdvance s (authorize p w).1.committed.payments
  unfolding authorize transition
  authorize-AllAdvance p w {old} e h st tried a = rw st (
      update-AllAdvance s w.working.payments old _ e
        (Advances-trans h (
          written-Advances p success _ none none _ p.payment_metadata p.retry_count (rw st refl)
            (omega arith) (processing-confirms p st tried)))
        a)

  pub decline-AllAdvance :
      (p : Payment) (w : World) {old : Payment}
      → P.payments.get w.working.payments p.id ≡ some old
      → Advances old p
      → p.status ≡ processing
      → AllAdvance s w.working.payments
      → AllAdvance s (decline p w).1.committed.payments
  unfolding decline transition
  decline-AllAdvance p w {old} e h st a = rw st (
      update-AllAdvance s w.working.payments old _ e
        (Advances-trans h (
          written-Advances p failed _ _ (some hard) p.confirmed_at p.payment_metadata p.retry_count
            (rw st refl) (omega arith) (processing-fails p st)))
        a)

  fail_started-AllAdvance :
      (p : Payment) (w : World) {old : Payment}
      → P.payments.get w.working.payments p.id ≡ some old
      → Advances old p
      → p.status ≡ processing
      → AllAdvance s w.working.payments
      → AllAdvance s (fail_started p w).1.committed.payments
  unfolding fail_started transition
  fail_started-AllAdvance p w {old} e h st a = rw st (
      update-AllAdvance s w.working.payments old _ e
        (Advances-trans h (
          written-Advances p failed _ _ (some hard) p.confirmed_at p.payment_metadata p.retry_count
            (rw st refl) (omega arith) (processing-fails p st)))
        a)

  pub mark_open-AllAdvance :
      (p : Payment) (w : World)
      → P.payments.get w.working.payments p.id ≡ some p
      → is_terminal p.status ≡ false
      → IsHistory p.state_history p.status
      → AllAdvance s w.working.payments
      → AllAdvance s (mark_payment_failed_max_retries p.id w).1.committed.payments
  mark_open-AllAdvance p w e n h a =
      let st : Started p w = start_if_pending-Started p w p.status refl n h in
      rw (mark_open p.id w p e p.status refl n st.starts) (
        fail_started-AllAdvance st.payment st.world {old = p} (simp (st.same_working, st.same_id) e)
          st.advances st.status (rw st.same_working a))

  pub soft_failure-AllAdvance :
      (p : Payment) (w : World) {old : Payment}
      → P.payments.get w.working.payments p.id ≡ some old
      → Advances old p
      → p.status ≡ processing
      → IsHistory p.state_history p.status
      → AllAdvance s w.working.payments
      → AllAdvance s (soft_failure p.id p w).1.committed.payments
  unfolding soft_failure
  soft_failure-AllAdvance p w {old} e h st hist a =
      elim (Bool-cases (leb P.max_payment_retry_attempts p.retry_count)) [
        | inl last ↦ rw last (
            mark_open-AllAdvance softened _ (get-update_self w.working.payments softened e)
              (rw st refl) hist written)
        | inr more ↦ rw more written
      ]
    where
      softened : Payment
      softened = record p {
        failure_class = some soft;
        failure_reason = some "Temporary upstream processor failure";
      }

      written : AllAdvance s (P.payments.update w.working.payments softened)
      written =
          update-AllAdvance s w.working.payments old softened e
            (Advances-trans h (
              kept-Advances p _ _ p.payment_metadata p.retry_count (rw st refl) (omega arith)
                stays))
            a

  pub mark_payment_failed-AllAdvance :
      (payment_id : ℕ) (w : World)
      → AllValid w.working.payments
      → AllAdvance s w.working.payments
      → AllAdvance s w.committed.payments
      → AllAdvance s (mark_payment_failed_max_retries payment_id w).1.committed.payments
  mark_payment_failed-AllAdvance payment_id w valid a before =
      elim (Option-cases (P.payments.get w.working.payments payment_id)) [
        | inl missing ↦
            unfold mark_payment_failed_max_retries in
            rw (>>=-err (get_payment payment_id) _ (get_payment_missing payment_id w missing))
              before
        | inr (p, found) ↦ elim (Bool-cases (is_terminal p.status)) [
          | inl terminal ↦ rw (mark_terminal payment_id w p found p.status refl terminal) before
          | inr n ↦
              subst (λ i. AllAdvance s (mark_payment_failed_max_retries i w).1.committed.payments)
                (P.payments.get_key found)
                (mark_open-AllAdvance p w (simp (P.payments.get_key found) found) n
                  (valid payment_id p found).history a)
        ]
      ]
