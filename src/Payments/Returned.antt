-- ===== src/Payments/Returned.antt =====
-- How a confirmation of an open payment ends: with the payment confirmed or failed, or in a soft
-- failure.
use tru_dev_tasks.Prelude.{
  ℕ, suc, ◌+◌, ◌≡◌, refl, subst, inl, inr, true, false, String, Option, some, leb, ltb, Bool-cases,
  if_intro,
}
use tru_dev_tasks.Core.Exceptions.{soft_payment_processing_failure}
use tru_dev_tasks.Exec.{Exec, Result, ok, err}
use tru_dev_tasks.Payments.Models.{Payment, processing, soft}
use tru_dev_tasks.Payments.StateMachine.{valid_transitions, transition}
use tru_dev_tasks.Payments.Service.{
  is_terminal, fail_started, mark_payment_failed_max_retries, authorize, soft_failure, decline,
  run_attempt, metadata_or, success_below, soft_below, confirm_payment,
}
use tru_dev_tasks.Payments.Lifecycle.{get-update_self, IsHistory}
use tru_dev_tasks.Payments.Lookup.{confirm_open, mark_open}
use tru_dev_tasks.Payments.Started.{Started, start_if_pending-Started}
use tru_dev_tasks.Platform.{Platform, World}

module _ ⦃P : Platform⦄ where
  abbrev pub Ends : ℕ → Result Payment × World → Type 0
  Ends i (ok q, w) =
      (P.payments.get w.committed.payments i ≡ some q) × (is_terminal q.status ≡ true)
  Ends i (err x, w) = (a c : ℕ) × (x ≡ soft_payment_processing_failure a c)

  module _ (p : Payment) (w : World) {old : Payment}
      (present : P.payments.get w.working.payments p.id ≡ some old)
      (started : p.status ≡ processing) where
    authorize-Ends : Ends p.id (authorize p w)
    unfolding authorize transition valid_transitions
    authorize-Ends = rw started (get-update_self w.working.payments _ present, refl)

    decline-Ends : Ends p.id (decline p w)
    unfolding decline transition valid_transitions
    decline-Ends = rw started (get-update_self w.working.payments _ present, refl)

    fail_started-Ends : Ends p.id (fail_started p w)
    unfolding fail_started transition valid_transitions
    fail_started-Ends = rw started (get-update_self w.working.payments _ present, refl)

  pub mark_open-Ends :
      (p : Payment) (w : World)
      → P.payments.get w.working.payments p.id ≡ some p
      → is_terminal p.status ≡ false
      → IsHistory p.state_history p.status
      → Ends p.id (mark_payment_failed_max_retries p.id w)
  mark_open-Ends p w e n h =
      let st : Started p w = start_if_pending-Started p w p.status refl n h in
      rw (mark_open p.id w p e p.status refl n st.starts) (
        subst (λ i. Ends i (fail_started st.payment st.world)) st.same_id
          (fail_started-Ends st.payment st.world {old = p} (simp (st.same_working, st.same_id) e)
            st.status))

  soft_failure-Ends :
      (p : Payment) (w : World) {old : Payment}
      → P.payments.get w.working.payments p.id ≡ some old
      → p.status ≡ processing
      → IsHistory p.state_history p.status
      → Ends p.id (soft_failure p.id p w)
  unfolding soft_failure
  soft_failure-Ends p w e s h = elim (Bool-cases (leb P.max_payment_retry_attempts p.retry_count)) [
    | inl last ↦
        rw last
          (mark_open-Ends softened _ (get-update_self w.working.payments softened e) (rw s refl) h)
    | inr more ↦ rw more (p.retry_count, P.max_payment_retry_attempts, refl)
  ]
    where
      softened : Payment
      softened = record p {
        failure_class = some soft;
        failure_reason = some "Temporary upstream processor failure";
      }

  run_attempt-Ends :
      (p : Payment) (metadata : Option String) (w : World) {old : Payment}
      → P.payments.get w.working.payments p.id ≡ some old
      → p.status ≡ processing
      → IsHistory p.state_history p.status
      → Ends p.id (run_attempt p.id metadata p w)
  unfolding run_attempt
  run_attempt-Ends p metadata w e s h =
      if_intro {A = Exec World Payment} (λ m. Ends p.id (m flushed))
        (ltb (P.random w.reads) success_below) (λ _. authorize-Ends attempted flushed present s)
        (λ _.
          if_intro {A = Exec World Payment} (λ m. Ends p.id (m flushed))
            (ltb (P.random w.reads) soft_below)
            (λ _. soft_failure-Ends attempted flushed present s h)
            (λ _. decline-Ends attempted flushed present s))
    where
      attempted : Payment
      attempted = record p {
        payment_metadata = metadata_or metadata p.payment_metadata;
        retry_count = p.retry_count + 1;
      }

      flushed : World
      flushed = record w {
        working = record w.working { payments = P.payments.update w.working.payments attempted };
        reads = suc w.reads;
      }

      present : P.payments.get flushed.working.payments attempted.id ≡ some attempted
      present = get-update_self w.working.payments attempted e

  pub confirm_open-Ends :
      (p : Payment) (metadata : Option String) (w : World)
      → P.payments.get w.working.payments p.id ≡ some p
      → is_terminal p.status ≡ false
      → IsHistory p.state_history p.status
      → Ends p.id (confirm_payment p.id metadata w)
  confirm_open-Ends p metadata w e n h =
      let st : Started p w = start_if_pending-Started p w p.status refl n h in
      rw (confirm_open p.id w p e metadata n st.starts) (
        subst (λ i. Ends i (run_attempt i metadata st.payment st.world)) st.same_id
          (run_attempt-Ends st.payment metadata st.world {old = p}
            (simp (st.same_working, st.same_id) e) st.status (rw st.status st.history)))
