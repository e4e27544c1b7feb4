-- ===== src/Payments/Clean.antt =====
-- A confirmation leaves no change uncommitted: a handler that goes on in the same session after an
-- exception sees what is committed.
use tru_dev_tasks.Prelude.{
  ℕ, suc, ◌+◌, ◌≡◌, refl, subst, inl, inr, false, String, Option, some, leb, ltb, Bool-cases,
  Option-cases, if_intro,
}
use tru_dev_tasks.Exec.{Exec, >>=-err}
use tru_dev_tasks.Payments.Models.{Payment, processing, soft}
use tru_dev_tasks.Payments.StateMachine.{transition}
use tru_dev_tasks.Payments.Service.{
  is_terminal, get_payment, fail_started, mark_payment_failed_max_retries, authorize, soft_failure,
  decline, run_attempt, metadata_or, success_below, soft_below, confirm_payment,
}
use tru_dev_tasks.Payments.Lifecycle.{get-update_self, IsHistory, AllValid}
use tru_dev_tasks.Payments.Lookup.{
  get_payment_missing, confirm_terminal, confirm_open, mark_terminal, mark_open,
}
use tru_dev_tasks.Payments.Started.{Started, start_if_pending-Started}
use tru_dev_tasks.Platform.{Platform, World}

module _ ⦃P : Platform⦄ where
  -- Nothing is written that is not committed.
  abbrev pub IsClean : World → Type 0
  IsClean w = w.working ≡ w.committed

  authorize-IsClean : (p : Payment) (w : World) → p.status ≡ processing → IsClean (authorize p w).1
  unfolding authorize transition
  authorize-IsClean p w s = rw s refl

  decline-IsClean : (p : Payment) (w : World) → p.status ≡ processing → IsClean (decline p w).1
  unfolding decline transition
  decline-IsClean p w s = rw s refl

  fail_started-IsClean :
      (p : Payment) (w : World) → p.status ≡ processing → IsClean (fail_started p w).1
  unfolding fail_started transition
  fail_started-IsClean p w s = rw s refl

  mark_open-IsClean :
      (p : Payment) (w : World)
      → P.payments.get w.working.payments p.id ≡ some p
      → is_terminal p.status ≡ false
      → IsHistory p.state_history p.status
      → IsClean (mark_payment_failed_max_retries p.id w).1
  mark_open-IsClean p w e n h =
      let st : Started p w = start_if_pending-Started p w p.status refl n h in
      rw (mark_open p.id w p e p.status refl n st.starts)
        (fail_started-IsClean st.payment st.world st.status)

  soft_failure-IsClean :
      (p : Payment) (w : World) {old : Payment}
      → P.payments.get w.working.payments p.id ≡ some old
      → p.status ≡ processing
      → IsHistory p.state_history p.status
      → IsClean (soft_failure p.id p w).1
  unfolding soft_failure
  soft_failure-IsClean p w e s h =
      elim (Bool-cases (leb P.max_payment_retry_attempts p.retry_count)) [
        | inl last ↦ rw last (
            mark_open-IsClean softened _ (get-update_self w.working.payments softened e) (rw s refl)
              h)
        | inr more ↦ rw more refl
      ]
    where
      softened : Payment
      softened = record p {
        failure_class = some soft;
        failure_reason = some "Temporary upstream processor failure";
      }

  run_attempt-IsClean :
      (p : Payment) (metadata : Option String) (w : World) {old : Payment}
      → P.payments.get w.working.payments p.id ≡ some old
      → p.status ≡ processing
      → IsHistory p.state_history p.status
      → IsClean (run_attempt p.id metadata p w).1
  unfolding run_attempt
  run_attempt-IsClean p metadata w e s h =
      if_intro {A = Exec World Payment} (λ m. IsClean (m flushed).1)
        (ltb (P.random w.reads) success_below) (λ _. authorize-IsClean attempted flushed s)
        (λ _.
          if_intro {A = Exec World Payment} (λ m. IsClean (m flushed).1)
            (ltb (P.random w.reads) soft_below)
            (λ _.
              soft_failure-IsClean attempted flushed
                (get-update_self w.working.payments attempted e) s h)
            (λ _. decline-IsClean attempted flushed s))
    where
      attempted : Payment
      attempted = record p {
        payment_metadata = metadata_or metadata p.payment_metadata;
        retry_count = p.retry_count + 1;
      }

      flushed : World
      flushed = record w {
        working = record w.working { payments = P.payments.update w.working.payments attempted };
        reads = suc w.reads;
      }

  confirm_open-IsClean :
      (p : Payment) (metadata : Option String) (w : World)
      → P.payments.get w.working.payments p.id ≡ some p
      → is_terminal p.status ≡ false
      → IsHistory p.state_history p.status
      → IsClean (confirm_payment p.id metadata w).1
  confirm_open-IsClean p metadata w e n h =
      let st : Started p w = start_if_pending-Started p w p.status refl n h in
      rw (confirm_open p.id w p e metadata n st.starts) (
        subst (λ i. IsClean (run_attempt i metadata st.payment st.world).1) st.same_id
          (run_attempt-IsClean st.payment metadata st.world {old = p}
            (simp (st.same_working, st.same_id) e) st.status (rw st.status st.history)))

  pub confirm_payment-IsClean :
      (payment_id : ℕ) (metadata : Option String) (w : World)
      → AllValid w.working.payments
      → IsClean w
      → IsClean (confirm_payment payment_id metadata w).1
  unfolding confirm_payment
  confirm_payment-IsClean payment_id metadata w valid clean =
      elim (Option-cases (P.payments.get w.working.payments payment_id)) [
        | inl missing ↦
            rw (>>=-err (get_payment payment_id) _ (get_payment_missing payment_id w missing)) clean
        | inr (p, found) ↦ elim (Bool-cases (is_terminal p.status)) [
          | inl terminal ↦ rw (confirm_terminal payment_id w p found metadata terminal) clean
          | inr n ↦
              subst (λ i. IsClean (confirm_payment i metadata w).1) (P.payments.get_key found)
                (confirm_open-IsClean p metadata w (simp (P.payments.get_key found) found) n
                  (valid payment_id p found).history)
        ]
      ]

  pub mark_payment_failed-IsClean :
      (payment_id : ℕ) (w : World)
      → AllValid w.working.payments
      → IsClean w
      → IsClean (mark_payment_failed_max_retries payment_id w).1
  mark_payment_failed-IsClean payment_id w valid clean =
      elim (Option-cases (P.payments.get w.working.payments payment_id)) [
        | inl missing ↦
            unfold mark_payment_failed_max_retries in
            rw (>>=-err (get_payment payment_id) _ (get_payment_missing payment_id w missing)) clean
        | inr (p, found) ↦ elim (Bool-cases (is_terminal p.status)) [
          | inl terminal ↦ rw (mark_terminal payment_id w p found p.status refl terminal) clean
          | inr n ↦
              subst (λ i. IsClean (mark_payment_failed_max_retries i w).1)
                (P.payments.get_key found)
                (mark_open-IsClean p w (simp (P.payments.get_key found) found) n
                  (valid payment_id p found).history)
        ]
      ]
