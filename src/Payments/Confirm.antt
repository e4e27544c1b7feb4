-- ===== src/Payments/Confirm.antt =====
-- `confirm_payment` and `mark_payment_failed_max_retries` keep every payment valid, on each branch.
use tru_dev_tasks.Prelude.{
  ℕ, suc, ◌+◌, ◌<◌, ◌≡◌, refl, ap, sym, ◌∙◌, subst, inl, inr, false, String, Option, none, some,
  arith, ltb, Bool-cases, if_intro, Option-cases,
}
use tru_dev_tasks.Exec.{Exec, >>=-err}
use tru_dev_tasks.Payments.Machine.{Reaches, then_step, attempt, open_after}
use tru_dev_tasks.Payments.Models.{Payment, processing}
use tru_dev_tasks.Payments.Service.{
  is_terminal, get_payment, mark_payment_failed_max_retries, run_attempt, metadata_or,
  success_below, soft_below, confirm_payment,
}
use tru_dev_tasks.Payments.Lifecycle.{
  IsHistory, IsValid, AllValid, OthersValid, get-update_self, update-OthersValid, open_phase,
}
use tru_dev_tasks.Payments.Lookup.{
  get_payment_missing, confirm_terminal, confirm_open, mark_terminal,
}
use tru_dev_tasks.Payments.Started.{Started, start_if_pending-Started}
use tru_dev_tasks.Payments.Outcomes.{
  IsAttempted, authorize-AllValid, decline-AllValid, soft_failure-AllValid, mark_open-AllValid,
}
use tru_dev_tasks.Platform.{Platform, World}

module _ ⦃P : Platform⦄ where
  run_attempt-AllValid :
      (p : Payment) (metadata : Option String) (w : World) {old : Payment}
      → P.payments.get w.working.payments p.id ≡ some old
      → OthersValid w.working.payments p.id
      → p.status ≡ processing
      → IsHistory p.state_history processing
      → p.retry_count < P.max_payment_retry_attempts
      → p.confirmed_at ≡ none
      → Reaches P.max_payment_retry_attempts (open_after 0) (open_after p.retry_count)
      → AllValid (run_attempt p.id metadata p w).1.committed.payments
  unfolding run_attempt
  run_attempt-AllValid p metadata w e o s h left u reached =
      if_intro {A = Exec World Payment} (λ m. AllValid (m flushed).1.committed.payments)
        (ltb (P.random w.reads) success_below)
        (λ _. authorize-AllValid attempted flushed present others ready (omega arith))
        (λ _.
          if_intro {A = Exec World Payment} (λ m. AllValid (m flushed).1.committed.payments)
            (ltb (P.random w.reads) soft_below)
            (λ _. soft_failure-AllValid attempted flushed present others ready)
            (λ _. decline-AllValid attempted flushed present others ready))
    where
      attempted : Payment
      attempted = record p {
        payment_metadata = metadata_or metadata p.payment_metadata;
        retry_count = p.retry_count + 1;
      }

      flushed : World
      flushed = record w {
        working = record w.working { payments = P.payments.update w.working.payments attempted };
        reads = suc w.reads;
      }

      present : P.payments.get flushed.working.payments attempted.id ≡ some attempted
      present = get-update_self w.working.payments attempted e

      others : OthersValid flushed.working.payments attempted.id
      others = update-OthersValid w.working.payments attempted e o

      ready : IsAttempted attempted
      ready = record {
        status = s;
        history = h;
        capped = omega arith;
        unconfirmed = u;
        reached = then_step reached (attempt left refl);
      }

  run_begun-AllValid :
      (p : Payment) (metadata : Option String) (w : World) (st : Started p w)
      → P.payments.get w.working.payments p.id ≡ some p
      → AllValid w.working.payments
      → is_terminal p.status ≡ false
      → AllValid (run_attempt p.id metadata st.payment st.world).1.committed.payments
  run_begun-AllValid p metadata w st e valid n =
      subst (λ i. AllValid (run_attempt i metadata st.payment st.world).1.committed.payments)
        st.same_id
        (run_attempt-AllValid st.payment metadata st.world {old = p}
          (simp (st.same_working, st.same_id) e) (λ i q ne. simp st.same_working (valid i q))
          st.status st.history (omega (arith, st.same_count, (valid p.id p e).attempt_left n))
          (st.same_confirmed ∙ (valid p.id p e).unconfirmed (λ h. cc (ap is_terminal h)))
          (rw (st.same_count, sym (open_phase p.status p.retry_count n)) (valid p.id p e).reached))

  confirm_open-AllValid :
      (p : Payment) (metadata : Option String) (w : World)
      → P.payments.get w.working.payments p.id ≡ some p
      → AllValid w.working.payments
      → is_terminal p.status ≡ false
      → AllValid (confirm_payment p.id metadata w).1.committed.payments
  confirm_open-AllValid p metadata w e valid n =
      let st : Started p w =
        start_if_pending-Started p w p.status refl n (valid p.id p e).history in
      rw (confirm_open p.id w p e metadata n st.starts)
        (run_begun-AllValid p metadata w st e valid n)

  -- If every payment that the session sees and every committed one is valid, a confirmation,
  -- whatever its outcome and error, leaves every committed payment valid.
  pub confirm_payment-AllValid :
      (payment_id : ℕ) (metadata : Option String) (w : World)
      → AllValid w.working.payments
      → AllValid w.committed.payments
      → AllValid (confirm_payment payment_id metadata w).1.committed.payments
  unfolding confirm_payment
  confirm_payment-AllValid payment_id metadata w valid before =
      elim (Option-cases (P.payments.get w.working.payments payment_id)) [
        | inl missing ↦
            rw (>>=-err (get_payment payment_id) _ (get_payment_missing payment_id w missing))
              before
        | inr (p, found) ↦ elim (Bool-cases (is_terminal p.status)) [
          | inl terminal ↦ rw (confirm_terminal payment_id w p found metadata terminal) before
          | inr open_status ↦
              subst (λ i. AllValid (confirm_payment i metadata w).1.committed.payments)
                (P.payments.get_key found)
                (confirm_open-AllValid p metadata w (simp (P.payments.get_key found) found) valid
                  open_status)
        ]
      ]

  -- If every payment that the session sees and every committed one is valid, giving up on a
  -- payment, found or not, leaves every committed payment valid.
  pub mark_payment_failed-AllValid :
      (payment_id : ℕ) (w : World)
      → AllValid w.working.payments
      → AllValid w.committed.payments
      → AllValid (mark_payment_failed_max_retries payment_id w).1.committed.payments
  mark_payment_failed-AllValid payment_id w valid before =
      elim (Option-cases (P.payments.get w.working.payments payment_id)) [
        | inl missing ↦
            unfold mark_payment_failed_max_retries in
            rw (>>=-err (get_payment payment_id) _ (get_payment_missing payment_id w missing))
              before
        | inr (p, found) ↦ elim (Bool-cases (is_terminal p.status)) [
          | inl terminal ↦ rw (mark_terminal payment_id w p found p.status refl terminal) before
          | inr n ↦
              let v : IsValid p = valid payment_id p found in
              subst (λ i. AllValid (mark_payment_failed_max_retries i w).1.committed.payments)
                (P.payments.get_key found)
                (mark_open-AllValid p w (simp (P.payments.get_key found) found) (λ i q _. valid i q)
                  n v.history v.capped (v.unconfirmed (λ h. cc (ap is_terminal h))) v.reached)
        ]
      ]
