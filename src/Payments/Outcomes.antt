-- ===== src/Payments/Outcomes.antt =====
-- The ends of an attempt: what each of them writes is a valid payment.
use tru_dev_tasks.Prelude.{
  ℕ, ◌≤◌, ◌<◌, ◌≡◌, refl, ◌∙◌, sym, inl, inr, false, String, none, some, [], ◌∷◌, ◌++◌, arith, leb,
  Bool-cases,
}
use tru_dev_tasks.Payments.Models.{
  Payment, StateHistoryEntry, processing, success, failed, hard, soft,
}
use tru_dev_tasks.Payments.StateMachine.{valid_transitions, transition}
use tru_dev_tasks.Payments.Service.{
  is_terminal, fail_started, mark_payment_failed_max_retries, authorize, soft_failure, decline,
}
use tru_dev_tasks.Payments.Lifecycle.{
  IsHistory, IsHistory-append, IsValid, AllValid, OthersValid, get-update_self, update-OthersValid,
  update-AllValid, open_phase,
}
use tru_dev_tasks.Payments.Machine.{Reaches, then_step, confirm, fail, open_after, phase_of}
use tru_dev_tasks.Payments.Lookup.{mark_open}
use tru_dev_tasks.Platform.{Platform, World}
use tru_dev_tasks.Payments.Started.{Started, start_if_pending-Started}

module _ ⦃P : Platform⦄ where
  -- A payment in processing that has made an attempt within the cap.
  pub record IsAttempted (p : Payment) : Type 0 where
    pub status : p.status ≡ processing
    pub history : IsHistory p.state_history processing
    pub capped : p.retry_count ≤ P.max_payment_retry_attempts
    pub unconfirmed : p.confirmed_at ≡ none
    pub reached : Reaches P.max_payment_retry_attempts (open_after 0) (open_after p.retry_count)

  -- The row that each way to end a payment writes is valid.
  success-IsValid :
      (p : Payment) (e : StateHistoryEntry) (confirmed_at : ℕ)
      → e.state ≡ success
      → IsAttempted p
      → 0 < p.retry_count
      → IsValid (record p {
        status = success;
        state_history = p.state_history ++ e ∷ [];
        failure_reason = none;
        failure_class = none;
        confirmed_at = some confirmed_at;
      })
  unfolding valid_transitions
  success-IsValid p e confirmed_at s a tried = record {
    history = IsHistory-append processing success p.state_history e s refl a.history;
    capped = a.capped;
    attempt_left = λ h. cc;
    confirmed = λ h. ((λ h'. cc), refl);
    unconfirmed = λ h. absurd (h refl);
    classified = λ h. cc;
    reached = then_step a.reached (confirm tried);
  }

  failed-IsValid :
      (p : Payment) (e : StateHistoryEntry) (reason : String)
      → e.state ≡ failed
      → IsAttempted p
      → IsValid (record p {
        status = failed;
        state_history = p.state_history ++ e ∷ [];
        failure_class = some hard;
        failure_reason = some reason;
      })
  unfolding valid_transitions
  failed-IsValid p e reason s a = record {
    history = IsHistory-append processing failed p.state_history e s refl a.history;
    capped = a.capped;
    attempt_left = λ h. cc;
    confirmed = λ h. cc;
    unconfirmed = λ h. a.unconfirmed;
    classified = λ h. refl;
    reached = then_step a.reached fail;
  }

  pub authorize-AllValid :
      (p : Payment) (w : World) {old : Payment}
      → P.payments.get w.working.payments p.id ≡ some old
      → OthersValid w.working.payments p.id
      → IsAttempted p
      → 0 < p.retry_count
      → AllValid (authorize p w).1.committed.payments
  unfolding authorize transition
  authorize-AllValid p w e o a tried =
      rw a.status (update-AllValid w.working.payments _ e o (success-IsValid p _ _ refl a tried))

  pub decline-AllValid :
      (p : Payment) (w : World) {old : Payment}
      → P.payments.get w.working.payments p.id ≡ some old
      → OthersValid w.working.payments p.id
      → IsAttempted p
      → AllValid (decline p w).1.committed.payments
  unfolding decline transition
  decline-AllValid p w e o a =
      rw a.status (update-AllValid w.working.payments _ e o (failed-IsValid p _ _ refl a))

  fail_started-AllValid :
      (p : Payment) (w : World) {old : Payment}
      → P.payments.get w.working.payments p.id ≡ some old
      → OthersValid w.working.payments p.id
      → IsAttempted p
      → AllValid (fail_started p w).1.committed.payments
  unfolding fail_started transition
  fail_started-AllValid p w e o a =
      rw a.status (update-AllValid w.working.payments _ e o (failed-IsValid p _ _ refl a))

  -- What `mark_payment_failed_max_retries` does to a payment that is not terminal.
  pub mark_open-AllValid :
      (p : Payment) (w : World)
      → P.payments.get w.working.payments p.id ≡ some p
      → OthersValid w.working.payments p.id
      → is_terminal p.status ≡ false
      → IsHistory p.state_history p.status
      → p.retry_count ≤ P.max_payment_retry_attempts
      → p.confirmed_at ≡ none
      → Reaches P.max_payment_retry_attempts (open_after 0) (phase_of p)
      → AllValid (mark_payment_failed_max_retries p.id w).1.committed.payments
  mark_open-AllValid p w e o n h c u reached =
      let st : Started p w = start_if_pending-Started p w p.status refl n h in
      rw (mark_open p.id w p e p.status refl n st.starts) (
        fail_started-AllValid st.payment st.world {old = p} (simp (st.same_working, st.same_id) e)
          (λ i q ne. simp st.same_working (o i q (λ k. ne (k ∙ sym st.same_id))))
          (record {
            status = st.status;
            history = st.history;
            capped = rw st.same_count c;
            unconfirmed = st.same_confirmed ∙ u;
            reached = rw (st.same_count, sym (open_phase p.status p.retry_count n)) reached;
          }))

  pub soft_failure-AllValid :
      (p : Payment) (w : World) {old : Payment}
      → P.payments.get w.working.payments p.id ≡ some old
      → OthersValid w.working.payments p.id
      → IsAttempted p
      → AllValid (soft_failure p.id p w).1.committed.payments
  unfolding soft_failure
  soft_failure-AllValid p w e o a =
      elim (Bool-cases (leb P.max_payment_retry_attempts p.retry_count)) [
        | inl last ↦ rw last (
            mark_open-AllValid softened _ (get-update_self w.working.payments softened e)
              (update-OthersValid w.working.payments softened e o) (rw a.status refl)
              (rw a.status a.history) a.capped a.unconfirmed (rw a.status a.reached))
        | inr more ↦
            rw more (update-AllValid w.working.payments softened e o (softened-IsValid more))
      ]
    where
      softened : Payment
      softened = record p {
        failure_class = some soft;
        failure_reason = some "Temporary upstream processor failure";
      }

      softened-IsValid : leb P.max_payment_retry_attempts p.retry_count ≡ false → IsValid softened
      softened-IsValid more = record {
        history = rw a.status a.history;
        capped = a.capped;
        attempt_left = λ h. ground arith;
        confirmed = λ h. cc (a.status);
        unconfirmed = λ h. a.unconfirmed;
        classified = λ h. cc (a.status);
        reached = rw a.status a.reached;
      }
