-- ===== src/Payments/Attempts.antt =====
-- `confirm_payment` only advances payments, and a confirmation of an open payment counts.
use tru_dev_tasks.Prelude.{
  ℕ, suc, ◌+◌, ◌<◌, ◌≡◌, refl, subst, inl, inr, false, String, Option, some, arith, ltb, Bool-cases,
  Option-cases, if_intro,
}
use tru_dev_tasks.Exec.{Exec, >>=-err}
use tru_dev_tasks.Payments.Models.{Payment, processing}
use tru_dev_tasks.Payments.Service.{
  is_terminal, get_payment, run_attempt, metadata_or, success_below, soft_below, confirm_payment,
}
use tru_dev_tasks.Payments.Lifecycle.{get-update_self, IsHistory, AllValid}
use tru_dev_tasks.Payments.Lookup.{get_payment_missing, confirm_terminal, confirm_open}
use tru_dev_tasks.Payments.Started.{Started, start_if_pending-Started}
use tru_dev_tasks.Payments.Progress.{
  Advances, Advances-refl, Advances-trans, AllAdvance, update-AllAdvance, AllAdvance-refl,
}
use tru_dev_tasks.Payments.Advance.{
  kept-Advances, processing-attempts, authorize-AllAdvance, decline-AllAdvance,
  soft_failure-AllAdvance,
}
use tru_dev_tasks.Platform.{Platform, World}

-- The payment with its attempt counted.
abbrev attempted : ⦃P : Platform⦄ → Option String → Payment → Payment
attempted metadata p = record p {
  payment_metadata = metadata_or metadata p.payment_metadata;
  retry_count = p.retry_count + 1;
}

module _ ⦃P : Platform⦄ (s : P.payments.State) where
  run_attempt-after :
      (p : Payment) (metadata : Option String) (w : World) {old : Payment}
      → P.payments.get w.working.payments p.id ≡ some old
      → p.status ≡ processing
      → IsHistory p.state_history p.status
      → AllAdvance s (P.payments.update w.working.payments (attempted metadata p))
      → AllAdvance s (run_attempt p.id metadata p w).1.committed.payments
  unfolding run_attempt
  run_attempt-after p metadata w e st hist written =
      if_intro {A = Exec World Payment} (λ m. AllAdvance s (m flushed).1.committed.payments)
        (ltb (P.random w.reads) success_below)
        (λ _.
          authorize-AllAdvance s counted flushed present (Advances-refl counted) st (omega arith)
            written)
        (λ _.
          if_intro {A = Exec World Payment} (λ m. AllAdvance s (m flushed).1.committed.payments)
            (ltb (P.random w.reads) soft_below)
            (λ _.
              soft_failure-AllAdvance s counted flushed present (Advances-refl counted) st hist
                written)
            (λ _. decline-AllAdvance s counted flushed present (Advances-refl counted) st written))
    where
      counted : Payment
      counted = attempted metadata p

      flushed : World
      flushed = record w {
        working = record w.working { payments = P.payments.update w.working.payments counted };
        reads = suc w.reads;
      }

      present : P.payments.get flushed.working.payments counted.id ≡ some counted
      present = get-update_self w.working.payments counted e

  run_attempt-AllAdvance :
      (p : Payment) (metadata : Option String) (w : World) {old : Payment}
      → P.payments.get w.working.payments p.id ≡ some old
      → Advances old p
      → p.status ≡ processing
      → IsHistory p.state_history p.status
      → p.retry_count < P.max_payment_retry_attempts
      → AllAdvance s w.working.payments
      → AllAdvance s (run_attempt p.id metadata p w).1.committed.payments
  run_attempt-AllAdvance p metadata w {old} e h st hist left a =
      run_attempt-after p metadata w e st hist (
        update-AllAdvance s w.working.payments old (attempted metadata p) e
          (Advances-trans h (
            kept-Advances p p.failure_reason p.failure_class _ (p.retry_count + 1) (rw st refl)
              (omega arith) (processing-attempts p st left)))
          a)

  confirm_open-AllAdvance :
      (p : Payment) (metadata : Option String) (w : World)
      → P.payments.get w.working.payments p.id ≡ some p
      → is_terminal p.status ≡ false
      → IsHistory p.state_history p.status
      → p.retry_count < P.max_payment_retry_attempts
      → AllAdvance s w.working.payments
      → AllAdvance s (confirm_payment p.id metadata w).1.committed.payments
  confirm_open-AllAdvance p metadata w e n h left a =
      let st : Started p w = start_if_pending-Started p w p.status refl n h in
      rw (confirm_open p.id w p e metadata n st.starts) (
        subst (λ i. AllAdvance s (run_attempt i metadata st.payment st.world).1.committed.payments)
          st.same_id
          (run_attempt-AllAdvance st.payment metadata st.world {old = p}
            (simp (st.same_working, st.same_id) e) st.advances st.status (rw st.status st.history)
            (omega (arith, st.same_count, left)) (rw st.same_working a)))

  pub confirm_payment-AllAdvance :
      (payment_id : ℕ) (metadata : Option String) (w : World)
      → AllValid w.working.payments
      → AllAdvance s w.working.payments
      → AllAdvance s w.committed.payments
      → AllAdvance s (confirm_payment payment_id metadata w).1.committed.payments
  unfolding confirm_payment
  confirm_payment-AllAdvance payment_id metadata w valid a before =
      elim (Option-cases (P.payments.get w.working.payments payment_id)) [
        | inl missing ↦
            rw (>>=-err (get_payment payment_id) _ (get_payment_missing payment_id w missing))
              before
        | inr (p, found) ↦ elim (Bool-cases (is_terminal p.status)) [
          | inl terminal ↦ rw (confirm_terminal payment_id w p found metadata terminal) before
          | inr n ↦
              subst (λ i. AllAdvance s (confirm_payment i metadata w).1.committed.payments)
                (P.payments.get_key found)
                (confirm_open-AllAdvance p metadata w (simp (P.payments.get_key found) found) n
                  (valid payment_id p found).history ((valid payment_id p found).attempt_left n) a)
        ]
      ]

module _ ⦃P : Platform⦄ where
  -- The payment of an open confirmation is there afterwards, with one attempt more or with more.
  IsCounted : ℕ → ℕ → P.payments.State → Type 0
  IsCounted i n t = (q : Payment) × (P.payments.get t i ≡ some q) × (n < q.retry_count)

  run_attempt-IsCounted :
      (p : Payment) (metadata : Option String) (w : World) {old : Payment}
      → P.payments.get w.working.payments p.id ≡ some old
      → p.status ≡ processing
      → IsHistory p.state_history p.status
      → IsCounted p.id p.retry_count (run_attempt p.id metadata p w).1.committed.payments
  unfolding IsCounted
  run_attempt-IsCounted p metadata w e st hist =
      let counted = attempted metadata p in
      let flushed = P.payments.update w.working.payments counted in
      let (q, there, h) =
        run_attempt-after flushed p metadata w e st hist (AllAdvance-refl flushed) p.id counted
          (get-update_self w.working.payments counted e) in
      (q, there, omega (arith, h.attempts))

  confirm_open-IsCounted :
      (p : Payment) (metadata : Option String) (w : World)
      → P.payments.get w.working.payments p.id ≡ some p
      → is_terminal p.status ≡ false
      → IsHistory p.state_history p.status
      → IsCounted p.id p.retry_count (confirm_payment p.id metadata w).1.committed.payments
  unfolding IsCounted
  confirm_open-IsCounted p metadata w e n h =
      let st : Started p w = start_if_pending-Started p w p.status refl n h in
      let (q, there, more) =
        run_attempt-IsCounted st.payment metadata st.world {old = p}
          (simp (st.same_working, st.same_id) e) st.status (rw st.status st.history) in
      (
        q,
        rw (confirm_open p.id w p e metadata n st.starts) (
            subst
              (λ i.
                P.payments.get (run_attempt i metadata st.payment st.world).1.committed.payments i
                ≡ some q)
              st.same_id there),
        omega (arith, more, st.same_count),
      )

  pub confirm_payment-counts :
      (payment_id : ℕ) (metadata : Option String) (w : World) (p : Payment)
      → P.payments.get w.working.payments payment_id ≡ some p
      → AllValid w.working.payments
      → is_terminal p.status ≡ false
      → (q : Payment) × (P.payments.get
            (confirm_payment payment_id metadata w).1.committed.payments
            payment_id
          ≡ some q)
        × (p.retry_count < q.retry_count)
  unfolding IsCounted
  confirm_payment-counts payment_id metadata w p found valid n =
      subst (λ i. IsCounted i p.retry_count (confirm_payment i metadata w).1.committed.payments)
        (P.payments.get_key found)
        (confirm_open-IsCounted p metadata w (simp (P.payments.get_key found) found) n
          (valid payment_id p found).history)
