-- ===== src/Jobs/FollowUp/RetryPayment.antt =====
-- The same of a job that retries a payment.
use tru_dev_tasks.Prelude.{
  some-injective, ℕ, ◌≡◌, refl, sym, ap, subst, ◌∙◌, inl, inr, true, false, none, some, leb,
  Bool-cases, Option-cases, if_intro, if◌then◌else◌,
}
use tru_dev_tasks.Core.Exceptions.{soft_payment_processing_failure}
use tru_dev_tasks.Exec.{
  Exec, Result, ok, err, pure, catch, after, ◌>>◌, ◌>>=◌, >>=-ok, >>=-err, catch-err,
}
use tru_dev_tasks.Jobs.FollowUp.{
  HasRetry, FollowsUp, returns-FollowsUp, closed-FollowsUp, schedule_retry-HasRetry,
}
use tru_dev_tasks.Jobs.Handlers.{parse_id, schedule_retry, retry_payment, retry_payment_except}
use tru_dev_tasks.Jobs.Models.{Payload}
use tru_dev_tasks.Payments.Clean.{IsClean, confirm_payment-IsClean}
use tru_dev_tasks.Payments.Confirm.{confirm_payment-AllValid}
use tru_dev_tasks.Payments.Lifecycle.{AllValid}
use tru_dev_tasks.Payments.Lookup.{
  get_payment_missing, get_payment_found, confirm_terminal, mark_terminal,
}
use tru_dev_tasks.Payments.Models.{Payment}
use tru_dev_tasks.Payments.Returned.{Ends, mark_open-Ends, confirm_open-Ends}
use tru_dev_tasks.Payments.Service.{
  is_terminal, get_payment, confirm_payment, mark_payment_failed_max_retries,
}
use tru_dev_tasks.Platform.{Platform, World}

module _ ⦃P : Platform⦄ where
  -- A payment that is confirmed or failed is not open.
  closed :
      {i : ℕ} {p q : Payment} {w : World}
      → P.payments.get w.committed.payments i ≡ some p
      → is_terminal p.status ≡ true
      → P.payments.get w.committed.payments i ≡ some q
      → is_terminal q.status ≡ false
      → HasRetry i w
  closed {i} {p} {q} stored terminal there n =
      let same : p ≡ q = some-injective (sym stored ∙ there) in
      absurd (cc (ap (λ (x : Payment). is_terminal x.status) same, terminal, n))

  ended-FollowsUp :
      (i : ℕ) (r : Result Payment × World) → Ends i r → FollowsUp i (after (λ _. pure (tt {0})) r)
  ended-FollowsUp i (ok p, v) (stored, terminal) = λ q there n. closed stored terminal there n
  ended-FollowsUp i (err x, v) soft = tt

  -- A call that leaves a terminal payment as it is.
  unchanged-FollowsUp :
      (i : ℕ) (p : Payment) (w : World) (r : Result Payment × World)
      → P.payments.get w.committed.payments i ≡ some p
      → is_terminal p.status ≡ true
      → r.1 ≡ w
      → FollowsUp i (after (λ _. pure (tt {0})) r)
  unchanged-FollowsUp i p w (ok a, v) stored terminal same = λ q there n.
      closed (ap (λ (x : World). P.payments.get x.committed.payments i) same ∙ stored) terminal
        there n
  unchanged-FollowsUp i p w (err x, v) stored terminal same = tt

  mark-FollowsUp :
      (i : ℕ) (w : World)
      → IsClean w
      → AllValid w.working.payments
      → FollowsUp i ((mark_payment_failed_max_retries i >> pure tt) w)
  mark-FollowsUp i w clean valid = elim (Option-cases (P.payments.get w.working.payments i)) [
    | inl missing ↦
        unfold mark_payment_failed_max_retries in
        rw (>>=-err (get_payment i) _ (get_payment_missing i w missing)) tt
    | inr (p, found) ↦ elim (Bool-cases (is_terminal p.status)) [
      | inl terminal ↦
          unchanged-FollowsUp i p w (mark_payment_failed_max_retries i w)
            (ap (λ db. P.payments.get db.payments i) (sym clean) ∙ found) terminal
            (mark_terminal i w p found p.status refl terminal)
      | inr n ↦ ended-FollowsUp i (mark_payment_failed_max_retries i w) (
          subst (λ k. Ends k (mark_payment_failed_max_retries k w)) (P.payments.get_key found)
            (mark_open-Ends p w (simp (P.payments.get_key found) found) n
              (valid i p found).history))
    ]
  ]

  -- The `except` clause on a soft failure, in a session with nothing uncommitted.
  soft-FollowsUp :
      (i a c : ℕ) (v : World)
      → IsClean v
      → AllValid v.working.payments
      → FollowsUp i (retry_payment_except i (soft_payment_processing_failure a c) v)
  unfolding retry_payment_except
  soft-FollowsUp i a c v clean valid = elim (Option-cases (P.payments.get v.working.payments i)) [
    | inl missing ↦ rw (>>=-err (get_payment i) (go i) (get_payment_missing i v missing)) tt
    | inr (p, found) ↦ rw (>>=-ok (get_payment i) (go i) (get_payment_found i v p found)) (
        if_intro {A = Exec World (Unit {0})} (λ m. FollowsUp i (m v))
          (leb P.max_payment_retry_attempts p.retry_count) (λ _. mark-FollowsUp i v clean valid)
          (λ _. returns-FollowsUp i _ (λ u w e. schedule_retry-HasRetry i p.retry_count v e)))
  ]
    where
      go : ℕ → Payment → Exec World (Unit {0})
      go i p =
          if leb P.max_payment_retry_attempts p.retry_count
          then mark_payment_failed_max_retries i >> pure tt
          else schedule_retry i p.retry_count

  caught-FollowsUp :
      (i : ℕ) (r : Result Payment × World)
      → Ends i r
      → IsClean r.1
      → AllValid r.1.working.payments
      → FollowsUp i
          (catch (λ (s : World). after (λ _. pure (tt {0})) r) (retry_payment_except i) r.1)
  caught-FollowsUp i (ok p, v) (stored, terminal) clean valid =
      λ q there n. closed stored terminal there n
  caught-FollowsUp i (err x, v) (a, c, e) clean valid =
      subst (λ y. FollowsUp i (retry_payment_except i y v)) (sym e)
        (soft-FollowsUp i a c v clean valid)

  attempt-FollowsUp :
      (i : ℕ) (p : Payment) (w : World)
      → P.payments.get w.working.payments i ≡ some p
      → IsClean w
      → AllValid w.working.payments
      → FollowsUp i (catch (confirm_payment i none >> pure tt) (retry_payment_except i) w)
  unfolding retry_payment_except
  attempt-FollowsUp i p w found clean valid = elim (Bool-cases (is_terminal p.status)) [
    | inl terminal ↦
        rw
          (catch-err (confirm_payment i none >> pure tt) (retry_payment_except i) (
            >>=-err (confirm_payment i none) (λ _. pure tt)
              (confirm_terminal i w p found none terminal)))
          tt
    | inr n ↦
        let after_clean = confirm_payment-IsClean i none w valid clean in
        let committed_valid =
          confirm_payment-AllValid i none w valid
            (subst (λ db. AllValid db.payments) clean valid) in
        caught-FollowsUp i (confirm_payment i none w)
          (subst (λ k. Ends k (confirm_payment k none w)) (P.payments.get_key found)
            (confirm_open-Ends p none w (simp (P.payments.get_key found) found) n
              (valid i p found).history))
          after_clean (subst (λ db. AllValid db.payments) (sym after_clean) committed_valid)
  ]

  abbrev body : ℕ → Payment → Exec World (Unit {0})
  body i p =
      if leb P.max_payment_retry_attempts p.retry_count
      then mark_payment_failed_max_retries i >> pure tt
      else catch (confirm_payment i none >> pure tt) (retry_payment_except i)

  body-FollowsUp :
      (i : ℕ) (w : World)
      → IsClean w
      → AllValid w.working.payments
      → FollowsUp i ((get_payment i >>= body i) w)
  body-FollowsUp i w clean valid = elim (Option-cases (P.payments.get w.working.payments i)) [
    | inl missing ↦ rw (>>=-err (get_payment i) (body i) (get_payment_missing i w missing)) tt
    | inr (p, found) ↦ rw (>>=-ok (get_payment i) (body i) (get_payment_found i w p found)) (
        if_intro {A = Exec World (Unit {0})} (λ m. FollowsUp i (m w))
          (leb P.max_payment_retry_attempts p.retry_count) (λ _. mark-FollowsUp i w clean valid)
          (λ _. attempt-FollowsUp i p w found clean valid))
  ]

  -- If the committed payments are valid and the handler of `retry_payment` returns for a payment
  -- that is still neither confirmed nor failed, there is a queued `retry_payment` job for it.
  pub retry_payment-HasRetry :
      (payload : Payload) (i : ℕ) (q : Payment) (w : World) {u : Unit {0}} {w' : World}
      → parse_id "payment_id" payload ≡ ok i
      → AllValid w.committed.payments
      → retry_payment payload w ≡ (ok u, w')
      → P.payments.get w'.committed.payments i ≡ some q
      → is_terminal q.status ≡ false
      → HasRetry i w'
  unfolding retry_payment
  retry_payment-HasRetry payload i q w {u} {w'} parsed valid e there n =
      let begun : World = record w { working = w.committed } in
      subst (FollowsUp i) (rw parsed at e)
        (closed-FollowsUp i ((get_payment i >>= body i) begun) (body-FollowsUp i begun refl valid))
        q there n
