-- ===== src/Payments/Lookup.antt =====
-- How the first steps of the payment service's methods answer: the lookup and the test of status.
use tru_dev_tasks.Prelude.{ℕ, ◌≡◌, refl, ap, ◌∙◌, true, false, String, Option, none, some}
use tru_dev_tasks.Core.Exceptions.{payment_not_found, payment_already_processed}
use tru_dev_tasks.Exec.{ok, err, or_raise, >>=-ok}
use tru_dev_tasks.Payments.Models.{Payment, PaymentStatus, pending, processing, success, failed}
use tru_dev_tasks.Payments.Service.{
  is_terminal, get_payment, start_if_pending, run_attempt, fail_started,
  mark_payment_failed_max_retries, confirm_payment,
}
use tru_dev_tasks.Platform.{Platform, World}

module _ ⦃P : Platform⦄ (payment_id : ℕ) (w : World) where
  pub get_payment_missing :
      P.payments.get w.working.payments payment_id ≡ none
      → get_payment payment_id w ≡ (err payment_not_found, w)
  unfolding get_payment
  get_payment_missing e = rw (e, or_raise) refl

  module _ (p : Payment) (e : P.payments.get w.working.payments payment_id ≡ some p) where
    pub get_payment_found : get_payment payment_id w ≡ (ok p, w)
    unfolding get_payment
    get_payment_found = rw (e, or_raise) refl

    pub mark_terminal :
        (status : PaymentStatus)
        → p.status ≡ status
        → is_terminal status ≡ true
        → (mark_payment_failed_max_retries payment_id w).1 ≡ w
    unfolding mark_payment_failed_max_retries
    mark_terminal pending s t = cc
    mark_terminal processing s t = cc
    mark_terminal success s t =
        ap (λ r. r.1) (>>=-ok (get_payment payment_id) _ get_payment_found) ∙ simp s
    mark_terminal failed s t =
        ap (λ r. r.1) (>>=-ok (get_payment payment_id) _ get_payment_found) ∙ simp s

    pub mark_open :
        (status : PaymentStatus) {started : Payment} {w' : World}
        → p.status ≡ status
        → is_terminal status ≡ false
        → start_if_pending p w ≡ (ok started, w')
        → mark_payment_failed_max_retries payment_id w ≡ fail_started started w'
    unfolding mark_payment_failed_max_retries
    mark_open pending s n e =
        >>=-ok (get_payment payment_id) _ get_payment_found
        ∙ simp s (>>=-ok (start_if_pending p) _ e)
    mark_open processing s n e =
        >>=-ok (get_payment payment_id) _ get_payment_found
        ∙ simp s (>>=-ok (start_if_pending p) _ e)
    mark_open success s n e = cc
    mark_open failed s n e = cc

    pub confirm_terminal :
        (metadata : Option String)
        → is_terminal p.status ≡ true
        → confirm_payment payment_id metadata w ≡ (err payment_already_processed, w)
    unfolding confirm_payment
    confirm_terminal metadata t = >>=-ok (get_payment payment_id) _ get_payment_found ∙ simp t

    pub confirm_open :
        (metadata : Option String) {started : Payment} {w' : World}
        → is_terminal p.status ≡ false
        → start_if_pending p w ≡ (ok started, w')
        → confirm_payment payment_id metadata w ≡ run_attempt payment_id metadata started w'
    unfolding confirm_payment
    confirm_open metadata n e =
        >>=-ok (get_payment payment_id) _ get_payment_found
        ∙ simp n (>>=-ok (start_if_pending p) _ e)
