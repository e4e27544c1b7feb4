-- ===== src/Payments/Readback.antt =====
-- What is created can be read back.
use tru_dev_tasks.Prelude.{
  ℕ, zero, suc, ◌*◌, ◌^◌, ◌<◌, ◌≡◌, refl, sym, ap, subst, ◌∙◌, Option-cases, inl, inr, String, none,
  some, ==_self, arith,
}
use tru_dev_tasks.Prelude.Round.{IsNearest, half_up-IsNearest}
use tru_dev_tasks.Exec.{Result, ok, >>=-inv}
use tru_dev_tasks.Payments.Models.{
  Payment, CreatePaymentRequest, Decimal, numeric_cents, PaymentResponse, PaymentStatus,
  payment_response,
}
use tru_dev_tasks.Payments.Service.{
  new_payment, store_answer, record_answer, create_new, create_payment, enqueue_process_job,
  get_payment,
}
use tru_dev_tasks.Payments.Create.{
  read, found, create_payment_new, enqueue_process_job-SameSessions,
}
use tru_dev_tasks.Payments.Idempotency.{store_answer-returns}
use tru_dev_tasks.Payments.Lookup.{get_payment_found}
use tru_dev_tasks.Platform.{Platform, World, with_session}

-- The cents are at most half a cent away from the amount.
abbrev pub IsRounded : Decimal → ℕ → Type 0
IsRounded d cents = IsNearest (d.coefficient * 100) (10 ^ d.places) cents

-- The response shows what was asked for, as a payment that nothing has been done to.
pub record Shows (request : CreatePaymentRequest) (key : String) (response : PaymentResponse)
    : Type 0 where
  pub customer_id : response.customer_id ≡ request.customer_id
  pub amount : IsRounded request.amount response.amount
  pub currency : response.currency ≡ request.currency
  pub metadata : response.metadata ≡ request.metadata
  pub idempotency_key : response.idempotency_key ≡ key
  pub status : response.status ≡ PaymentStatus.pending
  pub retry_count : response.retry_count ≡ 0

pow_pos : (n : ℕ) → 0 < 10 ^ n
pow_pos zero = omega arith
pow_pos (suc n) = omega (arith, pow_pos n)

numeric_cents-IsRounded : (d : Decimal) → IsRounded d (numeric_cents d)
unfolding numeric_cents
numeric_cents-IsRounded d =
    half_up-IsNearest (d.coefficient * 100) (10 ^ d.places) (pow_pos d.places)

new_payment-Shows :
    (request : CreatePaymentRequest) (key : String) (now id created_at : ℕ)
    → Shows request key (payment_response (new_payment request key now id created_at))
unfolding new_payment payment_response
new_payment-Shows request key now id created_at = record {
  customer_id = refl;
  amount = numeric_cents-IsRounded request.amount;
  currency = refl;
  metadata = refl;
  idempotency_key = refl;
  status = refl;
  retry_count = refl;
}

module _ ⦃P : Platform⦄ where
  store_answer-payments :
      (p : Payment) (key : String) (now : ℕ) (w : World) {w' : World} {a : PaymentResponse × ℕ}
      → store_answer p key now w ≡ (ok a, w')
      → w'.committed.payments ≡ w.working.payments
  unfolding store_answer
  store_answer-payments p key now w e = ground arith

  -- An answer to a creation is that of a payment which is committed.
  record Kept (request : CreatePaymentRequest) (key : String) (a : PaymentResponse × ℕ) (w : World)
      : Type 0 where
    payment : Payment
    stored : P.payments.get w.committed.payments payment.id ≡ some payment
    answered : payment_response payment ≡ a.0
    shows : Shows request key a.0

  record_answer-Kept :
      (request : CreatePaymentRequest) (p : Payment) (key : String) (now : ℕ) (w : World)
      {w' : World} {a : PaymentResponse × ℕ}
      → P.payments.get w.working.payments p.id ≡ some p
      → Shows request key (payment_response p)
      → record_answer p key now w ≡ (ok a, w')
      → Kept request key a w'
  unfolding record_answer
  record_answer-Kept request p key now w present shows e =
      let (u, w1, e1, e2) = >>=-inv (enqueue_process_job p.id) _ e in
      let answered : payment_response p ≡ _ =
        ap (λ (x : PaymentResponse × ℕ). x.0) (sym (store_answer-returns p key now w1 e2)) in
      let same =
        store_answer-payments p key now w1 e2
        ∙ ap (λ (x : Result (Unit {0}) × World). x.1.working.payments) (sym e1)
        ∙ ap (λ db. db.payments) (enqueue_process_job-SameSessions p.id w).working in
      record {
        payment = p;
        stored = ap (λ t. P.payments.get t p.id) same ∙ present;
        answered = answered;
        shows = subst (Shows request key) answered shows;
      }

  create_new-Kept :
      (request : CreatePaymentRequest) (key : String) (now : ℕ) (w : World) {w' : World}
      {a : PaymentResponse × ℕ}
      → create_new request key now w ≡ (ok a, w')
      → Kept request key a w'
  unfolding create_new
  create_new-Kept request key now w e =
      elim (Option-cases (P.payments.insert w.working.payments payment)) [
        | inl refused ↦
            absurd (cc (ap (λ (x : Result (PaymentResponse × ℕ) × World). x.0) (rw refused at e)))
        | inr (t, kept) ↦
            record_answer-Kept request payment key now (inserted t)
              (P.payments.insert_get w.working.payments payment kept payment.id
                ∙ rw (==_self payment.id) refl)
              (new_payment-Shows request key now _ _) (rw kept at e)
      ]
    where
      payment : Payment
      payment = new_payment request key now (P.uuid w.reads) (P.time (suc w.reads))

      inserted : P.payments.State → World
      inserted t = record w {
        working = record w.working { payments = t };
        reads = suc (suc w.reads);
      }

  -- Once a creation under a fresh key has returned, a request for the payment of its answer, while
  -- the committed payments are those of the creation, finds a payment with the very response of
  -- the creation; and this response shows what was asked for, its amount rounded to the nearest
  -- cent, pending and without an attempt.
  pub create_payment-get_payment :
      (request : CreatePaymentRequest) (key : String) (w later : World) {w' : World}
      {response : PaymentResponse} {status : ℕ}
      → found request key w ≡ ok none
      → create_payment request key w ≡ (ok (response, status), w')
      → later.committed.payments ≡ w'.committed.payments
      → (p : Payment) × ((with_session (get_payment response.id) later).0 ≡ ok p)
        × (payment_response p ≡ response)
        × Shows request key response
  unfolding payment_response
  create_payment-get_payment request key w later {w'} {response} {status} unused e same =
      let kept : Kept request key (response, status) w' =
        create_new-Kept request key (P.time w.reads) (read request key w)
          (sym (create_payment_new request key w unused) ∙ e) in
      let own : kept.payment.id ≡ response.id = ap (λ (r : PaymentResponse). r.id) kept.answered in
      let there : P.payments.get later.committed.payments response.id ≡ some kept.payment =
        ap (λ t. P.payments.get t response.id) same
        ∙ ap (P.payments.get w'.committed.payments) (sym own)
        ∙ kept.stored in
      (
        kept.payment,
        ap (λ r. r.0)
            (get_payment_found response.id (record later { working = later.committed }) kept.payment
              there),
        kept.answered,
        kept.shows,
      )
