-- ===== src/Payments/Idempotency.antt =====
-- What an idempotency key guarantees: a repeated request within a day gets the first answer and
-- writes nothing, and a key whose record has expired is refused.
use text.Mathlib.TextPositions.{eq_refl}
use tru_dev_tasks.Prelude.{
  ℕ, suc, ◌+◌, ◌≤◌, ◌<◌, ◌≡◌, refl, sym, ap, subst, ◌∙◌, true, Option-cases, inl, inr, String, none,
  some, List, select, str_eq, eq_iff, lt→ltb, [], ◌∷◌, arith,
}
use tru_dev_tasks.Core.Exceptions.{integrity_error}
use tru_dev_tasks.Database.Queries.{
  scalar_one_or_none, scalar_none, select_perm, single_perm, any_mem,
}
use tru_dev_tasks.Exec.{Result, ok, err, >>=-inv}
use tru_dev_tasks.Payments.Models.{
  Payment, IdempotencyRecord, CreatePaymentRequest, PaymentResponse, payment_response,
  payment_clash, day,
}
use tru_dev_tasks.Payments.Service.{
  replay, created, new_payment, answer_record, store_answer, record_answer, create_new,
  create_payment, enqueue_process_job,
}
use tru_dev_tasks.Payments.Create.{
  read, found, create_payment_new, create_payment_live, create_payment_expired,
  enqueue_process_job-SameSessions,
}
use tru_dev_tasks.Platform.{Platform, World, with_session}

module _ ⦃P : Platform⦄ where
  -- Answered with `a`: the committed records hold, under the key, this one and no other.
  record Answered (key : String) (now : ℕ) (a : PaymentResponse × ℕ)
      (s : P.idempotency_records.State) : Type 0 where
    kept : IdempotencyRecord
    body : kept.response_body ≡ some a.0
    status : kept.status_code ≡ a.1
    expires : kept.expires_at ≡ now + day
    only : select (λ r. str_eq r.key key) (P.idempotency_records.rows s) ≡ kept ∷ []

  store_answer-inserts :
      (p : Payment) (key : String) (now : ℕ) (w : World) {w' : World} {a : PaymentResponse × ℕ}
      → store_answer p key now w ≡ (ok a, w')
      → P.idempotency_records.insert w.working.idempotency_records
          (answer_record p key now (P.uuid w.reads))
        ≡ some w'.committed.idempotency_records
  unfolding store_answer
  store_answer-inserts p key now w e = ground arith

  pub store_answer-returns :
      (p : Payment) (key : String) (now : ℕ) (w : World) {w' : World} {a : PaymentResponse × ℕ}
      → store_answer p key now w ≡ (ok a, w')
      → a ≡ (payment_response p, created)
  unfolding store_answer
  store_answer-returns p key now w e = ground arith

  abbrev under : String → World → List IdempotencyRecord
  under key w =
      select (λ r. str_eq r.key key) (P.idempotency_records.rows w.working.idempotency_records)

  store_answer-Answered :
      (p : Payment) (key : String) (now : ℕ) (w : World) {w' : World} {a : PaymentResponse × ℕ}
      → under key w ≡ []
      → store_answer p key now w ≡ (ok a, w')
      → Answered key now a w'.committed.idempotency_records
  unfolding answer_record
  store_answer-Answered p key now w unused e = record {
    kept = answer_record p key now (P.uuid w.reads);
    body = ap (λ (x : PaymentResponse × ℕ). some x.0) (sym (store_answer-returns p key now w e));
    status = ap (λ (x : PaymentResponse × ℕ). x.1) (sym (store_answer-returns p key now w e));
    expires = refl;
    only =
        single_perm
          (select_perm (λ r. str_eq r.key key)
            (P.idempotency_records.insert_rows _ _ (store_answer-inserts p key now w e)))
          (simp (eq_refl, unused));
  }

  record_answer-Answered :
      (p : Payment) (key : String) (now : ℕ) (w : World) {w' : World} {a : PaymentResponse × ℕ}
      → under key w ≡ []
      → record_answer p key now w ≡ (ok a, w')
      → Answered key now a w'.committed.idempotency_records
  unfolding record_answer
  record_answer-Answered p key now w unused e =
      let (u, w1, e1, e2) = >>=-inv (enqueue_process_job p.id) _ e in
      store_answer-Answered p key now w1 (same w1 e1 unused) e2
    where
      same :
          (w1 : World) {u : Unit {0}}
          → enqueue_process_job p.id w ≡ (ok u, w1)
          → under key w ≡ []
          → under key w1 ≡ []
      same w1 {u} e1 h =
          ap
            (λ s. select (λ r. str_eq r.key key) (P.idempotency_records.rows s.idempotency_records))
            (ap (λ (x : Result (Unit {0}) × World). x.1.working) (sym e1)
              ∙ (enqueue_process_job-SameSessions p.id w).working)
          ∙ h

  create_new-Answered :
      (request : CreatePaymentRequest) (key : String) (now : ℕ) (w : World) {w' : World}
      {a : PaymentResponse × ℕ}
      → under key w ≡ []
      → create_new request key now w ≡ (ok a, w')
      → Answered key now a w'.committed.idempotency_records
  unfolding create_new
  create_new-Answered request key now w unused e =
      elim (Option-cases (P.payments.insert w.working.payments payment)) [
        | inl refused ↦
            absurd (cc (ap (λ (x : Result (PaymentResponse × ℕ) × World). x.0) (rw refused at e)))
        | inr (t, kept) ↦ record_answer-Answered payment key now (inserted t) unused (rw kept at e)
      ]
    where
      payment : Payment
      payment = new_payment request key now (P.uuid w.reads) (P.time (suc w.reads))

      inserted : P.payments.State → World
      inserted t = record w {
        working = record w.working { payments = t };
        reads = suc (suc w.reads);
      }

  -- A request whose key is answered gets that answer until it expires, and writes nothing.
  module _ (request : CreatePaymentRequest) (key : String) (now : ℕ) (w : World)
      (a : PaymentResponse × ℕ) where
    abbrev begun : World
    begun = record w { working = w.committed }

    replay-answer :
        (r : IdempotencyRecord)
        → r.response_body ≡ some a.0
        → r.status_code ≡ a.1
        → replay r (read request key begun) ≡ (ok a, read request key begun)
    replay-answer r body status = ground arith

    Answered-replays :
        Answered key now a w.committed.idempotency_records
        → P.time w.reads < now + day
        → with_session (create_payment request key) w
          ≡ (ok a, record w { working = w.committed; reads = suc w.reads })
    Answered-replays s live =
        ap
          (λ (x : Result (PaymentResponse × ℕ) × World).
            (x.0, record x.1 { working = x.1.committed }))
          (create_payment_live request key begun s.kept (ap scalar_one_or_none s.only)
              (lt→ltb _ _ (rw s.expires live))
            ∙ replay-answer s.kept s.body s.status)

  -- Once a payment has been created under a fresh key, a request with that key that comes within
  -- a day of the first, while the committed idempotency records are those of the creation, gets
  -- the first response and status, whatever it asks for, and leaves the database, the jobs and the
  -- log as they are.
  pub create_payment-replays :
      (request request' : CreatePaymentRequest) (key : String) (w later : World) {w' : World}
      {a : PaymentResponse × ℕ}
      → found request key w ≡ ok none
      → create_payment request key w ≡ (ok a, w')
      → later.committed.idempotency_records ≡ w'.committed.idempotency_records
      → P.time later.reads < P.time w.reads + day
      → with_session (create_payment request' key) later
        ≡ (ok a, record later { working = later.committed; reads = suc later.reads })
  create_payment-replays request request' key w later {w'} {a} unused e same live =
      Answered-replays request' key (P.time w.reads) later a
        (subst (Answered key (P.time w.reads) a) (sym same) (
          create_new-Answered request key (P.time w.reads) (read request key w)
            (scalar_none _ unused) (sym (create_payment_new request key w unused) ∙ e)))
        live

  -- While the payment that was created under a key exists, a request with that key whose record
  -- has expired ends in an `IntegrityError`, and commits nothing.
  pub create_payment-expired_key :
      (request : CreatePaymentRequest) (key : String) (w : World) (r : IdempotencyRecord) (i : ℕ)
      (q : Payment)
      → found request key w ≡ ok (some r)
      → r.expires_at ≤ P.time w.reads
      → P.payments.get w.working.payments i ≡ some q
      → q.idempotency_key ≡ key
      → ((create_payment request key w).0 ≡ err integrity_error)
        × ((create_payment request key w).1.committed ≡ w.committed)
  create_payment-expired_key request key w r i q e expired present same =
      rw (create_payment_expired request key w r e (ground arith))
        (unfold create_new in rw refused (refl, refl))
    where
      payment : Payment
      payment =
          new_payment request key (P.time w.reads) (P.uuid (suc w.reads))
            (P.time (suc (suc w.reads)))

      clashes : payment_clash payment q ≡ true
      clashes = unfold new_payment in ground (arith, eq_iff key q.idempotency_key)

      refused : P.payments.insert w.working.payments payment ≡ none
      refused =
          (P.payments.insert_refused w.working.payments payment).1
            (any_mem (payment_clash payment) (P.payments.get_rows present) clashes)
