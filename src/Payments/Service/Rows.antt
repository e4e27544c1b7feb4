-- ===== src/Payments/Service/Rows.antt =====
-- pulsepay/payments/service.py: the rows that the methods of `PaymentService` look up and write.
-- `save_payment` stands where the source flushes or commits the changes of a payment.
use tru_dev_tasks.Prelude.{
  ℕ, ◌+◌, String, Bool, true, false, Option, none, some, [], ◌∷◌, str_eq, select,
}
use tru_dev_tasks.Core.Exceptions.{integrity_error, payment_not_found}
use tru_dev_tasks.Database.Queries.{scalar_one_or_none}
use tru_dev_tasks.Exec.{Exec, raise, lift, gets, modify, or_raise, ◌>>=◌}
use tru_dev_tasks.Payments.Models.{
  Payment, PaymentStatus, StateHistoryEntry, pending, success, failed, payment_response,
  IdempotencyRecord, CreatePaymentRequest, numeric_cents, day,
}
use tru_dev_tasks.Platform.{Platform, World}

-- `status in {PAYMENT_STATUS_SUCCESS, PAYMENT_STATUS_FAILED}`
abbrev pub is_terminal : PaymentStatus → Bool
is_terminal success = true
is_terminal failed = true
is_terminal _ = false

abbrev pub is_pending : PaymentStatus → Bool
is_pending pending = true
is_pending _ = false

-- The doubles 0.85 and 0.95, in units of 2 ^ -53.
abbrev pub success_below : ℕ
success_below = 7656119366529843

abbrev pub soft_below : ℕ
soft_below = 8556839292003942

-- `int(HTTPStatus.CREATED)`
abbrev pub created : ℕ
created = 201

-- The row that `create_payment` adds, as the refresh after its flush reads it.
unfoldable pub new_payment : CreatePaymentRequest → String → ℕ → ℕ → ℕ → Payment
new_payment request idempotency_key now id created_at =
    let entry : StateHistoryEntry = record {
      state = pending;
      timestamp = now;
      reason = some "payment_created";
    } in
    record {
      id = id;
      customer_id = request.customer_id;
      amount = numeric_cents request.amount;
      currency = request.currency;
      status = pending;
      failure_reason = none;
      failure_class = none;
      retry_count = 0;
      idempotency_key = idempotency_key;
      payment_metadata = request.metadata;
      state_history = entry ∷ [];
      confirmed_at = none;
      created_at = created_at;
      updated_at = created_at;
    }

-- The record that answers the key from then on.
unfoldable pub answer_record : Payment → String → ℕ → ℕ → IdempotencyRecord
answer_record payment idempotency_key now id = record {
  id = id;
  key = idempotency_key;
  response_body = some (payment_response payment);
  status_code = created;
  expires_at = now + day;
}

module _ ⦃P : Platform⦄ where
  -- The flush of a changed payment.
  abbrev pub save_payment : Payment → Exec World (Unit {0})
  save_payment p = modify λ w. record w {
    working = record w.working { payments = P.payments.update w.working.payments p };
  }

  -- The flush of an added payment.
  abbrev pub insert_payment : Payment → Exec World (Unit {0})
  insert_payment p = do
    payments ← gets (λ w. P.payments.insert w.working.payments p)
    elim payments [
      | none ↦ raise integrity_error
      | some inserted ↦
          modify (λ w. record w { working = record w.working { payments = inserted } })
    ]

  abbrev pub insert_record : IdempotencyRecord → Exec World (Unit {0})
  insert_record r = do
    records ← gets (λ w. P.idempotency_records.insert w.working.idempotency_records r)
    elim records [
      | none ↦ raise integrity_error
      | some inserted ↦
          modify (λ w. record w { working = record w.working { idempotency_records = inserted } })
    ]

  abbrev pub delete_record : IdempotencyRecord → Exec World (Unit {0})
  delete_record r = modify λ w. record w {
    working = record w.working {
      idempotency_records = P.idempotency_records.remove w.working.idempotency_records r.id;
    };
  }

  -- `_get_payment_by_id`; `get_payment` is the same
  unfoldable pub get_payment : ℕ → Exec World Payment
  get_payment payment_id = do
    found ← gets (λ w. P.payments.get w.working.payments payment_id)
    or_raise found payment_not_found

  -- `_get_idempotency_record`
  unfoldable pub get_idempotency_record : String → Exec World (Option IdempotencyRecord)
  get_idempotency_record key = do
    found ← gets (λ w.
        select (λ r. str_eq r.key key) (P.idempotency_records.rows w.working.idempotency_records))
    lift (scalar_one_or_none found)
