-- ===== src/Payments/Models.antt =====
-- pulsepay/payments/models.py, and the schemas of pulsepay/payments/schemas.py that the service
-- stores. A stored amount is in whole cents, times are microseconds and ids stand for UUIDs. JSON
-- that is only copied, such as the metadata, is its text.
use tru_dev_tasks.Prelude.Round.{half_up}
use tru_dev_tasks.Prelude.{ℕ, ◌*◌, ◌^◌, String, Bool, Option, List, ◌==◌, str_eq, ◌||◌, ◌&&◌}

pub data PaymentStatus : Type 0 where
  pending processing success failed : PaymentStatus

pub data FailureClass : Type 0 where
  soft hard : FailureClass

-- An entry of `state_history`.
pub record StateHistoryEntry : Type 0 where
  pub state : PaymentStatus
  pub timestamp : ℕ
  pub reason : Option String

pub record Payment : Type 0 where
  pub id : ℕ
  pub customer_id : String
  pub amount : ℕ
  pub currency : String
  pub status : PaymentStatus
  pub failure_reason : Option String
  pub failure_class : Option FailureClass
  pub retry_count : ℕ
  pub idempotency_key : String
  pub payment_metadata : Option String
  pub state_history : List StateHistoryEntry
  pub confirmed_at : Option ℕ
  pub created_at : ℕ
  pub updated_at : ℕ

-- `uq_payments_idempotency_key` and the primary key; the constraint on `customer_id` and
-- `idempotency_key` together follows from the first.
abbrev pub payment_clash : Payment → Payment → Bool
payment_clash p q =
    p.id == q.id
    || str_eq p.idempotency_key q.idempotency_key
    || (str_eq p.customer_id q.customer_id && str_eq p.idempotency_key q.idempotency_key)

pub record PaymentResponse : Type 0 where
  pub id : ℕ
  pub customer_id : String
  pub amount : ℕ
  pub currency : String
  pub status : PaymentStatus
  pub failure_reason : Option String
  pub failure_class : Option FailureClass
  pub retry_count : ℕ
  pub idempotency_key : String
  pub metadata : Option String
  pub state_history : List StateHistoryEntry
  pub confirmed_at : Option ℕ
  pub created_at : ℕ
  pub updated_at : ℕ

-- `PaymentResponse.model_validate(payment)`
unfoldable pub payment_response : Payment → PaymentResponse
payment_response p = record {
  id = p.id;
  customer_id = p.customer_id;
  amount = p.amount;
  currency = p.currency;
  status = p.status;
  failure_reason = p.failure_reason;
  failure_class = p.failure_class;
  retry_count = p.retry_count;
  idempotency_key = p.idempotency_key;
  metadata = p.payment_metadata;
  state_history = p.state_history;
  confirmed_at = p.confirmed_at;
  created_at = p.created_at;
  updated_at = p.updated_at;
}

-- `response_body` holds the response under "payment", or has no such key.
pub record IdempotencyRecord : Type 0 where
  pub id : ℕ
  pub key : String
  pub response_body : Option PaymentResponse
  pub status_code : ℕ
  pub expires_at : ℕ

-- `uq_idempotency_records_key` and the primary key.
abbrev pub idempotency_clash : IdempotencyRecord → IdempotencyRecord → Bool
idempotency_clash r s = r.id == s.id || str_eq r.key s.key

-- A `Decimal` that is not negative, with no positive exponent: coefficient / 10 ^ places.
pub record Decimal : Type 0 where
  pub coefficient : ℕ
  pub places : ℕ

-- What a column of the type `Numeric(12, 2)` holds of it, in cents; the database rounds to the
-- nearest. Amounts of ten thousand million and more, which it refuses, are left out.
unfoldable pub numeric_cents : Decimal → ℕ
numeric_cents d = half_up (d.coefficient * 100) (10 ^ d.places)

pub record CreatePaymentRequest : Type 0 where
  pub customer_id : String
  pub amount : Decimal
  pub currency : String
  pub metadata : Option String

-- `timedelta(hours=24)`
abbrev pub day : ℕ
day = 24 * 60 * 60 * 1000000
