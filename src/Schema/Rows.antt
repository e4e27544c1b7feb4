-- ===== src/Schema/Rows.antt =====
-- The rows that the models write, as the columns of their tables: the mapped attributes of
-- pulsepay/payments/models.py, refunds/models.py, webhooks/models.py, jobs/models.py and
-- ledger/models.py, with the texts of their statuses.
use tru_dev_tasks.Prelude.{ℕ, String, Bool, Option, none, some, [], ◌∷◌}
use tru_dev_tasks.Prelude.Dict.{Dict, get}
use tru_dev_tasks.Payments.Models.{Payment, PaymentStatus, FailureClass, IdempotencyRecord}
use tru_dev_tasks.Refunds.Models.{Refund, RefundStatus}
use tru_dev_tasks.Webhooks.Models.{WebhookEndpoint, WebhookEvent, WebhookStatus}
use tru_dev_tasks.Jobs.Models.{Job, JobStatus}
use tru_dev_tasks.Ledger.{LedgerEntry}
use tru_dev_tasks.Schema.{
  TableName, payments, idempotency_records, ledger_entries, refunds, webhook_endpoints, jobs,
  webhook_events,
}

-- The constants of the models.
abbrev pub payment_status : PaymentStatus → String
payment_status PaymentStatus.pending = "pending"
payment_status PaymentStatus.processing = "processing"
payment_status PaymentStatus.success = "success"
payment_status PaymentStatus.failed = "failed"

abbrev pub failure_class : FailureClass → String
failure_class FailureClass.soft = "soft"
failure_class FailureClass.hard = "hard"

abbrev pub refund_status : RefundStatus → String
refund_status RefundStatus.pending = "pending"
refund_status RefundStatus.processing = "processing"
refund_status RefundStatus.completed = "completed"
refund_status RefundStatus.failed = "failed"

abbrev pub job_status : JobStatus → String
job_status JobStatus.queued = "queued"
job_status JobStatus.running = "running"
job_status JobStatus.completed = "completed"
job_status JobStatus.failed = "failed"
job_status JobStatus.dead = "dead"

abbrev pub webhook_status : WebhookStatus → String
webhook_status WebhookStatus.queued = "queued"
webhook_status WebhookStatus.delivered = "delivered"
webhook_status WebhookStatus.failed = "failed"
webhook_status WebhookStatus.dead = "dead"

-- What a row holds in a column. A document and the text of an exception are not looked into. A
-- column that the record of the row does not have is left to the database: `omitted`.
pub data Cell : Type 0 where
  null omitted document message : Cell
  text : String → Cell
  number key time : ℕ → Cell
  flag : Bool → Cell

abbrev pub optionally {ℓ} : {A : Type ℓ} → (A → Cell) → Option A → Cell
optionally f none = null
optionally f (some a) = f a

abbrev pub Row : TableName → Type 0
Row payments = Payment
Row idempotency_records = IdempotencyRecord
Row ledger_entries = LedgerEntry
Row refunds = Refund
Row webhook_endpoints = WebhookEndpoint
Row jobs = Job
Row webhook_events = WebhookEvent

-- The columns of a row; where the database fills one that the record has, its value is that.
abbrev pub cells : (T : TableName) → Row T → Dict Cell
cells payments p =
    ("id", key p.id)
    ∷ ("customer_id", text p.customer_id)
    ∷ ("amount", number p.amount)
    ∷ ("currency", text p.currency)
    ∷ ("status", text (payment_status p.status))
    ∷ ("failure_reason", optionally text p.failure_reason)
    ∷ ("failure_class", optionally (λ c. text (failure_class c)) p.failure_class)
    ∷ ("retry_count", number p.retry_count)
    ∷ ("idempotency_key", text p.idempotency_key)
    ∷ ("metadata", optionally (λ _. document) p.payment_metadata)
    ∷ ("state_history", document)
    ∷ ("confirmed_at", optionally time p.confirmed_at)
    ∷ ("created_at", time p.created_at)
    ∷ ("updated_at", time p.updated_at)
    ∷ []
cells idempotency_records r =
    ("id", key r.id)
    ∷ ("key", text r.key)
    ∷ ("response_body", document)
    ∷ ("status_code", number r.status_code)
    ∷ ("expires_at", time r.expires_at)
    ∷ []
cells ledger_entries e =
    ("id", key e.id)
    ∷ ("payment_id", key e.payment_id)
    ∷ ("entry_type", text e.entry_type)
    ∷ ("amount", number e.amount)
    ∷ ("currency", text e.currency)
    ∷ ("metadata", optionally (λ _. document) e.entry_metadata)
    ∷ []
cells refunds r =
    ("id", key r.id)
    ∷ ("payment_id", key r.payment_id)
    ∷ ("customer_id", text r.customer_id)
    ∷ ("amount", number r.amount)
    ∷ ("currency", text r.currency)
    ∷ ("status", text (refund_status r.status))
    ∷ ("reason", optionally text r.reason)
    ∷ ("idempotency_key", text r.idempotency_key)
    ∷ ("created_at", time r.created_at)
    ∷ []
cells webhook_endpoints e =
    ("id", key e.id)
    ∷ ("client_id", text e.client_id)
    ∷ ("url", text e.url)
    ∷ ("signing_secret", text e.signing_secret)
    ∷ ("is_active", flag e.is_active)
    ∷ []
cells jobs j =
    ("id", key j.id)
    ∷ ("job_type", text j.job_type)
    ∷ ("payload", document)
    ∷ ("status", text (job_status j.status))
    ∷ ("attempt_count", number j.attempt_count)
    ∷ ("max_attempts", number j.max_attempts)
    ∷ ("run_at", time j.run_at)
    ∷ ("last_error", optionally (λ _. message) j.last_error)
    ∷ []
cells webhook_events e =
    ("id", key e.id)
    ∷ ("endpoint_id", key e.endpoint_id)
    ∷ ("event_type", text e.event_type)
    ∷ ("payload", document)
    ∷ ("status", text (webhook_status e.status))
    ∷ ("attempt_count", number e.attempt_count)
    ∷ ("last_attempt_at", optionally time e.last_attempt_at)
    ∷ ("next_retry_at", optionally time e.next_retry_at)
    ∷ []

abbrev or_omitted : Option Cell → Cell
or_omitted none = omitted
or_omitted (some c) = c

abbrev pub cell : (T : TableName) → Row T → String → Cell
cell T r name = or_omitted (get name (cells T r))
