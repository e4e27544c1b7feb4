-- ===== src/Schema/Checks.antt =====
-- What the tables of the migration ask of one row: a value of its type in every column that wants
-- one, and the check constraints. The lengths of texts and the ranges of numbers are left aside.
use tru_dev_tasks.Prelude.{
  ◌≡◌, refl, String, Bool, true, false, ◌&&◌, ◌||◌, Option, none, some, List, [], ◌∷◌, all,
}
use tru_dev_tasks.Prelude.Dict.{Dict}
use tru_dev_tasks.Payments.Models.{PaymentStatus, FailureClass}
use tru_dev_tasks.Refunds.Models.{RefundStatus}
use tru_dev_tasks.Webhooks.Models.{WebhookStatus}
use tru_dev_tasks.Jobs.Models.{JobStatus}
use tru_dev_tasks.Schema.{
  ColumnType, string, numeric, integer, boolean, jsonb, uuid, timestamp, Column, Constraint,
  check_in, check_null_or_in, TableSchema, TableName, payments, idempotency_records, ledger_entries,
  refunds, webhook_endpoints, jobs, webhook_events, optional,
}
use tru_dev_tasks.Schema.Ddl.{member, column_names}
use tru_dev_tasks.Schema.Migration.{migrated}
use tru_dev_tasks.Schema.Rows.{
  Cell, null, omitted, document, message, text, number, key, time, flag, Row, cells, cell,
  optionally, payment_status, failure_class, refund_status, job_status, webhook_status,
}

-- A value of the type.
abbrev has_type : ColumnType → Cell → Bool
has_type (string n) (text t) = true
has_type (string n) message = true
has_type (numeric p s) (number n) = true
has_type integer (number n) = true
has_type boolean (flag b) = true
has_type jsonb document = true
has_type uuid (key i) = true
has_type timestamp (time t) = true
has_type _ _ = false

abbrev is_some {ℓ} : {A : Type ℓ} → Option A → Bool
is_some none = false
is_some (some a) = true

-- What a column takes: NULL only if it is nullable, and nothing only if it then has a value.
abbrev takes : Column → Cell → Bool
takes column null = column.nullable
takes column omitted = column.nullable || is_some column.server_default
takes column c = has_type column.type c

abbrev is_one_of : List String → Cell → Bool
is_one_of values (text t) = member t values
is_one_of values _ = false

abbrev is_null : Cell → Bool
is_null null = true
is_null _ = false

-- A CHECK constraint.
abbrev checks : (String → Cell) → Constraint → Bool
checks r (check_in name column values) = is_one_of values (r column)
checks r (check_null_or_in name column values) = is_null (r column) || is_one_of values (r column)
checks r _ = true

-- An INSERT of these cells names only columns of the table, gives each column what it takes and
-- passes the checks.
abbrev pub accepts : TableSchema → Dict Cell → (String → Cell) → Bool
accepts schema named r =
    all (λ e. member e.0 (column_names schema)) named
    && all (λ (c : Column). takes c (r c.name)) schema.columns
    && all (checks r) schema.constraints

takes-optionally {ℓ} :
    {A : Type ℓ} (name : String) (type : ColumnType) (f : A → Cell) (o : Option A)
    → ((a : A) → takes (optional name type) (f a) ≡ true)
    → takes (optional name type) (optionally f o) ≡ true
takes-optionally name type f none h = refl
takes-optionally name type f (some a) h = h a

payment_status-in :
    (s : PaymentStatus)
    → member (payment_status s) ("pending" ∷ "processing" ∷ "success" ∷ "failed" ∷ []) ≡ true
payment_status-in PaymentStatus.pending = refl
payment_status-in PaymentStatus.processing = refl
payment_status-in PaymentStatus.success = refl
payment_status-in PaymentStatus.failed = refl

failure_class-in :
    (o : Option FailureClass)
    → checks
        (λ _. optionally (λ c. text (failure_class c)) o)
        (check_null_or_in "" "" ("soft" ∷ "hard" ∷ []))
      ≡ true
failure_class-in none = refl
failure_class-in (some FailureClass.soft) = refl
failure_class-in (some FailureClass.hard) = refl

refund_status-in :
    (s : RefundStatus)
    → member (refund_status s) ("pending" ∷ "processing" ∷ "completed" ∷ "failed" ∷ []) ≡ true
refund_status-in RefundStatus.pending = refl
refund_status-in RefundStatus.processing = refl
refund_status-in RefundStatus.completed = refl
refund_status-in RefundStatus.failed = refl

job_status-in :
    (s : JobStatus)
    → member (job_status s) ("queued" ∷ "running" ∷ "completed" ∷ "failed" ∷ "dead" ∷ []) ≡ true
job_status-in JobStatus.queued = refl
job_status-in JobStatus.running = refl
job_status-in JobStatus.completed = refl
job_status-in JobStatus.failed = refl
job_status-in JobStatus.dead = refl

webhook_status-in :
    (s : WebhookStatus)
    → member (webhook_status s) ("queued" ∷ "delivered" ∷ "failed" ∷ "dead" ∷ []) ≡ true
webhook_status-in WebhookStatus.queued = refl
webhook_status-in WebhookStatus.delivered = refl
webhook_status-in WebhookStatus.failed = refl
webhook_status-in WebhookStatus.dead = refl

-- The lengths of texts and the ranges of numbers aside, every row that the models can write is
-- accepted by the table that the migration makes: its columns are there and take what it holds,
-- and its status and its failure class pass the checks.
pub row-IsAccepted :
    (T : TableName) (r : Row T) → accepts (migrated T) (cells T r) (cell T r) ≡ true
row-IsAccepted payments r =
    rw
      (
        takes-optionally "failure_reason" (string 512) text r.failure_reason (λ _. refl),
        takes-optionally "failure_class" (string 16) (λ c. text (failure_class c)) r.failure_class
            (λ _. refl),
        takes-optionally "metadata" jsonb (λ _. document) r.payment_metadata (λ _. refl),
        takes-optionally "confirmed_at" timestamp time r.confirmed_at (λ _. refl),
        payment_status-in r.status,
        failure_class-in r.failure_class,
      )
      refl
row-IsAccepted idempotency_records r = refl
row-IsAccepted ledger_entries r =
    rw (takes-optionally "metadata" jsonb (λ _. document) r.entry_metadata (λ _. refl)) refl
row-IsAccepted refunds r =
    rw (takes-optionally "reason" (string 512) text r.reason (λ _. refl), refund_status-in r.status)
      refl
row-IsAccepted webhook_endpoints r = refl
row-IsAccepted jobs r =
    rw
      (
        takes-optionally "last_error" (string 1024) (λ _. message) r.last_error (λ _. refl),
        job_status-in r.status,
      )
      refl
row-IsAccepted webhook_events r =
    rw
      (
        takes-optionally "last_attempt_at" timestamp time r.last_attempt_at (λ _. refl),
        takes-optionally "next_retry_at" timestamp time r.next_retry_at (λ _. refl),
        webhook_status-in r.status,
      )
      refl
