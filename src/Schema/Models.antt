-- ===== src/Schema/Models.antt =====
-- What the models declare of their tables: pulsepay/payments/models.py, refunds/models.py,
-- webhooks/models.py, jobs/models.py and ledger/models.py, with the mixins of
-- pulsepay/core/database.py. The columns of the mixins are put last. What SQLAlchemy does itself,
-- such as `default=`, `server_onupdate` and relationships, is left out; the primary key that the
-- mixin declares is a constraint, and its column wants a value.
use tru_dev_tasks.Prelude.{String, List, [], ◌∷◌}
use tru_dev_tasks.Schema.{
  Column, check_in, check_null_or_in, primary_key, unique, foreign_key, TableSchema, TableName,
  payments, idempotency_records, ledger_entries, refunds, webhook_endpoints, jobs, webhook_events,
  required, optional, defaulted, string, numeric, integer, boolean, jsonb, uuid, timestamp,
}

-- `__tablename__`
abbrev pub tablename : TableName → String
tablename payments = "payments"
tablename idempotency_records = "idempotency_records"
tablename ledger_entries = "ledger_entries"
tablename refunds = "refunds"
tablename webhook_endpoints = "webhook_endpoints"
tablename jobs = "jobs"
tablename webhook_events = "webhook_events"

-- `UUIDPrimaryKeyMixin` and `TimestampMixin`
abbrev mixin_columns : List Column
mixin_columns =
    defaulted "id" uuid "gen_random_uuid()"
    ∷ defaulted "created_at" timestamp "timezone('utc', now())"
    ∷ defaulted "updated_at" timestamp "timezone('utc', now())"
    ∷ []

-- `Payment`
abbrev payment_schema : TableSchema
payment_schema = record {
  columns =
      required "customer_id" (string 128)
      ∷ required "amount" (numeric 12 2)
      ∷ required "currency" (string 3)
      ∷ required "status" (string 32)
      ∷ optional "failure_reason" (string 512)
      ∷ optional "failure_class" (string 16)
      ∷ defaulted "retry_count" integer "0"
      ∷ required "idempotency_key" (string 255)
      ∷ optional "metadata" jsonb
      ∷ defaulted "state_history" jsonb "'[]'::jsonb"
      ∷ optional "confirmed_at" timestamp
      ∷ mixin_columns;
  constraints =
      unique "uq_payments_idempotency_key" ("idempotency_key" ∷ [])
      ∷ unique "uq_payments_customer_idempotency_key" ("customer_id" ∷ "idempotency_key" ∷ [])
      ∷ check_in "ck_payments_status" "status"
          ("pending" ∷ "processing" ∷ "success" ∷ "failed" ∷ [])
      ∷ check_null_or_in "ck_payments_failure_class" "failure_class" ("soft" ∷ "hard" ∷ [])
      ∷ primary_key ("id" ∷ [])
      ∷ [];
}

-- `IdempotencyRecord`
abbrev idempotency_record_schema : TableSchema
idempotency_record_schema = record {
  columns =
      required "key" (string 255)
      ∷ required "response_body" jsonb
      ∷ required "status_code" integer
      ∷ required "expires_at" timestamp
      ∷ mixin_columns;
  constraints = unique "uq_idempotency_records_key" ("key" ∷ []) ∷ primary_key ("id" ∷ []) ∷ [];
}

-- `LedgerEntry`
abbrev ledger_entry_schema : TableSchema
ledger_entry_schema = record {
  columns =
      required "payment_id" uuid
      ∷ required "entry_type" (string 64)
      ∷ required "amount" (numeric 12 2)
      ∷ required "currency" (string 3)
      ∷ optional "metadata" jsonb
      ∷ mixin_columns;
  constraints = foreign_key "payment_id" "payments" "id" ∷ primary_key ("id" ∷ []) ∷ [];
}

-- `Refund`
abbrev refund_schema : TableSchema
refund_schema = record {
  columns =
      required "payment_id" uuid
      ∷ required "customer_id" (string 128)
      ∷ required "amount" (numeric 12 2)
      ∷ required "currency" (string 3)
      ∷ required "status" (string 32)
      ∷ optional "reason" (string 512)
      ∷ required "idempotency_key" (string 255)
      ∷ mixin_columns;
  constraints =
      unique "uq_refunds_idempotency_key" ("idempotency_key" ∷ [])
      ∷ check_in "ck_refunds_status" "status"
          ("pending" ∷ "processing" ∷ "completed" ∷ "failed" ∷ [])
      ∷ foreign_key "payment_id" "payments" "id"
      ∷ primary_key ("id" ∷ [])
      ∷ [];
}

-- `WebhookEndpoint`
abbrev webhook_endpoint_schema : TableSchema
webhook_endpoint_schema = record {
  columns =
      required "client_id" (string 128)
      ∷ required "url" (string 2048)
      ∷ required "signing_secret" (string 255)
      ∷ defaulted "is_active" boolean "true"
      ∷ mixin_columns;
  constraints = primary_key ("id" ∷ []) ∷ [];
}

-- `Job`
abbrev job_schema : TableSchema
job_schema = record {
  columns =
      required "job_type" (string 128)
      ∷ required "payload" jsonb
      ∷ required "status" (string 32)
      ∷ defaulted "attempt_count" integer "0"
      ∷ defaulted "max_attempts" integer "3"
      ∷ defaulted "run_at" timestamp "timezone('utc', now())"
      ∷ optional "last_error" (string 1024)
      ∷ mixin_columns;
  constraints =
      check_in "ck_jobs_status" "status"
        ("queued" ∷ "running" ∷ "completed" ∷ "failed" ∷ "dead" ∷ [])
      ∷ primary_key ("id" ∷ [])
      ∷ [];
}

-- `WebhookEvent`
abbrev webhook_event_schema : TableSchema
webhook_event_schema = record {
  columns =
      required "endpoint_id" uuid
      ∷ required "event_type" (string 128)
      ∷ required "payload" jsonb
      ∷ required "status" (string 32)
      ∷ defaulted "attempt_count" integer "0"
      ∷ optional "last_attempt_at" timestamp
      ∷ optional "next_retry_at" timestamp
      ∷ mixin_columns;
  constraints =
      check_in "ck_webhook_events_status" "status" ("queued" ∷ "delivered" ∷ "failed" ∷ "dead" ∷ [])
      ∷ foreign_key "endpoint_id" "webhook_endpoints" "id"
      ∷ primary_key ("id" ∷ [])
      ∷ [];
}

abbrev pub declared : TableName → TableSchema
declared payments = payment_schema
declared idempotency_records = idempotency_record_schema
declared ledger_entries = ledger_entry_schema
declared refunds = refund_schema
declared webhook_endpoints = webhook_endpoint_schema
declared jobs = job_schema
declared webhook_events = webhook_event_schema

-- The `Index` entries of `__table_args__`: a name and a column each.
abbrev pub declared_indexes : TableName → List (String × String)
declared_indexes payments =
    ("ix_payments_customer_id", "customer_id") ∷ ("ix_payments_status", "status") ∷ []
declared_indexes idempotency_records = ("ix_idempotency_records_key", "key") ∷ []
declared_indexes ledger_entries =
    ("ix_ledger_entries_payment_id", "payment_id")
    ∷ ("ix_ledger_entries_entry_type", "entry_type")
    ∷ []
declared_indexes refunds =
    ("ix_refunds_payment_id", "payment_id") ∷ ("ix_refunds_customer_id", "customer_id") ∷ []
declared_indexes webhook_endpoints = ("ix_webhook_endpoints_client_id", "client_id") ∷ []
declared_indexes jobs =
    ("ix_jobs_job_type", "job_type")
    ∷ ("ix_jobs_status", "status")
    ∷ ("ix_jobs_run_at", "run_at")
    ∷ []
declared_indexes webhook_events =
    ("ix_webhook_events_status", "status") ∷ ("ix_webhook_events_endpoint_id", "endpoint_id") ∷ []
