-- ===== src/Schema/Migration.antt =====
-- alembic/versions/0001_initial_schema.py: the operations that `upgrade` and `downgrade` issue, in
-- their order.
use tru_dev_tasks.Prelude.{String, List, [], ◌∷◌}
use tru_dev_tasks.Schema.{
  Column, check_in, check_null_or_in, primary_key, unique, foreign_key, TableSchema, Operation,
  create_table, create_index, drop_index, drop_table, TableName, payments, idempotency_records,
  ledger_entries, refunds, webhook_endpoints, jobs, webhook_events, required, optional, defaulted,
  string, numeric, integer, boolean, jsonb, uuid, timestamp,
}

-- The three columns that end every `create_table`.
abbrev row_columns : List Column
row_columns =
    defaulted "id" uuid "gen_random_uuid()"
    ∷ defaulted "created_at" timestamp "timezone('utc', now())"
    ∷ defaulted "updated_at" timestamp "timezone('utc', now())"
    ∷ []

abbrev payments_table : TableSchema
payments_table = record {
  columns =
      required "customer_id" (string 128)
      ∷ required "amount" (numeric 12 2)
      ∷ required "currency" (string 3)
      ∷ required "status" (string 32)
      ∷ optional "failure_reason" (string 512)
      ∷ optional "failure_class" (string 16)
      ∷ defaulted "retry_count" integer "0"
      ∷ required "idempotency_key" (string 255)
      ∷ optional "metadata" jsonb
      ∷ defaulted "state_history" jsonb "'[]'::jsonb"
      ∷ optional "confirmed_at" timestamp
      ∷ row_columns;
  constraints =
      check_in "ck_payments_status" "status" ("pending" ∷ "processing" ∷ "success" ∷ "failed" ∷ [])
      ∷ check_null_or_in "ck_payments_failure_class" "failure_class" ("soft" ∷ "hard" ∷ [])
      ∷ primary_key ("id" ∷ [])
      ∷ unique "uq_payments_idempotency_key" ("idempotency_key" ∷ [])
      ∷ unique "uq_payments_customer_idempotency_key" ("customer_id" ∷ "idempotency_key" ∷ [])
      ∷ [];
}

abbrev idempotency_records_table : TableSchema
idempotency_records_table = record {
  columns =
      required "key" (string 255)
      ∷ required "response_body" jsonb
      ∷ required "status_code" integer
      ∷ required "expires_at" timestamp
      ∷ row_columns;
  constraints = primary_key ("id" ∷ []) ∷ unique "uq_idempotency_records_key" ("key" ∷ []) ∷ [];
}

abbrev ledger_entries_table : TableSchema
ledger_entries_table = record {
  columns =
      required "payment_id" uuid
      ∷ required "entry_type" (string 64)
      ∷ required "amount" (numeric 12 2)
      ∷ required "currency" (string 3)
      ∷ optional "metadata" jsonb
      ∷ row_columns;
  constraints = foreign_key "payment_id" "payments" "id" ∷ primary_key ("id" ∷ []) ∷ [];
}

abbrev refunds_table : TableSchema
refunds_table = record {
  columns =
      required "payment_id" uuid
      ∷ required "customer_id" (string 128)
      ∷ required "amount" (numeric 12 2)
      ∷ required "currency" (string 3)
      ∷ required "status" (string 32)
      ∷ optional "reason" (string 512)
      ∷ required "idempotency_key" (string 255)
      ∷ row_columns;
  constraints =
      check_in "ck_refunds_status" "status" ("pending" ∷ "processing" ∷ "completed" ∷ "failed" ∷ [])
      ∷ foreign_key "payment_id" "payments" "id"
      ∷ primary_key ("id" ∷ [])
      ∷ unique "uq_refunds_idempotency_key" ("idempotency_key" ∷ [])
      ∷ [];
}

abbrev webhook_endpoints_table : TableSchema
webhook_endpoints_table = record {
  columns =
      required "client_id" (string 128)
      ∷ required "url" (string 2048)
      ∷ required "signing_secret" (string 255)
      ∷ defaulted "is_active" boolean "true"
      ∷ row_columns;
  constraints = primary_key ("id" ∷ []) ∷ [];
}

abbrev jobs_table : TableSchema
jobs_table = record {
  columns =
      required "job_type" (string 128)
      ∷ required "payload" jsonb
      ∷ required "status" (string 32)
      ∷ defaulted "attempt_count" integer "0"
      ∷ defaulted "max_attempts" integer "3"
      ∷ defaulted "run_at" timestamp "timezone('utc', now())"
      ∷ optional "last_error" (string 1024)
      ∷ row_columns;
  constraints =
      check_in "ck_jobs_status" "status"
        ("queued" ∷ "running" ∷ "completed" ∷ "failed" ∷ "dead" ∷ [])
      ∷ primary_key ("id" ∷ [])
      ∷ [];
}

abbrev webhook_events_table : TableSchema
webhook_events_table = record {
  columns =
      required "endpoint_id" uuid
      ∷ required "event_type" (string 128)
      ∷ required "payload" jsonb
      ∷ required "status" (string 32)
      ∷ defaulted "attempt_count" integer "0"
      ∷ optional "last_attempt_at" timestamp
      ∷ optional "next_retry_at" timestamp
      ∷ row_columns;
  constraints =
      check_in "ck_webhook_events_status" "status" ("queued" ∷ "delivered" ∷ "failed" ∷ "dead" ∷ [])
      ∷ foreign_key "endpoint_id" "webhook_endpoints" "id"
      ∷ primary_key ("id" ∷ [])
      ∷ [];
}

-- The table that `upgrade` creates for a model.
abbrev pub migrated : TableName → TableSchema
migrated payments = payments_table
migrated idempotency_records = idempotency_records_table
migrated ledger_entries = ledger_entries_table
migrated refunds = refunds_table
migrated webhook_endpoints = webhook_endpoints_table
migrated jobs = jobs_table
migrated webhook_events = webhook_events_table

-- `op.create_index(name, table, columns, unique=False)`
abbrev index : String → String → String → Operation
index name table column = create_index name (record { table = table; columns = column ∷ [] })

abbrev pub upgrade : List Operation
upgrade =
    create_table "payments" payments_table
    ∷ index "ix_payments_customer_id" "payments" "customer_id"
    ∷ index "ix_payments_status" "payments" "status"
    ∷ create_table "idempotency_records" idempotency_records_table
    ∷ index "ix_idempotency_records_key" "idempotency_records" "key"
    ∷ create_table "ledger_entries" ledger_entries_table
    ∷ index "ix_ledger_entries_entry_type" "ledger_entries" "entry_type"
    ∷ index "ix_ledger_entries_payment_id" "ledger_entries" "payment_id"
    ∷ create_table "refunds" refunds_table
    ∷ index "ix_refunds_customer_id" "refunds" "customer_id"
    ∷ index "ix_refunds_payment_id" "refunds" "payment_id"
    ∷ create_table "webhook_endpoints" webhook_endpoints_table
    ∷ index "ix_webhook_endpoints_client_id" "webhook_endpoints" "client_id"
    ∷ create_table "jobs" jobs_table
    ∷ index "ix_jobs_job_type" "jobs" "job_type"
    ∷ index "ix_jobs_run_at" "jobs" "run_at"
    ∷ index "ix_jobs_status" "jobs" "status"
    ∷ create_table "webhook_events" webhook_events_table
    ∷ index "ix_webhook_events_endpoint_id" "webhook_events" "endpoint_id"
    ∷ index "ix_webhook_events_status" "webhook_events" "status"
    ∷ []

abbrev pub downgrade : List Operation
downgrade =
    drop_index "ix_webhook_events_status" "webhook_events"
    ∷ drop_index "ix_webhook_events_endpoint_id" "webhook_events"
    ∷ drop_table "webhook_events"
    ∷ drop_index "ix_jobs_status" "jobs"
    ∷ drop_index "ix_jobs_run_at" "jobs"
    ∷ drop_index "ix_jobs_job_type" "jobs"
    ∷ drop_table "jobs"
    ∷ drop_index "ix_webhook_endpoints_client_id" "webhook_endpoints"
    ∷ drop_table "webhook_endpoints"
    ∷ drop_index "ix_refunds_payment_id" "refunds"
    ∷ drop_index "ix_refunds_customer_id" "refunds"
    ∷ drop_table "refunds"
    ∷ drop_index "ix_ledger_entries_payment_id" "ledger_entries"
    ∷ drop_index "ix_ledger_entries_entry_type" "ledger_entries"
    ∷ drop_table "ledger_entries"
    ∷ drop_index "ix_idempotency_records_key" "idempotency_records"
    ∷ drop_table "idempotency_records"
    ∷ drop_index "ix_payments_status" "payments"
    ∷ drop_index "ix_payments_customer_id" "payments"
    ∷ drop_table "payments"
    ∷ []
