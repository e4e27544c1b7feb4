-- ===== src/Schema/Keys.antt =====
-- The keys of the tables that the migration makes, beside the clashes that the interface of each
-- table is given.
use tru_dev_tasks.Prelude.{◌≡◌, arith, String, Bool, false, any, all, ◌==◌, str_eq}
use tru_dev_tasks.Payments.Models.{payment_clash, idempotency_clash}
use tru_dev_tasks.Refunds.Models.{refund_clash}
use tru_dev_tasks.Webhooks.Models.{endpoint_clash, event_clash}
use tru_dev_tasks.Jobs.Models.{job_clash}
use tru_dev_tasks.Ledger.{entry_clash}
use tru_dev_tasks.Schema.{
  Constraint, primary_key, unique, TableSchema, TableName, payments, idempotency_records,
  ledger_entries, refunds, webhook_endpoints, jobs, webhook_events,
}
use tru_dev_tasks.Schema.Migration.{migrated}
use tru_dev_tasks.Schema.Rows.{Cell, text, key, Row, cell}

-- Two cells hold the same value; nulls are distinct. No key has a document.
abbrev same_cell : Cell → Cell → Bool
same_cell (text s) (text t) = str_eq s t
same_cell (key i) (key j) = i == j
same_cell _ _ = false

-- A constraint forbids two rows beside each other.
abbrev forbids : (String → Cell) → (String → Cell) → Constraint → Bool
forbids r s (primary_key columns) = all (λ c. same_cell (r c) (s c)) columns
forbids r s (unique name columns) = all (λ c. same_cell (r c) (s c)) columns
forbids r s _ = false

abbrev pub share_key : TableSchema → (String → Cell) → (String → Cell) → Bool
share_key schema r s = any (forbids r s) schema.constraints

-- The test that the interface of each table is given.
abbrev pub clash : (T : TableName) → Row T → Row T → Bool
clash payments = payment_clash
clash idempotency_records = idempotency_clash
clash ledger_entries = entry_clash
clash refunds = refund_clash
clash webhook_endpoints = endpoint_clash
clash jobs = job_clash
clash webhook_events = event_clash

-- Two rows of a model clash if and only if a primary key or a unique constraint of the table that
-- the migration makes for it forbids them beside each other.
pub share_key-clash :
    (T : TableName) (r s : Row T) → share_key (migrated T) (cell T r) (cell T s) ≡ clash T r s
share_key-clash payments r s = ground arith
share_key-clash idempotency_records r s = ground arith
share_key-clash ledger_entries r s = ground arith
share_key-clash refunds r s = ground arith
share_key-clash webhook_endpoints r s = ground arith
share_key-clash jobs r s = ground arith
share_key-clash webhook_events r s = ground arith
