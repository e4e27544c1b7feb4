-- ===== src/Example/Server.antt =====
-- A platform over list tables: a clock that advances by a second at each reading, UUIDs that do
-- not repeat, a cap of three attempts, and draws of `random()` that the test chooses.
use mathlib.Core.List.Permᴰ
use tru_dev_tasks.Prelude.{ℕ, ◌*◌, ◌≡◌, ◌≢◌, false, true, [], arith}
use tru_dev_tasks.Example.ListTable.{list_table}
use tru_dev_tasks.Ledger.{LedgerEntry, entry_clash}
use tru_dev_tasks.Payments.Models.{Payment, payment_clash, IdempotencyRecord, idempotency_clash}
use tru_dev_tasks.Refunds.Models.{Refund, refund_clash}
use tru_dev_tasks.Webhooks.Models.{WebhookEndpoint, endpoint_clash, WebhookEvent, event_clash}
use tru_dev_tasks.Jobs.Models.{Job, job_clash}
use tru_dev_tasks.Platform.{Platform, World, Db}

pub payments_apart : (p q : Payment) → payment_clash p q ≡ false → p.id ≢ q.id
payments_apart p q e = ground arith

pub records_apart : (r s : IdempotencyRecord) → idempotency_clash r s ≡ false → r.id ≢ s.id
records_apart r s e = ground arith

pub refunds_apart : (r s : Refund) → refund_clash r s ≡ false → r.id ≢ s.id
refunds_apart r s e = ground arith

pub endpoints_apart : (e f : WebhookEndpoint) → endpoint_clash e f ≡ false → e.id ≢ f.id
endpoints_apart e f h = ground arith

pub events_apart : (e f : WebhookEvent) → event_clash e f ≡ false → e.id ≢ f.id
events_apart e f h = ground arith

pub entries_apart : (e f : LedgerEntry) → entry_clash e f ≡ false → e.id ≢ f.id
entries_apart e f h = ground arith

pub jobs_apart : (j k : Job) → job_clash j k ≡ false → j.id ≢ k.id
jobs_apart j k h = ground arith

abbrev pub server : (ℕ → ℕ) → Platform
server draws = record {
  payments = list_table (λ p. p.id) payment_clash payments_apart;
  idempotency_records = list_table (λ r. r.id) idempotency_clash records_apart;
  refunds = list_table (λ r. r.id) refund_clash refunds_apart;
  webhook_endpoints = list_table (λ e. e.id) endpoint_clash endpoints_apart;
  webhook_events = list_table (λ e. e.id) event_clash events_apart;
  ledger_entries = list_table (λ e. e.id) entry_clash entries_apart;
  jobs = list_table (λ j. j.id) job_clash jobs_apart;
  time = λ n. 1000000 * n;
  random = draws;
  uuid = λ n. n;
  post = λ n url content signature timestamp. true;
  hmac_sha256 = λ secret text. secret;
  json_dumps = λ payload. "{}";
  found_payments = λ n offset limit rows. rows;
  found_payments-perm = λ n offset limit rows. Permᴰ.refl rows;
  found_jobs = λ n offset limit rows. rows;
  found_jobs-perm = λ n offset limit rows. Permᴰ.refl rows;
  max_payment_retry_attempts = 3;
  max_attempts_pos = omega arith;
}

module _ (draws : ℕ → ℕ) where
  abbrev pub empty_db : Db ⦃P = server draws⦄
  empty_db = record {
    payments = record { items = []; distinct = tt };
    idempotency_records = record { items = []; distinct = tt };
    refunds = record { items = []; distinct = tt };
    webhook_endpoints = record { items = []; distinct = tt };
    webhook_events = record { items = []; distinct = tt };
    ledger_entries = record { items = []; distinct = tt };
  }

  -- A process that has just started on an empty database.
  abbrev pub fresh : World ⦃P = server draws⦄
  fresh = record {
    committed = empty_db;
    working = empty_db;
    jobs = record { items = []; distinct = tt };
    dispatch_queue = [];
    log = [];
    reads = 0;
  }
