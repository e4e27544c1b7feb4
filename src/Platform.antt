-- ===== src/Platform.antt =====
-- What the program runs on, as one interface: the tables of its database, the clock, `random()`,
-- the UUIDs of new rows, its settings, and the state of a running process.
use mathlib.Core.List.{Permᴰ}
use tru_dev_tasks.Prelude.{ℕ, suc, ◌≤◌, String, Bool, List, [], ◌++◌, ◌∷◌}
use tru_dev_tasks.Exec.{Exec, ok}
use tru_dev_tasks.Database.Table.{Table}
use tru_dev_tasks.Ledger.{LedgerEntry, entry_clash}
use tru_dev_tasks.Payments.Models.{Payment, payment_clash, IdempotencyRecord, idempotency_clash}
use tru_dev_tasks.Refunds.Models.{Refund, refund_clash}
use tru_dev_tasks.Webhooks.Models.{WebhookEndpoint, endpoint_clash, WebhookEvent, event_clash}
use tru_dev_tasks.Jobs.Models.{Job, job_clash, Payload}

-- The clock, `random()` and the UUIDs answer the n-th reading by their value at n. A draw k of
-- `random()` is the double k / 2 ^ 53.
pub record Platform : Type 1 where
  pub payments : Table Payment (λ p. p.id) payment_clash
  pub idempotency_records : Table IdempotencyRecord (λ r. r.id) idempotency_clash
  pub refunds : Table Refund (λ r. r.id) refund_clash
  pub webhook_endpoints : Table WebhookEndpoint (λ e. e.id) endpoint_clash
  pub webhook_events : Table WebhookEvent (λ e. e.id) event_clash
  pub ledger_entries : Table LedgerEntry (λ e. e.id) entry_clash
  pub jobs : Table Job (λ j. j.id) job_clash
  pub time : ℕ → ℕ
  pub random : ℕ → ℕ
  pub uuid : ℕ → ℕ
  -- the n-th `client.post` of a URL, a content, a signature and a timestamp in seconds: whether
  -- it ends in a success and not in another status or an error of the connection
  pub post : ℕ → String → String → String → ℕ → Bool
  -- `hmac.new(secret, text, sha256).hexdigest()`, and `json.dumps` as the dispatcher calls it
  pub hmac_sha256 : String → String → String
  pub json_dumps : Payload → String
  -- the order in which a query of a listing finds the rows, from the reading, offset and limit it is
  -- made at: the database documents none beyond that of `ORDER BY`
  pub found_payments : ℕ → ℕ → ℕ → List Payment → List Payment
  pub found_payments-perm :
      (n offset limit : ℕ) (rows : List Payment) → Permᴰ (found_payments n offset limit rows) rows
  pub found_jobs : ℕ → ℕ → ℕ → List Job → List Job
  pub found_jobs-perm :
      (n offset limit : ℕ) (rows : List Job) → Permᴰ (found_jobs n offset limit rows) rows
  pub max_payment_retry_attempts : ℕ
  pub max_attempts_pos : 1 ≤ max_payment_retry_attempts

-- What the services write by `logger.info` beside their bookkeeping lines.
pub data LogRecord : Type 0 where
  -- "ledger_entry_written" of a payment: its id, amount and currency
  payment_ledger : ℕ → ℕ → String → LogRecord
  -- "ledger_entry_written" of a refund: event type, refund, payment, amount and currency
  refund_ledger : String → ℕ → ℕ → ℕ → String → LogRecord
  -- "webhook_emitted": event type and payment
  webhook_emitted : String → ℕ → LogRecord

module _ ⦃P : Platform⦄ where
  -- The tables that the sessions of requests and handlers write.
  pub record Db : Type 0 where
    pub payments : P.payments.State
    pub idempotency_records : P.idempotency_records.State
    pub refunds : P.refunds.State
    pub webhook_endpoints : P.webhook_endpoints.State
    pub webhook_events : P.webhook_events.State
    pub ledger_entries : P.ledger_entries.State

  -- `working` is what the open session sees, `committed` what any other session sees. The jobs
  -- are written by sessions of their own, which commit at once.
  pub record World : Type 0 where
    pub committed : Db
    pub working : Db
    pub jobs : P.jobs.State
    pub dispatch_queue : List ℕ
    pub log : List LogRecord
    pub reads : ℕ

  -- `datetime.now(timezone.utc)`
  abbrev pub utcnow : Exec World ℕ
  utcnow w = (ok (P.time w.reads), record w { reads = suc w.reads })

  -- `random.random()`
  abbrev pub random : Exec World ℕ
  random w = (ok (P.random w.reads), record w { reads = suc w.reads })

  -- `gen_random_uuid()` of a new row
  abbrev pub new_uuid : Exec World ℕ
  new_uuid w = (ok (P.uuid w.reads), record w { reads = suc w.reads })

  abbrev pub write_log : LogRecord → Exec World (Unit {0})
  write_log r w = (ok tt, record w { log = w.log ++ r ∷ [] })

  -- `session.commit()`
  abbrev pub commit : Exec World (Unit {0})
  commit w = (ok tt, record w { committed = w.working })

  -- `async with SessionLocal() as session: m`: what `m` did not commit is rolled back.
  abbrev pub with_session {κ} : {A : Type κ} → Exec World A → Exec World A
  with_session m w =
      let (r, w') = m (record w { working = w.committed }) in
      (r, record w' { working = w'.committed })
