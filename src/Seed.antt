-- ===== src/Seed.antt =====
-- pulsepay/seed.py: `seed_data`. The dictionary of API keys is left out: nothing reads it. A row is
-- inserted where the source adds it: until the source flushes, none of its queries would find the
-- row.
pub mod Payments
pub mod Rows
pub mod Soundness
pub mod Repeated
use tru_dev_tasks.Prelude.{
  ℕ, ◌+◌, ◌-◌, ◌/◌, String, Bool, true, false, ◌&&◌, Option, none, some, List, [], ◌∷◌, ◌==◌,
  str_eq, ltb, length, select, if◌then◌else◌,
}
use tru_dev_tasks.Core.Exceptions.{integrity_error}
use tru_dev_tasks.Database.Listing.{take, drop}
use tru_dev_tasks.Database.Queries.{scalar_one_or_none}
use tru_dev_tasks.Exec.{Exec, pure, raise, gets, modify, lift, ◌>>=◌, ◌>>◌}
use tru_dev_tasks.Ledger.{LedgerEntry}
use tru_dev_tasks.Payments.Models.{Payment, PaymentStatus, success, failed}
use tru_dev_tasks.Platform.{Platform, World, utcnow, new_uuid, commit}
use tru_dev_tasks.Refunds.Models.{Refund, RefundStatus}
use tru_dev_tasks.Refunds.Service.{get_refund_by_idempotency_key, insert_refund, is_success}
use tru_dev_tasks.Seed.Payments.{client_alpha, client_beta, client_gamma, seed_payments}
use tru_dev_tasks.Webhooks.Models.{WebhookEndpoint}
use tru_dev_tasks.Webhooks.Service.{insert_endpoint}

-- `_half_amount` in cents: half a cent is rounded up.
abbrev pub half_amount : ℕ → ℕ
half_amount amount = (amount + 1) / 2

-- A client with its endpoint's URL and the secrets of the slots 1 and 2.
pub record Client : Type 0 where
  pub client_id : String
  pub target_url : String
  pub secrets : List String

abbrev pub clients : List Client
clients =
    record {
      client_id = client_alpha;
      target_url = "https://webhook.site/test-client_alpha";
      secrets = "seed-signing-secret-client_alpha-1" ∷ "seed-signing-secret-client_alpha-2" ∷ [];
    }
    ∷ record {
      client_id = client_beta;
      target_url = "https://webhook.site/test-client_beta";
      secrets = "seed-signing-secret-client_beta-1" ∷ "seed-signing-secret-client_beta-2" ∷ [];
    }
    ∷ record {
      client_id = client_gamma;
      target_url = "https://webhook.site/test-client_gamma";
      secrets = "seed-signing-secret-client_gamma-1" ∷ "seed-signing-secret-client_gamma-2" ∷ [];
    }
    ∷ []

-- `sorted(payments, key=created_at)`, which is stable
abbrev pub insert_asc : Payment → List Payment → List Payment
insert_asc p [] = p ∷ []
insert_asc p (q ∷ rest) =
    if ltb q.created_at p.created_at then q ∷ insert_asc p rest else p ∷ q ∷ rest

unfoldable pub by_created_at : List Payment → List Payment
by_created_at [] = []
by_created_at (p ∷ rest) = insert_asc p (by_created_at rest)

module _ ⦃P : Platform⦄ where
  -- The inner loop of `_seed_webhook_endpoints`.
  unfoldable pub seed_slots : Client → List String → Exec World (Unit {0})
  seed_slots client [] = pure tt
  seed_slots client (signing_secret ∷ rest) = do
    id ← new_uuid
    insert_endpoint (record {
      id = id;
      client_id = client.client_id;
      url = client.target_url;
      signing_secret = signing_secret;
      is_active = true;
    })
    seed_slots client rest

  -- `_seed_webhook_endpoints`
  unfoldable pub seed_webhook_endpoints : List Client → Exec World (Unit {0})
  seed_webhook_endpoints [] = pure tt
  seed_webhook_endpoints (client ∷ rest) = do
    existing_count ← gets (λ w. length (
        select (λ e. str_eq e.client_id client.client_id && str_eq e.url client.target_url)
          (P.webhook_endpoints.rows w.working.webhook_endpoints)))
    seed_slots client (drop existing_count client.secrets)
    seed_webhook_endpoints rest

  abbrev pub insert_entry : LedgerEntry → Exec World (Unit {0})
  insert_entry e = do
    inserted ← gets (λ w. P.ledger_entries.insert w.working.ledger_entries e)
    elim inserted [
      | none ↦ raise integrity_error
      | some entries ↦
          modify (λ w. record w { working = record w.working { ledger_entries = entries } })
    ]

  abbrev pub or_add_entry : String → Payment → Option LedgerEntry → Exec World (Unit {0})
  or_add_entry entry_type payment (some existing_entry) = pure tt
  or_add_entry entry_type payment none = do
    id ← new_uuid
    insert_entry (record {
      id = id;
      payment_id = payment.id;
      entry_type = entry_type;
      amount = payment.amount;
      currency = payment.currency;
      entry_metadata = some "{'seed': True}";
    })

  -- The loop of `_seed_ledger_entries` on a payment that is confirmed or failed.
  unfoldable pub seed_ledger_entry : String → Payment → Exec World (Unit {0})
  seed_ledger_entry entry_type payment = do
    rows ← gets (λ w.
        select (λ e. (e.payment_id == payment.id) && str_eq e.entry_type entry_type)
          (P.ledger_entries.rows w.working.ledger_entries))
    existing_entry ← lift (scalar_one_or_none rows)
    or_add_entry entry_type payment existing_entry

  abbrev pub seed_entry_of : PaymentStatus → Payment → Exec World (Unit {0})
  seed_entry_of success payment = seed_ledger_entry "payment.succeeded" payment
  seed_entry_of failed payment = seed_ledger_entry "payment.failed" payment
  seed_entry_of _ payment = pure tt

  -- `_seed_ledger_entries`
  unfoldable pub seed_ledger_entries : List Payment → Exec World (Unit {0})
  seed_ledger_entries [] = pure tt
  seed_ledger_entries (payment ∷ rest) = do
    seed_entry_of payment.status payment
    seed_ledger_entries rest

  abbrev pub or_add_refund : String → Payment → Option Refund → Exec World (Unit {0})
  or_add_refund idempotency_key payment (some existing_refund) = pure tt
  or_add_refund idempotency_key payment none = do
    id ← new_uuid
    created_at ← utcnow
    insert_refund (record {
      id = id;
      payment_id = payment.id;
      customer_id = payment.customer_id;
      amount = half_amount payment.amount;
      currency = payment.currency;
      status = RefundStatus.completed;
      reason = some "seed_refund";
      idempotency_key = idempotency_key;
      created_at = created_at;
    })

  unfoldable pub seed_refund : String → Payment → Exec World (Unit {0})
  seed_refund idempotency_key payment = do
    existing_refund ← get_refund_by_idempotency_key idempotency_key
    or_add_refund idempotency_key payment existing_refund

  -- The loop of `_seed_refunds`, over `enumerate(..., start=1)`.
  unfoldable pub seed_refunds_of : List String → List Payment → Exec World (Unit {0})
  seed_refunds_of (key ∷ keys) (payment ∷ rest) = do
    seed_refund key payment
    seed_refunds_of keys rest
  seed_refunds_of _ _ = pure tt

  -- `_seed_refunds`
  unfoldable pub seed_refunds : List Payment → Exec World (Unit {0})
  seed_refunds payments =
      seed_refunds_of ("seed-refund-1" ∷ "seed-refund-2" ∷ [])
        (take 2 (by_created_at (select (λ p. is_success p.status) payments)))

  -- `seed_data`, within its session
  unfoldable pub seed_data : Exec World (Unit {0})
  seed_data = do
    now ← utcnow
    seed_webhook_endpoints clients
    payments ← seed_payments now
    seed_ledger_entries payments
    seed_refunds payments
    commit
