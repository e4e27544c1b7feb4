-- ===== src/Seed/Soundness.antt =====
-- What the seed script leaves of the payments.
use tru_dev_tasks.Prelude.{
  ℕ, String, Option, none, some, List, [], ◌∷◌, Option-cases, inl, inr, select, str_eq, ◌==◌, ◌&&◌,
}
use tru_dev_tasks.Database.Queries.{scalar_one_or_none}
use tru_dev_tasks.Exec.{◌>>=◌, ◌>>◌}
use tru_dev_tasks.Exec.Preserves.{Preserves, >>=-Preserves, after-Preserves}
use tru_dev_tasks.Ledger.{LedgerEntry}
use tru_dev_tasks.Payments.Create.{insert-AllValid}
use tru_dev_tasks.Payments.Lifecycle.{IsValid, AllValid}
use tru_dev_tasks.Payments.Models.{Payment, PaymentStatus, pending, processing, success, failed}
use tru_dev_tasks.Payments.Progress.{AllAdvance, AllAdvance-refl, insert-AllAdvance}
use tru_dev_tasks.Payments.Service.{insert_payment}
use tru_dev_tasks.Platform.{Platform, World, commit, with_session}
use tru_dev_tasks.Refunds.Models.{Refund}
use tru_dev_tasks.Refunds.Service.{insert_refund, get_refund_by_idempotency_key}
use tru_dev_tasks.Seed.{
  Client, clients, seed_slots, seed_webhook_endpoints, insert_entry, or_add_entry, or_add_refund,
  seed_ledger_entry, seed_entry_of, seed_ledger_entries, seed_refund, seed_refunds_of, seed_refunds,
  seed_data,
}
use tru_dev_tasks.Seed.Payments.{
  SeedSpec, seed_specs, seed_payment, get_payment_by_idempotency_key, add_payment, or_add,
  seed_payments_of, seed_payments,
}
use tru_dev_tasks.Webhooks.Models.{WebhookEndpoint}
use tru_dev_tasks.Webhooks.Service.{insert_endpoint}
use tru_dev_tasks.Seed.Rows.{seed_payment-IsValid}

module _ ⦃P : Platform⦄ where
  module _ (from : P.payments.State) where
    -- The payments are valid and have only advanced, those that the session sees and those that
    -- are committed.
    abbrev AreFine : P.payments.State → Type 0
    AreFine t = AllValid t × AllAdvance from t

    abbrev pub StaysFine : World → Type 0
    StaysFine w = AreFine w.working.payments × AreFine w.committed.payments

    insert_payment-StaysFine : (p : Payment) → IsValid p → Preserves StaysFine (insert_payment p)
    insert_payment-StaysFine p v w (fine, before) =
        elim (Option-cases (P.payments.insert w.working.payments p)) [
          | inl refused ↦ rw refused (fine, before)
          | inr (t, e) ↦ rw e (
            (
              insert-AllValid w.working.payments t p e fine.0 v,
              insert-AllAdvance from w.working.payments t p e fine.1,
            ),
            before,
          )
        ]

    insert_endpoint-StaysFine : (e : WebhookEndpoint) → Preserves StaysFine (insert_endpoint e)
    insert_endpoint-StaysFine e w h =
        elim (Option-cases (P.webhook_endpoints.insert w.working.webhook_endpoints e)) [
          | inl refused ↦ rw refused h
          | inr (t, i) ↦ rw i h
        ]

    insert_entry-StaysFine : (e : LedgerEntry) → Preserves StaysFine (insert_entry e)
    insert_entry-StaysFine e w h =
        elim (Option-cases (P.ledger_entries.insert w.working.ledger_entries e)) [
          | inl refused ↦ rw refused h
          | inr (t, i) ↦ rw i h
        ]

    insert_refund-StaysFine : (r : Refund) → Preserves StaysFine (insert_refund r)
    insert_refund-StaysFine r w h = elim (Option-cases (P.refunds.insert w.working.refunds r)) [
      | inl refused ↦ rw refused h
      | inr (t, i) ↦ rw i h
    ]

    seed_slots-StaysFine :
        (client : Client) (secrets : List String) → Preserves StaysFine (seed_slots client secrets)
    unfolding seed_slots
    seed_slots-StaysFine client [] w h = h
    seed_slots-StaysFine client (secret ∷ rest) w h =
        >>=-Preserves StaysFine (insert_endpoint _) (λ _. seed_slots client rest)
          (insert_endpoint-StaysFine _) (λ _. seed_slots-StaysFine client rest) _ h

    seed_webhook_endpoints-StaysFine :
        (cs : List Client) → Preserves StaysFine (seed_webhook_endpoints cs)
    unfolding seed_webhook_endpoints
    seed_webhook_endpoints-StaysFine [] w h = h
    seed_webhook_endpoints-StaysFine (client ∷ rest) w h =
        >>=-Preserves StaysFine (seed_slots client _) (λ _. seed_webhook_endpoints rest)
          (seed_slots-StaysFine client _) (λ _. seed_webhook_endpoints-StaysFine rest) w h

    add_payment-StaysFine : (s : SeedSpec) (now : ℕ) → Preserves StaysFine (add_payment s now)
    unfolding add_payment
    add_payment-StaysFine s now w h =
        >>=-Preserves StaysFine (insert_payment (seed_payment s now (P.uuid w.reads))) _
          (insert_payment-StaysFine _ (seed_payment-IsValid s now (P.uuid w.reads))) (λ _ v k. k) _
          h

    or_add-StaysFine :
        (s : SeedSpec) (now : ℕ) (o : Option Payment) → Preserves StaysFine (or_add s now o)
    or_add-StaysFine s now none = add_payment-StaysFine s now
    or_add-StaysFine s now (some existing) = λ w h. h

    seed_payments_of-StaysFine :
        (specs : List SeedSpec) (now : ℕ) → Preserves StaysFine (seed_payments_of specs now)
    unfolding seed_payments_of get_payment_by_idempotency_key
    seed_payments_of-StaysFine [] now = λ w h. h
    seed_payments_of-StaysFine (s ∷ rest) now =
        >>=-Preserves StaysFine (get_payment_by_idempotency_key s.idempotency_key) _ (λ w h. h)
          (λ existing.
            >>=-Preserves StaysFine (or_add s now existing) _ (or_add-StaysFine s now existing)
              (λ payment.
                >>=-Preserves StaysFine (seed_payments_of rest now) _
                  (seed_payments_of-StaysFine rest now) (λ _ w h. h)))

    or_add_entry-StaysFine :
        (entry_type : String) (p : Payment) (o : Option LedgerEntry)
        → Preserves StaysFine (or_add_entry entry_type p o)
    or_add_entry-StaysFine entry_type p (some e) w h = h
    or_add_entry-StaysFine entry_type p none w h = insert_entry-StaysFine _ _ h

    seed_ledger_entry-StaysFine :
        (entry_type : String) (p : Payment) → Preserves StaysFine (seed_ledger_entry entry_type p)
    unfolding seed_ledger_entry
    seed_ledger_entry-StaysFine entry_type p w h =
        after-Preserves StaysFine (or_add_entry entry_type p)
          (
            scalar_one_or_none (
                select (λ e. (e.payment_id == p.id) && str_eq e.entry_type entry_type)
                  (P.ledger_entries.rows w.working.ledger_entries)),
            w,
          )
          (or_add_entry-StaysFine entry_type p) h

    seed_entry_of-StaysFine :
        (status : PaymentStatus) (p : Payment) → Preserves StaysFine (seed_entry_of status p)
    seed_entry_of-StaysFine pending p w h = h
    seed_entry_of-StaysFine processing p w h = h
    seed_entry_of-StaysFine success p w h = seed_ledger_entry-StaysFine "payment.succeeded" p w h
    seed_entry_of-StaysFine failed p w h = seed_ledger_entry-StaysFine "payment.failed" p w h

    seed_ledger_entries-StaysFine :
        (ps : List Payment) → Preserves StaysFine (seed_ledger_entries ps)
    unfolding seed_ledger_entries
    seed_ledger_entries-StaysFine [] w h = h
    seed_ledger_entries-StaysFine (p ∷ rest) w h =
        >>=-Preserves StaysFine (seed_entry_of p.status p) (λ _. seed_ledger_entries rest)
          (seed_entry_of-StaysFine p.status p) (λ _. seed_ledger_entries-StaysFine rest) w h

    or_add_refund-StaysFine :
        (key : String) (p : Payment) (o : Option Refund)
        → Preserves StaysFine (or_add_refund key p o)
    or_add_refund-StaysFine key p (some r) w h = h
    or_add_refund-StaysFine key p none w h = insert_refund-StaysFine _ _ h

    seed_refund-StaysFine : (key : String) (p : Payment) → Preserves StaysFine (seed_refund key p)
    unfolding seed_refund get_refund_by_idempotency_key
    seed_refund-StaysFine key p w h =
        after-Preserves StaysFine (or_add_refund key p)
          (
            scalar_one_or_none
                (select (λ r. str_eq r.idempotency_key key) (P.refunds.rows w.working.refunds)),
            w,
          )
          (or_add_refund-StaysFine key p) h

    seed_refunds_of-StaysFine :
        (keys : List String) (ps : List Payment) → Preserves StaysFine (seed_refunds_of keys ps)
    unfolding seed_refunds_of
    seed_refunds_of-StaysFine [] ps w h = h
    seed_refunds_of-StaysFine (key ∷ keys) [] w h = h
    seed_refunds_of-StaysFine (key ∷ keys) (p ∷ rest) w h =
        >>=-Preserves StaysFine (seed_refund key p) (λ _. seed_refunds_of keys rest)
          (seed_refund-StaysFine key p) (λ _. seed_refunds_of-StaysFine keys rest) w h

    written-StaysFine :
        (payments : List Payment)
        → Preserves StaysFine (seed_ledger_entries payments >> (seed_refunds payments >> commit))
    unfolding seed_refunds
    written-StaysFine payments =
        >>=-Preserves StaysFine (seed_ledger_entries payments)
          (λ _. seed_refunds payments >> commit) (seed_ledger_entries-StaysFine payments)
          (λ _.
            >>=-Preserves StaysFine (seed_refunds payments) (λ _. commit)
              (seed_refunds_of-StaysFine _ _) (λ _ v k. (k.0, k.0)))

    seeding-StaysFine :
        (now : ℕ)
        → Preserves StaysFine (
            seed_payments now >>= λ payments.
            seed_ledger_entries payments >> (seed_refunds payments >> commit))
    unfolding seed_payments
    seeding-StaysFine now =
        >>=-Preserves StaysFine (seed_payments now)
          (λ payments. seed_ledger_entries payments >> (seed_refunds payments >> commit))
          (seed_payments_of-StaysFine seed_specs now) written-StaysFine

    seed_data-StaysFine : Preserves StaysFine seed_data
    unfolding seed_data
    seed_data-StaysFine w h =
        >>=-Preserves StaysFine (seed_webhook_endpoints clients)
          (λ _. seed_payments (P.time w.reads) >>= λ payments.
            seed_ledger_entries payments >> (seed_refunds payments >> commit))
          (seed_webhook_endpoints-StaysFine clients) (λ _. seeding-StaysFine (P.time w.reads)) _ h

  -- Seeding a database whose payments are valid, whatever of it is already there and whatever comes
  -- of it, leaves every committed payment valid and every earlier one as it was or further on.
  pub seed_data-AllValid :
      (w : World)
      → AllValid w.committed.payments
      → AllValid (with_session seed_data w).1.committed.payments
        × AllAdvance w.committed.payments (with_session seed_data w).1.committed.payments
  seed_data-AllValid w valid =
      (seed_data-StaysFine w.committed.payments (record w { working = w.committed })
        (
          (valid, AllAdvance-refl w.committed.payments),
          (valid, AllAdvance-refl w.committed.payments),
        )).1
