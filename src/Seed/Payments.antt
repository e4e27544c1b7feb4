-- ===== src/Seed/Payments.antt =====
-- pulsepay/seed.py: `_seed_payments`. The clock has run for more than half an hour.
use tru_dev_tasks.Prelude.{
  ℕ, ◌+◌, ◌-◌, ◌*◌, String, Option, none, some, List, [], ◌∷◌, select, str_eq,
}
use tru_dev_tasks.Database.Queries.{scalar_one_or_none}
use tru_dev_tasks.Exec.{Exec, pure, gets, lift, ◌>>=◌, ◌>>◌}
use tru_dev_tasks.Payments.Models.{
  Payment, PaymentStatus, FailureClass, StateHistoryEntry, pending, processing, success, failed,
  hard,
}
use tru_dev_tasks.Payments.Service.{insert_payment}
use tru_dev_tasks.Platform.{Platform, World, new_uuid}

-- `_CLIENT_IDS`
abbrev pub client_alpha : String
client_alpha = "client_alpha"

abbrev pub client_beta : String
client_beta = "client_beta"

abbrev pub client_gamma : String
client_gamma = "client_gamma"

-- An element of `seed_specs`, with its index and the texts that are made of it.
pub record SeedSpec : Type 0 where
  pub index : ℕ
  pub idempotency_key : String
  pub metadata : String
  pub status : PaymentStatus
  pub customer_id : String
  pub amount : ℕ

abbrev spec : ℕ → String → String → PaymentStatus → String → ℕ → SeedSpec
spec index key metadata status customer_id amount = record {
  index = index;
  idempotency_key = key;
  metadata = metadata;
  status = status;
  customer_id = customer_id;
  amount = amount;
}

abbrev pub seed_specs : List SeedSpec
seed_specs =
    spec 1 "seed-payment-1" "{'seed': True, 'index': 1}" success client_alpha 12500
    ∷ spec 2 "seed-payment-2" "{'seed': True, 'index': 2}" success client_beta 8950
    ∷ spec 3 "seed-payment-3" "{'seed': True, 'index': 3}" success client_gamma 21075
    ∷ spec 4 "seed-payment-4" "{'seed': True, 'index': 4}" success client_alpha 5625
    ∷ spec 5 "seed-payment-5" "{'seed': True, 'index': 5}" failed client_beta 7210
    ∷ spec 6 "seed-payment-6" "{'seed': True, 'index': 6}" failed client_gamma 4130
    ∷ spec 7 "seed-payment-7" "{'seed': True, 'index': 7}" pending client_alpha 1500
    ∷ spec 8 "seed-payment-8" "{'seed': True, 'index': 8}" pending client_beta 1999
    ∷ spec 9 "seed-payment-9" "{'seed': True, 'index': 9}" processing client_gamma 19999
    ∷ spec 10 "seed-payment-10" "{'seed': True, 'index': 10}" processing client_alpha 30500
    ∷ []

abbrev pub second : ℕ
second = 1000000

abbrev entry : PaymentStatus → ℕ → String → StateHistoryEntry
entry state timestamp reason = record { state = state; timestamp = timestamp; reason = some reason }

abbrev pub confirmed_at_of : PaymentStatus → ℕ → ℕ → Option ℕ
confirmed_at_of success index created_at = some (created_at + (20 + index * 2) * second)
confirmed_at_of _ index created_at = none

abbrev pub state_history_of : PaymentStatus → ℕ → ℕ → List StateHistoryEntry
state_history_of pending index created_at = entry pending created_at "seed_created" ∷ []
state_history_of processing index created_at =
    entry pending created_at "seed_created"
    ∷ entry processing (created_at + 5 * second) "seed_processing"
    ∷ []
state_history_of success index created_at =
    entry pending created_at "seed_created"
    ∷ entry processing (created_at + 5 * second) "seed_processing"
    ∷ entry success (created_at + (20 + index * 2) * second) "seed_success"
    ∷ []
state_history_of failed index created_at =
    entry pending created_at "seed_created"
    ∷ entry processing (created_at + 5 * second) "seed_processing"
    ∷ entry failed (created_at + 18 * second) "seed_failure"
    ∷ []

abbrev pub failure_reason_of : PaymentStatus → Option String
failure_reason_of failed = some "seed_failure"
failure_reason_of _ = none

abbrev pub failure_class_of : PaymentStatus → Option FailureClass
failure_class_of failed = some hard
failure_class_of _ = none

abbrev pub retry_count_of : PaymentStatus → ℕ
retry_count_of success = 1
retry_count_of failed = 1
retry_count_of _ = 0

-- The payment that the loop adds.
unfoldable pub seed_payment : SeedSpec → ℕ → ℕ → Payment
seed_payment s now id =
    let created_at : ℕ = now - (30 - s.index) * (60 * second) in
    record {
      id = id;
      customer_id = s.customer_id;
      amount = s.amount;
      currency = "USD";
      status = s.status;
      failure_reason = failure_reason_of s.status;
      failure_class = failure_class_of s.status;
      retry_count = retry_count_of s.status;
      idempotency_key = s.idempotency_key;
      payment_metadata = some s.metadata;
      state_history = state_history_of s.status s.index created_at;
      confirmed_at = confirmed_at_of s.status s.index created_at;
      created_at = created_at;
      updated_at = created_at;
    }

module _ ⦃P : Platform⦄ where
  -- `_get_payment_by_idempotency_key`
  unfoldable pub get_payment_by_idempotency_key : String → Exec World (Option Payment)
  get_payment_by_idempotency_key key = do
    rows ←
        gets (λ w. select (λ p. str_eq p.idempotency_key key) (P.payments.rows w.working.payments))
    lift (scalar_one_or_none rows)

  unfoldable pub add_payment : SeedSpec → ℕ → Exec World Payment
  add_payment s now = do
    id ← new_uuid
    insert_payment (seed_payment s now id)
    pure (seed_payment s now id)

  abbrev pub or_add : SeedSpec → ℕ → Option Payment → Exec World Payment
  or_add s now (some existing) = pure existing
  or_add s now none = add_payment s now

  -- The loop.
  unfoldable pub seed_payments_of : List SeedSpec → ℕ → Exec World (List Payment)
  seed_payments_of [] now = pure []
  seed_payments_of (s ∷ rest) now = do
    existing ← get_payment_by_idempotency_key s.idempotency_key
    payment ← or_add s now existing
    payments ← seed_payments_of rest now
    pure (payment ∷ payments)

  -- `_seed_payments`
  unfoldable pub seed_payments : ℕ → Exec World (List Payment)
  seed_payments now = seed_payments_of seed_specs now
