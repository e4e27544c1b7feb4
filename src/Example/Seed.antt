-- ===== src/Example/Seed.antt =====
-- The seed script on an empty database, an hour after the clock's start.
use tru_dev_tasks.Prelude.{ℕ, suc, ◌*◌, ◌≡◌, refl, List, [], ◌∷◌}
use tru_dev_tasks.Example.Server.{server, fresh}
use tru_dev_tasks.Exec.{ok}
use tru_dev_tasks.Payments.Lifecycle.{AllValid}
use tru_dev_tasks.Payments.Models.{Payment}
use tru_dev_tasks.Payments.Progress.{AllAdvance}
use tru_dev_tasks.Platform.{Platform, World, with_session}
use tru_dev_tasks.Seed.{seed_data}
use tru_dev_tasks.Seed.Payments.{
  SeedSpec, seed_specs, seed_payment, get_payment_by_idempotency_key, add_payment, seed_payments_of,
  seed_payments,
}
use tru_dev_tasks.Seed.Repeated.{seed_payments-repeats}
use tru_dev_tasks.Seed.Soundness.{seed_data-AllValid}

instance abbrev calm : Platform
calm = server (λ n. 0)

abbrev start : World
start = fresh (λ n. 0)

abbrev hour : ℕ
hour = 3600000000

abbrev added : List SeedSpec → ℕ → List Payment
added [] id = []
added (s ∷ rest) id = seed_payment s hour id ∷ added rest (suc id)

abbrev seeded : World
seeded = (seed_payments hour start).1

seed_data-AllValid_example :
    AllValid (with_session seed_data start).1.committed.payments
    × AllAdvance start.committed.payments (with_session seed_data start).1.committed.payments
seed_data-AllValid_example = seed_data-AllValid start (λ i p e. cc)

seed_payments-repeats_example : seed_payments (2 * hour) seeded ≡ (ok (added seed_specs 0), seeded)
unfolding seed_payments seed_payments_of get_payment_by_idempotency_key add_payment seed_payment
seed_payments-repeats_example = seed_payments-repeats hour (2 * hour) start seeded refl refl
