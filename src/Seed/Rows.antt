-- ===== src/Seed/Rows.antt =====
-- The payments that the seed script adds are valid.
use tru_dev_tasks.Prelude.{ℕ, refl, arith}
use tru_dev_tasks.Payments.Lifecycle.{IsValid}
use tru_dev_tasks.Payments.Machine.{stays, then_step, attempt, confirm, fail}
use tru_dev_tasks.Payments.Models.{PaymentStatus, pending, processing, success, failed}
use tru_dev_tasks.Payments.StateMachine.{valid_transitions}
use tru_dev_tasks.Platform.{Platform}
use tru_dev_tasks.Seed.Payments.{SeedSpec, seed_payment}

module _ ⦃P : Platform⦄ where
  seed_payment_of :
      (status : PaymentStatus) (s : SeedSpec) (now id : ℕ)
      → IsValid (seed_payment (record s { status = status }) now id)
  unfolding seed_payment valid_transitions
  seed_payment_of pending s now id = record {
    history = (refl, refl);
    capped = omega arith;
    attempt_left = λ _. omega (arith, P.max_attempts_pos);
    confirmed = λ h. cc;
    unconfirmed = λ _. refl;
    classified = λ h. cc;
    reached = stays;
  }
  seed_payment_of processing s now id = record {
    history = (refl, (refl, refl));
    capped = omega arith;
    attempt_left = λ _. omega (arith, P.max_attempts_pos);
    confirmed = λ h. cc;
    unconfirmed = λ _. refl;
    classified = λ h. cc;
    reached = stays;
  }
  seed_payment_of success s now id = record {
    history = (refl, (refl, (refl, refl)));
    capped = omega (arith, P.max_attempts_pos);
    attempt_left = λ h. cc;
    confirmed = λ h. ((λ h'. cc), refl);
    unconfirmed = λ h. absurd (h refl);
    classified = λ h. cc;
    reached =
        then_step (then_step stays (attempt (omega (arith, P.max_attempts_pos)) refl))
          (confirm (omega arith));
  }
  seed_payment_of failed s now id = record {
    history = (refl, (refl, (refl, refl)));
    capped = omega (arith, P.max_attempts_pos);
    attempt_left = λ h. cc;
    confirmed = λ h. cc;
    unconfirmed = λ _. refl;
    classified = λ h. refl;
    reached = then_step (then_step stays (attempt (omega (arith, P.max_attempts_pos)) refl)) fail;
  }

  pub seed_payment-IsValid : (s : SeedSpec) (now id : ℕ) → IsValid (seed_payment s now id)
  seed_payment-IsValid s now id = seed_payment_of s.status s now id
