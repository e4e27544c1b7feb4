-- ===== src/Payments/Termination.antt =====
-- A payment does not stay open for ever: confirmations of it, each in a session of its own, as the
-- API and the retry jobs make them, come to an end.
use tru_dev_tasks.Prelude.{
  ℕ, zero, suc, ◌+◌, ◌≤◌, ◌≡◌, ap, ◌∙◌, Bool-cases, inl, inr, true, none, some, arith,
}
use tru_dev_tasks.Payments.Models.{Payment}
use tru_dev_tasks.Payments.Service.{is_terminal, confirm_payment}
use tru_dev_tasks.Payments.Lifecycle.{AllValid}
use tru_dev_tasks.Payments.Lookup.{confirm_terminal}
use tru_dev_tasks.Payments.Confirm.{confirm_payment-AllValid}
use tru_dev_tasks.Payments.Attempts.{confirm_payment-counts}
use tru_dev_tasks.Platform.{Platform, World, with_session}

module _ ⦃P : Platform⦄ (payment_id : ℕ) where
  abbrev confirmed_once : World → World
  confirmed_once w = (with_session (confirm_payment payment_id none) w).1

  -- `n` confirmations, whatever each of them comes to.
  unfoldable pub confirmations : ℕ → World → World
  confirmations zero w = w
  confirmations (suc n) w = confirmations n (confirmed_once w)

  abbrev begun : World → World
  begun w = record w { working = w.committed }

  confirmed_once-terminal :
      (w : World) (p : Payment)
      → P.payments.get w.committed.payments payment_id ≡ some p
      → is_terminal p.status ≡ true
      → (confirmed_once w).committed ≡ w.committed
  confirmed_once-terminal w p found terminal =
      ap (λ r. r.1.committed) (confirm_terminal payment_id (begun w) p found none terminal)

  confirmations-final :
      (n : ℕ) (w : World) (p : Payment)
      → P.payments.get w.committed.payments payment_id ≡ some p
      → is_terminal p.status ≡ true
      → P.payments.get (confirmations n w).committed.payments payment_id ≡ some p
  unfolding confirmations
  confirmations-final zero w p found terminal = found
  confirmations-final (suc n) w p found terminal =
      confirmations-final n (confirmed_once w) p
        (ap (λ db. P.payments.get db.payments payment_id)
            (confirmed_once-terminal w p found terminal)
          ∙ found)
        terminal

  -- If all committed payments are valid, a payment that has made `k` attempts is confirmed or
  -- failed after as many confirmations as `k` falls short of the cap, and after any more.
  pub confirmations-terminal :
      (n : ℕ) (w : World) (p : Payment)
      → P.payments.get w.committed.payments payment_id ≡ some p
      → AllValid w.committed.payments
      → P.max_payment_retry_attempts ≤ p.retry_count + n
      → (q : Payment) × (P.payments.get (confirmations n w).committed.payments payment_id ≡ some q)
        × (is_terminal q.status ≡ true)
  unfolding confirmations
  confirmations-terminal zero w p found valid enough = elim (Bool-cases (is_terminal p.status)) [
    | inl terminal ↦ (p, found, terminal)
    | inr n ↦ absurd (omega (arith, (valid payment_id p found).attempt_left n))
  ]
  confirmations-terminal (suc n) w p found valid enough = elim (Bool-cases (is_terminal p.status)) [
    | inl terminal ↦ (p, confirmations-final (suc n) w p found terminal, terminal)
    | inr running ↦
        let (q, there, more) =
          confirm_payment-counts payment_id none (begun w) p found valid running in
        confirmations-terminal n (confirmed_once w) q there
          (confirm_payment-AllValid payment_id none (begun w) valid valid) (omega arith)
  ]
