-- ===== src/Payments/StateMachine.antt =====
-- pulsepay/payments/state_machine.py.
use tru_dev_tasks.Prelude.{String, Bool, true, false, Option, [], ◌∷◌, ◌++◌, if◌then◌else◌}
use tru_dev_tasks.Core.Exceptions.{invalid_state_transition}
use tru_dev_tasks.Exec.{Exec, pure, raise, ◌>>=◌}
use tru_dev_tasks.Payments.Models.{
  Payment, PaymentStatus, StateHistoryEntry, pending, processing, success, failed,
}
use tru_dev_tasks.Platform.{Platform, World, utcnow}

-- `_valid_transitions`
unfoldable pub valid_transitions : PaymentStatus → PaymentStatus → Bool
valid_transitions pending processing = true
valid_transitions processing success = true
valid_transitions processing failed = true
valid_transitions _ _ = false

module _ ⦃P : Platform⦄ where
  -- `PaymentStateMachine.transition`
  unfoldable pub transition : Payment → PaymentStatus → Option String → Exec World Payment
  unfolding valid_transitions
  transition payment target_state reason =
      if valid_transitions payment.status target_state
      then (do
        now ← utcnow
        let entry : StateHistoryEntry = record {
          state = target_state;
          timestamp = now;
          reason = reason;
        }
        pure (record payment {
          status = target_state;
          state_history = payment.state_history ++ entry ∷ [];
        }))
      else raise invalid_state_transition
