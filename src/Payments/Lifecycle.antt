-- ===== src/Payments/Lifecycle.antt =====
-- What holds of every payment between two operations: its history is a walk of the state machine,
-- and its attempts stay within the cap.
use tru_dev_tasks.Prelude.{
  ℕ, ◌≤◌, ◌<◌, ◌≡◌, ◌≢◌, refl, subst, true, false, none, some, List, [], ◌∷◌, ◌++◌, arith,
}
use tru_dev_tasks.Payments.Machine.{Reaches, open_after, phase_of, phase_at}
use tru_dev_tasks.Payments.Models.{
  Payment, PaymentStatus, StateHistoryEntry, pending, success, failed, hard,
}
use tru_dev_tasks.Payments.StateMachine.{valid_transitions}
use tru_dev_tasks.Payments.Service.{is_terminal}
use tru_dev_tasks.Platform.{Platform}

-- `to` is reached from `from` through the entries, each a valid transition from the one before.
abbrev pub IsTrail : PaymentStatus → List StateHistoryEntry → PaymentStatus → Type 0
IsTrail from [] to = from ≡ to
IsTrail from (e ∷ h) to = (valid_transitions from e.state ≡ true) × IsTrail e.state h to

-- A history starts in `pending` and ends in the payment's status.
abbrev pub IsHistory : List StateHistoryEntry → PaymentStatus → Type 0
IsHistory [] status = ⊥
IsHistory (e ∷ h) status = (e.state ≡ pending) × IsTrail pending h status

IsTrail-append :
    (from via : PaymentStatus) (h : List StateHistoryEntry) (e : StateHistoryEntry)
    → IsTrail from h via
    → valid_transitions via e.state ≡ true
    → IsTrail from (h ++ e ∷ []) e.state
IsTrail-append from via [] e h v = ground arith
IsTrail-append from via (x ∷ xs) e h v = (h.0, IsTrail-append x.state via xs e h.1 v)

pub IsHistory-append :
    (status to : PaymentStatus) (h : List StateHistoryEntry) (e : StateHistoryEntry)
    → e.state ≡ to
    → valid_transitions status to ≡ true
    → IsHistory h status
    → IsHistory (h ++ e ∷ []) to
IsHistory-append status to [] e s v h = absurd h
IsHistory-append status to (x ∷ xs) e s v h =
    subst (λ t. IsHistory (x ∷ xs ++ e ∷ []) t) s
      (h.0, IsTrail-append pending status xs e h.1 (rw s v))

module _ ⦃P : Platform⦄ where
  pub record IsValid (p : Payment) : Type 0 where
    pub history : IsHistory p.state_history p.status
    pub capped : p.retry_count ≤ P.max_payment_retry_attempts
    pub attempt_left : is_terminal p.status ≡ false → p.retry_count < P.max_payment_retry_attempts
    pub confirmed : p.status ≡ success → (p.confirmed_at ≢ none) × (p.failure_class ≡ none)
    pub unconfirmed : p.status ≢ success → p.confirmed_at ≡ none
    pub classified : p.status ≡ failed → p.failure_class ≡ some hard
    pub reached : Reaches P.max_payment_retry_attempts (open_after 0) (phase_of p)

  -- A payment that is not terminal is open.
  pub open_phase :
      (status : PaymentStatus) (n : ℕ)
      → is_terminal status ≡ false
      → phase_at status n ≡ open_after n
  open_phase PaymentStatus.pending n e = refl
  open_phase PaymentStatus.processing n e = refl
  open_phase PaymentStatus.success n e = cc
  open_phase PaymentStatus.failed n e = cc

  abbrev pub AllValid : P.payments.State → Type 0
  AllValid s = (i : ℕ) (p : Payment) → P.payments.get s i ≡ some p → IsValid p

  -- The same of every payment but one.
  abbrev pub OthersValid : P.payments.State → ℕ → Type 0
  OthersValid s k = (i : ℕ) (p : Payment) → i ≢ k → P.payments.get s i ≡ some p → IsValid p

  module _ (s : P.payments.State) (p : Payment) {old : Payment}
      (present : P.payments.get s p.id ≡ some old) where
    pub get-update_self : P.payments.get (P.payments.update s p) p.id ≡ some p
    get-update_self = ground (arith, P.payments.update_get s p present p.id)

    pub update-OthersValid : OthersValid s p.id → OthersValid (P.payments.update s p) p.id
    update-OthersValid h i q ne e = ground (arith, P.payments.update_get s p present i, h i q)

    pub update-AllValid : OthersValid s p.id → IsValid p → AllValid (P.payments.update s p)
    update-AllValid h v i q e = ground (arith, P.payments.update_get s p present i, h i q)
