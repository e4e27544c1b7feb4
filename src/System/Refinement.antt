-- ===== src/System/Refinement.antt =====
-- The payments of the whole process as the abstract machine sees them: under each id nothing, or a
-- phase.
use tru_dev_tasks.Prelude.{ℕ, ◌≡◌, Option, none, some, List, Option-cases, inl, inr}
use tru_dev_tasks.Api.Envelope.{Web}
use tru_dev_tasks.Api.Server.{Server}
use tru_dev_tasks.Payments.Machine.{Phase, open_after, phase_of, Reaches}
use tru_dev_tasks.Payments.Models.{Payment}
use tru_dev_tasks.Platform.{Platform}
use tru_dev_tasks.Ratelimit.Store.{RateLimitStore}
use tru_dev_tasks.System.Soundness.{IsSound}
use tru_dev_tasks.System.Run.{Event, run, run-IsLater}

abbrev pub seen : Option Payment → Option Phase
seen none = none
seen (some p) = some (phase_of p)

module _ ⦃P : Platform⦄ where
  -- A payment that is there takes steps of the machine and does not go away; one that is new has
  -- come from the machine's start.
  abbrev pub Follows : Option Phase → Option Phase → Type 0
  Follows none none = Unit
  Follows none (some b) = Reaches P.max_payment_retry_attempts (open_after 0) b
  Follows (some a) none = ⊥
  Follows (some a) (some b) = Reaches P.max_payment_retry_attempts a b

  later-Follows :
      (i : ℕ) (s t : P.payments.State)
      → (later : (p : Payment)
          → P.payments.get s i ≡ some p
          → (q : Payment) × (P.payments.get t i ≡ some q)
            × Reaches P.max_payment_retry_attempts (phase_of p) (phase_of q))
      → ((q : Payment)
          → P.payments.get t i ≡ some q
          → Reaches P.max_payment_retry_attempts (open_after 0) (phase_of q))
      → Follows (seen (P.payments.get s i)) (seen (P.payments.get t i))
  later-Follows i s t later fresh = elim (Option-cases (P.payments.get s i)) [
    | inl absent ↦ elim (Option-cases (P.payments.get t i)) [
      | inl still ↦ rw (absent, still) tt
      | inr (q, there) ↦ rw (absent, there) (fresh q there)
    ]
    | inr (p, present) ↦ let (q, there, reaches) = later p present in rw (present, there) reaches
  ]

  -- From sound tables on, any sequence of requests, rounds of the worker and of the poller and dead
  -- jobs queued again takes every payment through steps of the abstract machine only: what is open
  -- may make an attempt if it has one left, be confirmed if it has made one, or fail; what is
  -- confirmed or failed stays so; what is there does not go away; and a new payment has come from
  -- an open one without an attempt.
  pub run-Follows :
      (store : RateLimitStore) (web : Web) (events : List Event) (s : Server)
      → IsSound s.world.committed
      → (i : ℕ)
      → Follows
          (seen (P.payments.get s.world.committed.payments i))
          (seen (P.payments.get (run store web events s).world.committed.payments i))
  run-Follows store web events s sound i =
      let after = run-IsLater store web events s sound in
      later-Follows i s.world.committed.payments (run store web events s).world.committed.payments
        (λ p present. let (q, there, h) = after.advance i p present in (q, there, h.reaches))
        (λ q there. (after.sound.valid i q there).reached)
