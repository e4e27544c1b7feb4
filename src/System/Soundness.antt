-- ===== src/System/Soundness.antt =====
-- What holds of the committed tables between any two sessions.
use tru_dev_tasks.Prelude.{ℕ, ◌≤◌, ◌≡◌, refl, sym, ap, subst, arith, inl, inr, Option-cases}
use tru_dev_tasks.Exec.{Exec}
use tru_dev_tasks.Payments.Lifecycle.{AllValid}
use tru_dev_tasks.Payments.Progress.{AllAdvance}
use tru_dev_tasks.Payments.Clean.{IsClean}
use tru_dev_tasks.Refunds.Service.{refunded}
use tru_dev_tasks.Refunds.Conservation.{IsWithin, refundable}
use tru_dev_tasks.Platform.{Platform, World, Db, with_session}

module _ ⦃P : Platform⦄ where
  -- Every payment is valid and no payment is refunded for more than its amount.
  pub record IsSound (db : Db) : Type 0 where
    pub valid : AllValid db.payments
    pub within : IsWithin db

  -- The same, and the payments `s` of an earlier time are still there.
  pub record IsLater (s : P.payments.State) (db : Db) : Type 0 where
    pub sound : IsSound db
    pub advance : AllAdvance s db.payments

  refundable_mono :
      (a b : P.payments.State) (i : ℕ)
      → AllAdvance a b
      → refundable (P.payments.get a i) ≤ refundable (P.payments.get b i)
  refundable_mono a b i adv = elim (Option-cases (P.payments.get a i)) [
    | inl missing ↦ rw missing (omega arith)
    | inr (p, found) ↦
        let (q, found', h) = adv i p found in rw (found, found') (omega (arith, h.amount))
  ]

  -- A session that changes payments only.
  pub payments-IsLater :
      (s : P.payments.State) (db db' : Db)
      → IsLater s db
      → AllValid db'.payments
      → AllAdvance db.payments db'.payments
      → AllAdvance s db'.payments
      → db'.refunds ≡ db.refunds
      → IsLater s db'
  payments-IsLater s db db' h valid step advance same = record {
    sound = record {
      valid = valid;
      within = λ i. omega (
        arith,
        h.sound.within i,
        refundable_mono db.payments db'.payments i step,
        ap (λ t. refunded i (P.refunds.rows t)) same,
      );
    };
    advance = advance;
  }

  -- A session that leaves the payments alone.
  pub refunds-IsLater :
      (s : P.payments.State) (db db' : Db)
      → IsLater s db
      → IsWithin db'
      → db'.payments ≡ db.payments
      → IsLater s db'
  refunds-IsLater s db db' h within same = record {
    sound = record { valid = subst AllValid (sym same) h.sound.valid; within = within };
    advance = subst (AllAdvance s) (sym same) h.advance;
  }

  -- A method of a session that begins with what is committed.
  abbrev pub KeepsLater : {A : Type 0} → P.payments.State → Exec World A → Type 0
  KeepsLater s m = (w : World) → IsClean w → IsLater s w.committed → IsLater s (m w).1.committed

  pub with_session-IsLater :
      {A : Type 0} (s : P.payments.State) (m : Exec World A) (w : World)
      → KeepsLater s m
      → IsLater s w.committed
      → IsLater s (with_session m w).1.committed
  with_session-IsLater s m w keeps h = keeps (record w { working = w.committed }) refl h
