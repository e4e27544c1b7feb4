-- ===== src/Refunds/Replay.antt =====
-- What an idempotency key of a refund guarantees.
use text.Mathlib.TextPositions.{eq_refl}
use tru_dev_tasks.Prelude.{
  ℕ, suc, ◌≡◌, refl, sym, ap, subst, ◌∙◌, inl, inr, String, Option, none, some, List, [], ◌∷◌, ◌++◌,
  select, str_eq, Option-cases,
}
use tru_dev_tasks.Database.Queries.{
  scalar_one_or_none, scalar_some, scalar_none, select_perm, single_perm,
}
use tru_dev_tasks.Exec.{Result, Result-cases, ok, err, >>=-inv}
use tru_dev_tasks.Jobs.Frame.{enqueue_then_commit_ok}
use tru_dev_tasks.Jobs.Models.{uuid_text}
use tru_dev_tasks.Payments.Models.{Payment}
use tru_dev_tasks.Platform.{Platform, World, Db, refund_ledger, with_session}
use tru_dev_tasks.Refunds.Conservation.{check_refund_state}
use tru_dev_tasks.Refunds.Models.{Refund}
use tru_dev_tasks.Refunds.Service.{
  new_refund, get_refund_by_idempotency_key, add_refund, check_refund, refund_payment,
  initiate_refund,
}

module _ ⦃P : Platform⦄ where
  abbrev under : String → Db → List Refund
  under key db = select (λ r. str_eq r.idempotency_key key) (P.refunds.rows db.refunds)

  -- The refund that was answered is committed under the key, and no other.
  abbrev Answered : String → Result Refund × World → Type 0
  Answered key (ok r, w) = under key w.committed ≡ r ∷ []
  Answered key (err x, w) = Unit

  add_refund-Answered :
      (p : Payment) (amount : ℕ) (key : String) (reason : Option String) (w : World) {r : Refund}
      {w' : World}
      → under key w.working ≡ []
      → add_refund p amount key reason w ≡ (ok r, w')
      → under key w'.committed ≡ r ∷ []
  unfolding add_refund
  add_refund-Answered p amount key reason w {r} {w'} unused e =
      elim (Option-cases (P.refunds.insert w.working.refunds new)) [
        | inl refused ↦ absurd (cc (ap (λ (x : Result Refund × World). x.0) (rw refused at e)))
        | inr (t, i) ↦
            let (saved, same) =
              enqueue_then_commit_ok "process_refund" (("refund_id", uuid_text new.id) ∷ []) none
                new (written t) (rw i at e) in
            ap (under key) saved
            ∙ single_perm
                (select_perm (λ r. str_eq r.idempotency_key key)
                  (P.refunds.insert_rows w.working.refunds new i))
                (unfold new_refund in rw (eq_refl key, unused) refl)
            ∙ ap (λ x. x ∷ []) same
      ]
    where
      new : Refund
      new = new_refund p amount key reason (P.uuid w.reads) (P.time (suc w.reads))

      written : P.refunds.State → World
      written t = record w {
        working = record w.working { refunds = t };
        reads = suc (suc w.reads);
        log =
            w.log
            ++ refund_ledger "refund.initiated" new.id new.payment_id new.amount new.currency ∷ [];
      }

  refund_payment-Answered :
      (p : Payment) (amount : Option ℕ) (key : String) (reason : Option String) (w : World)
      {r : Refund} {w' : World}
      → under key w.working ≡ []
      → refund_payment p amount key reason w ≡ (ok r, w')
      → under key w'.committed ≡ r ∷ []
  unfolding refund_payment
  refund_payment-Answered p amount key reason w unused e =
      let (granted, w1, e1, e2) =
        >>=-inv (check_refund p amount) (λ (a : ℕ). add_refund p a key reason) e in
      let same : w1 ≡ w =
        ap (λ (x : Result ℕ × World). x.1) (sym e1) ∙ check_refund_state p amount w in
      add_refund-Answered p granted key reason w1
        (ap (λ (v : World). under key v.working) same ∙ unused) e2

  initiate_refund-Answered :
      (payment_id : ℕ) (amount : Option ℕ) (key : String) (reason : Option String) (w : World)
      {r : Refund} {w' : World}
      → w.working ≡ w.committed
      → initiate_refund payment_id amount key reason w ≡ (ok r, w')
      → under key w'.committed ≡ r ∷ []
  unfolding initiate_refund get_refund_by_idempotency_key
  initiate_refund-Answered payment_id amount key reason w {r} {w'} clean e =
      elim (Result-cases (scalar_one_or_none (under key w.working))) [
        | inl (some old, found) ↦
            subst (Answered key) (rw found at e)
              (ap (under key) (sym clean) ∙ scalar_some (under key w.working) found)
        | inr (x, several) ↦ absurd (cc (ap (λ (x : Result Refund × World). x.0) (rw several at e)))
        | inl (none, unused) ↦ elim (Option-cases (P.payments.get w.working.payments payment_id)) [
          | inl missing ↦
              absurd (cc (ap (λ (x : Result Refund × World). x.0) (rw missing at (rw unused at e))))
          | inr (p, present) ↦
              refund_payment-Answered p amount key reason w (scalar_none _ unused)
                (rw present at (rw unused at e))
        ]
      ]

  any-Answered :
      (key : String) (x : Result Refund × World)
      → ((r : Refund) (w' : World) → x ≡ (ok r, w') → under key w'.committed ≡ r ∷ [])
      → Answered key (x.0, record x.1 { working = x.1.committed })
  any-Answered key (ok r, w) each = each r w refl
  any-Answered key (err x, w) each = tt

  -- Once a session has been answered with a refund, any request under the same key, while the
  -- committed refunds are those that the first left, is answered with the same refund, whatever
  -- payment, amount and reason it names, and changes nothing.
  pub initiate_refund-replays :
      (payment_id payment_id' : ℕ) (amount amount' : Option ℕ) (key : String)
      (reason reason' : Option String) (w later : World) {r : Refund} {w' : World}
      → with_session (initiate_refund payment_id amount key reason) w ≡ (ok r, w')
      → later.committed.refunds ≡ w'.committed.refunds
      → with_session (initiate_refund payment_id' amount' key reason') later
        ≡ (ok r, record later { working = later.committed })
  unfolding initiate_refund get_refund_by_idempotency_key
  initiate_refund-replays payment_id payment_id' amount amount' key reason reason' w later {r} {w'}
        e same =
      let begun : World = record w { working = w.committed } in
      let kept : under key w'.committed ≡ r ∷ [] = subst (Answered key) e (
        any-Answered key (initiate_refund payment_id amount key reason begun)
          (λ x v h. initiate_refund-Answered payment_id amount key reason begun refl h)) in
      let found : under key later.committed ≡ r ∷ [] =
        ap (λ t. select (λ r. str_eq r.idempotency_key key) (P.refunds.rows t)) same ∙ kept in
      rw found refl
