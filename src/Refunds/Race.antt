-- ===== src/Refunds/Race.antt =====
-- Two requests for a refund of one payment whose tests both run before either of them writes.
use tru_dev_tasks.Prelude.{
  ℕ, ◌≤◌, suc, ◌+◌, ◌<◌, ◌≡◌, subst, refl, sym, ap, ap₂, ◌∙◌, inl, inr, String, Option, none, some,
  List, [], ◌∷◌, ◌++◌, arith, Option-cases,
}
use tru_dev_tasks.Exec.{Exec, Result, ok, pure, ◌>>=◌, >>=-inv, pair_path}
use tru_dev_tasks.Jobs.Models.{uuid_text}
use tru_dev_tasks.Jobs.Frame.{enqueue_then_commit_ok}
use tru_dev_tasks.Payments.Models.{Payment}
use tru_dev_tasks.Platform.{Platform, World, with_session, refund_ledger}
use tru_dev_tasks.Refunds.Models.{Refund}
use tru_dev_tasks.Refunds.Service.{refunded, new_refund, add_refund, check_refund}
use tru_dev_tasks.Refunds.Conservation.{refunded_perm, refunded_cons, refundable, IsWithin}

module _ ⦃P : Platform⦄ where
  new_refund-counts :
      (p : Payment) (amount : ℕ) (key : String) (reason : Option String) (id created_at : ℕ)
      (rows : List Refund)
      → refunded p.id (new_refund p amount key reason id created_at ∷ rows)
        ≡ amount + refunded p.id rows
  unfolding new_refund
  new_refund-counts p amount key reason id created_at rows =
      ground (arith, refunded_cons p.id (new_refund p amount key reason id created_at) rows)

  -- An added refund counts in full.
  pub add_refund-adds :
      (p : Payment) (amount : ℕ) (key : String) (reason : Option String) (w : World) {r : Refund}
      {w' : World}
      → add_refund p amount key reason w ≡ (ok r, w')
      → (refunded p.id (P.refunds.rows w'.committed.refunds)
          ≡ amount + refunded p.id (P.refunds.rows w.working.refunds))
        × (w'.committed.payments ≡ w.working.payments)
  unfolding add_refund
  add_refund-adds p amount key reason w {r} {w'} e =
      elim (Option-cases (P.refunds.insert w.working.refunds refund)) [
        | inl refused ↦ absurd (cc (ap (λ (x : Result Refund × World). x.0) (rw refused at e)))
        | inr (t, inserts) ↦
            let saved : w'.committed ≡ record w.working { refunds = t } =
              (enqueue_then_commit_ok "process_refund" (("refund_id", uuid_text refund.id) ∷ [])
                none refund (inserted t) (rw inserts at e)).0 in
            (
              rw saved (
                  refunded_perm p.id (P.refunds.insert_rows w.working.refunds refund inserts)
                  ∙ new_refund-counts p amount key reason (P.uuid w.reads) (P.time (suc w.reads))
                      _),
              rw saved refl,
            )
      ]
    where
      refund : Refund
      refund = new_refund p amount key reason (P.uuid w.reads) (P.time (suc w.reads))

      inserted : P.refunds.State → World
      inserted t = record w {
        working = record w.working { refunds = t };
        reads = suc (suc w.reads);
        log =
            w.log
            ++ refund_ledger "refund.initiated" refund.id refund.payment_id refund.amount
                refund.currency
              ∷ [];
      }

  -- The order of steps: test, test, write, write. Each write sees what was committed before it.
  unfoldable pub race : Payment → ℕ → ℕ → String → String → Exec World (Refund × Refund)
  race p a b key key' = do
    first ← check_refund p (some a)
    second ← check_refund p (some b)
    r ← with_session (add_refund p first key none)
    r' ← with_session (add_refund p second key' none)
    pure (r, r')

  check_refund-some :
      (p : Payment) (a : ℕ) (w : World) {granted : ℕ} {w' : World}
      → check_refund p (some a) w ≡ (ok granted, w')
      → (granted ≡ a) × (w' ≡ w)
  unfolding check_refund
  check_refund-some p a w e = (ground arith, ground arith)

  -- One request's write, in a session that begins after the other's commit.
  session_adds :
      (p : Payment) (amount : ℕ) (key : String) (w : World) {r : Refund} {w' : World}
      → with_session (add_refund p amount key none) w ≡ (ok r, w')
      → (refunded p.id (P.refunds.rows w'.committed.refunds)
          ≡ amount + refunded p.id (P.refunds.rows w.committed.refunds))
        × (w'.committed.payments ≡ w.committed.payments)
  session_adds p amount key w {r} {w'} e =
      let begun : World = record w { working = w.committed } in
      let same : w'.committed ≡ (add_refund p amount key none begun).1.committed =
        ap (λ (x : Result Refund × World). x.1.committed) (sym e) in
      let adds =
        add_refund-adds p amount key none begun {r = r}
          (pair_path (ap (λ (x : Result Refund × World). x.0) e) refl) in
      (rw same adds.0, rw same adds.1)

  -- Two requests whose tests both pass before either writes are both granted in full: the
  -- refunds that count grow by the sum of the two amounts, whatever is left of the payment.
  pub race-adds_both :
      (p : Payment) (a b : ℕ) (key key' : String) (w : World) {r : Refund × Refund} {w' : World}
      → race p a b key key' w ≡ (ok r, w')
      → (refunded p.id (P.refunds.rows w'.committed.refunds)
          ≡ b + (a + refunded p.id (P.refunds.rows w.committed.refunds)))
        × (w'.committed.payments ≡ w.committed.payments)
  unfolding race
  race-adds_both p a b key key' w {r} {w'} e =
      let (g, w1, e1, t1) = >>=-inv (check_refund p (some a)) _ e in
      let (g', w2, e2, t2) = >>=-inv (check_refund p (some b)) _ t1 in
      let (r1, w3, e3, t3) = >>=-inv (with_session (add_refund p g key none)) _ {s = w2} t2 in
      let (r2, w4, e4, t4) = >>=-inv (with_session (add_refund p g' key' none)) _ {s = w3} t3 in
      let c1 = check_refund-some p a w e1 in
      let c2 = check_refund-some p b w1 e2 in
      chained g g' w1 w2 w3 w4 c1.0 c1.1 c2.0 c2.1 (session_adds p g key w2 e3)
        (session_adds p g' key' w3 e4) (ap (λ (x : Result (Refund × Refund) × World). x.1) t4)
    where
      total : World → ℕ
      total v = refunded p.id (P.refunds.rows v.committed.refunds)

      chained :
          (g g' : ℕ) (w1 w2 w3 w4 : World)
          → g ≡ a
          → w1 ≡ w
          → g' ≡ b
          → w2 ≡ w1
          → (total w3 ≡ g + total w2) × (w3.committed.payments ≡ w2.committed.payments)
          → (total w4 ≡ g' + total w3) × (w4.committed.payments ≡ w3.committed.payments)
          → w4 ≡ w'
          → (total w' ≡ b + (a + total w)) × (w'.committed.payments ≡ w.committed.payments)
      chained g g' w1 w2 w3 w4 ga ww gb ww' s s' end = (
        ap total (sym end)
            ∙ s'.0
            ∙ ap₂ (λ (x y : ℕ). x + y) gb (s.0 ∙ ap₂ (λ (x y : ℕ). x + y) ga (ap total (ww' ∙ ww))),
        ap (λ (v : World). v.committed.payments) (sym end)
            ∙ s'.1
            ∙ s.1
            ∙ ap (λ (v : World). v.committed.payments) (ww' ∙ ww),
      )

  -- So if the two amounts do not fit beside what is refunded, the payment is refunded for more
  -- than it was.
  pub race_overdraws :
      (p : Payment) (a b : ℕ) (key key' : String) (w : World) {r : Refund × Refund} {w' : World}
      → P.payments.get w.committed.payments p.id ≡ some p
      → p.amount < a + b + refunded p.id (P.refunds.rows w.committed.refunds)
      → race p a b key key' w ≡ (ok r, w')
      → ¬ IsWithin w'.committed
  race_overdraws p a b key key' w {r} {w'} present over e within =
      let s = race-adds_both p a b key key' w e in
      let bounded : refunded p.id (P.refunds.rows w'.committed.refunds) ≤ p.amount =
        subst (λ o. refunded p.id (P.refunds.rows w'.committed.refunds) ≤ refundable o)
          (ap (λ t. P.payments.get t p.id) s.1 ∙ present) (within p.id) in
      absurd (omega (arith, s.0, bounded))
