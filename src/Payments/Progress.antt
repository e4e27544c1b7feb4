-- ===== src/Payments/Progress.antt =====
-- How the payments may change from one time to a later one.
use tru_dev_tasks.Prelude.{
  some-injective, ℕ, ◌≤◌, ◌≡◌, refl, sym, ap, subst, ◌∙◌, true, some, List, [], ◌++◌, ◌==◌, ==_iff,
  arith, Bool-cases, inl, inr,
}
use mathlib.Core.List.{append-nil, append_assoc}
use tru_dev_tasks.Payments.Machine.{Reaches, stays, Reaches-trans, phase_of}
use tru_dev_tasks.Payments.Models.{Payment, payment_clash, StateHistoryEntry}
use tru_dev_tasks.Database.Queries.{any_mem}
use tru_dev_tasks.Payments.Service.{is_terminal}
use tru_dev_tasks.Platform.{Platform}

-- `q` is `p` at a later time: what was agreed on is the same, attempts and history only grow, the
-- abstract machine goes from the one to the other, and a payment that is confirmed or failed has
-- not changed at all.
pub record Advances ⦃P : Platform⦄ (p q : Payment) : Type 0 where
  pub id : q.id ≡ p.id
  pub customer_id : q.customer_id ≡ p.customer_id
  pub amount : q.amount ≡ p.amount
  pub currency : q.currency ≡ p.currency
  pub idempotency_key : q.idempotency_key ≡ p.idempotency_key
  pub created_at : q.created_at ≡ p.created_at
  pub attempts : p.retry_count ≤ q.retry_count
  pub history : (more : List StateHistoryEntry) × (q.state_history ≡ p.state_history ++ more)
  pub reaches : Reaches P.max_payment_retry_attempts (phase_of p) (phase_of q)
  pub final : is_terminal p.status ≡ true → q ≡ p

pub Advances-refl : ⦃P : Platform⦄ (p : Payment) → Advances p p
Advances-refl p = record {
  id = refl;
  customer_id = refl;
  amount = refl;
  currency = refl;
  idempotency_key = refl;
  created_at = refl;
  attempts = omega arith;
  history = ([], sym (append-nil p.state_history));
  reaches = stays;
  final = λ _. refl;
}

pub Advances-trans : ⦃P : Platform⦄ {p q r : Payment} → Advances p q → Advances q r → Advances p r
Advances-trans {p} {q} {r} a b = record {
  id = b.id ∙ a.id;
  customer_id = b.customer_id ∙ a.customer_id;
  amount = b.amount ∙ a.amount;
  currency = b.currency ∙ a.currency;
  idempotency_key = b.idempotency_key ∙ a.idempotency_key;
  created_at = b.created_at ∙ a.created_at;
  attempts = omega (arith, a.attempts, b.attempts);
  history = (
    a.history.0 ++ b.history.0,
    b.history.1
        ∙ ap (λ h. h ++ b.history.0) a.history.1
        ∙ append_assoc p.state_history a.history.0 b.history.0,
  );
  reaches = Reaches-trans a.reaches b.reaches;
  final = λ t. b.final (ap (λ (x : Payment). is_terminal x.status) (a.final t) ∙ t) ∙ a.final t;
}

module _ ⦃P : Platform⦄ where
  -- Every payment is still there, later.
  abbrev pub AllAdvance : P.payments.State → P.payments.State → Type 0
  AllAdvance s t =
      (i : ℕ) (p : Payment)
      → P.payments.get s i ≡ some p
      → (q : Payment) × (P.payments.get t i ≡ some q) × Advances p q

  pub AllAdvance-refl : (s : P.payments.State) → AllAdvance s s
  AllAdvance-refl s i p e = (p, e, Advances-refl p)

  pub AllAdvance-trans :
      (s t u : P.payments.State) → AllAdvance s t → AllAdvance t u → AllAdvance s u
  AllAdvance-trans s t u a b i p e =
      let (q, e', h) = a i p e in let (r, e'', h') = b i q e' in (r, e'', Advances-trans h h')

  pub update-AllAdvance :
      (s t : P.payments.State) (old p : Payment)
      → P.payments.get t p.id ≡ some old
      → Advances old p
      → AllAdvance s t
      → AllAdvance s (P.payments.update t p)
  update-AllAdvance s t old p present step a i q e =
      let (r, e', h) = a i q e in
      let written = P.payments.update_get t p present i in
      elim (Bool-cases (i == p.id)) [
        | inl same ↦
            let there : r ≡ old =
              some-injective (sym e' ∙ ap (P.payments.get t) ((==_iff i p.id).0 same) ∙ present) in
            (
              p,
              written ∙ rw same refl,
              Advances-trans h (subst (λ x. Advances x p) (sym there) step),
            )
        | inr other ↦ (r, written ∙ rw other e', h)
      ]

  -- The key of an inserted row was free.
  insert-fresh :
      (t u : P.payments.State) (p q : Payment)
      → P.payments.insert t p ≡ some u
      → P.payments.get t p.id ≡ some q
      → ⊥
  insert-fresh t u p q inserts there =
      let key = P.payments.get_key there in
      let clash : payment_clash p q ≡ true = ground (arith, key) in
      let refused =
        (P.payments.insert_refused t p).1
          (any_mem (payment_clash p) (P.payments.get_rows there) clash) in
      cc (inserts, refused)

  pub insert-AllAdvance :
      (s t u : P.payments.State) (p : Payment)
      → P.payments.insert t p ≡ some u
      → AllAdvance s t
      → AllAdvance s u
  insert-AllAdvance s t u p inserts a i q e =
      let (r, e', h) = a i q e in
      elim (Bool-cases (i == p.id)) [
        | inl same ↦ absurd (
            insert-fresh t u p r inserts
              (ap (P.payments.get t) (sym ((==_iff i p.id).0 same)) ∙ e'))
        | inr other ↦ (r, P.payments.insert_get t p inserts i ∙ rw other e', h)
      ]
