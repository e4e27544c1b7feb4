-- ===== src/Seed/Repeated.antt =====
-- The seed script finds what it has added: its payments are added once.
use text.Mathlib.TextPositions.{eq_refl}
use tru_dev_tasks.Prelude.{
  ℕ, ◌≡◌, refl, sym, ap, subst, ◌∙◌, inl, inr, String, false, Option, none, some, List, [], ◌∷◌,
  select, any, str_eq, Option-cases, arith,
}
use tru_dev_tasks.Database.Queries.{
  scalar_one_or_none, scalar_some, scalar_none, select_perm, single_perm,
}
use tru_dev_tasks.Exec.{Result, ok, err, >>=-inv, ok_injective}
use tru_dev_tasks.Payments.Models.{Payment}
use tru_dev_tasks.Platform.{Platform, World}
use tru_dev_tasks.Seed.Payments.{
  SeedSpec, seed_specs, seed_payment, get_payment_by_idempotency_key, add_payment, or_add,
  seed_payments_of, seed_payments,
}

-- No two of the payments have the same key.
abbrev AreApart : List SeedSpec → Type 0
AreApart [] = Unit
AreApart (s ∷ rest) =
    (any (λ t. str_eq t.idempotency_key s.idempotency_key) rest ≡ false) × AreApart rest

module _ ⦃P : Platform⦄ where
  abbrev under : String → P.payments.State → List Payment
  under key t = select (λ p. str_eq p.idempotency_key key) (P.payments.rows t)

  -- Under the key of each there is this payment and no other.
  abbrev AreKept : List SeedSpec → List Payment → P.payments.State → Type 0
  AreKept [] [] t = Unit
  AreKept (s ∷ specs) (p ∷ ps) t = (under s.idempotency_key t ≡ p ∷ []) × AreKept specs ps t
  AreKept _ _ t = ⊥

  abbrev AreKeptAs : List SeedSpec → Result (List Payment) × World → Type 0
  AreKeptAs specs (ok ps, w) = AreKept specs ps w.working.payments
  AreKeptAs specs (err x, w) = Unit

  -- What a key selects after an insertion.
  inserted_under :
      (key : String) (r p : Payment) (t u : P.payments.State)
      → P.payments.insert t r ≡ some u
      → select (λ q. str_eq q.idempotency_key key) (r ∷ P.payments.rows t) ≡ p ∷ []
      → under key u ≡ p ∷ []
  inserted_under key r p t u e only =
      single_perm (select_perm (λ q. str_eq q.idempotency_key key) (P.payments.insert_rows t r e))
        only

  -- An addition under another key.
  add_payment-kept :
      (s : SeedSpec) (now : ℕ) (key : String) (p : Payment) (w : World) {q : Payment} {w' : World}
      → str_eq s.idempotency_key key ≡ false
      → under key w.working.payments ≡ p ∷ []
      → add_payment s now w ≡ (ok q, w')
      → under key w'.working.payments ≡ p ∷ []
  unfolding add_payment
  add_payment-kept s now key p w {q} {w'} other only e =
      elim (Option-cases (P.payments.insert w.working.payments r)) [
        | inl refused ↦ absurd (cc (ap (λ (x : Result Payment × World). x.0) (rw refused at e)))
        | inr (t, i) ↦
            ap (λ (x : Result Payment × World). under key x.1.working.payments) (sym (rw i at e))
            ∙ inserted_under key r p w.working.payments t i (unfold seed_payment in rw other only)
      ]
    where
      r : Payment
      r = seed_payment s now (P.uuid w.reads)

  -- An addition under a free key.
  add_payment-adds :
      (s : SeedSpec) (now : ℕ) (w : World) {q : Payment} {w' : World}
      → under s.idempotency_key w.working.payments ≡ []
      → add_payment s now w ≡ (ok q, w')
      → under s.idempotency_key w'.working.payments ≡ q ∷ []
  unfolding add_payment
  add_payment-adds s now w {q} {w'} free e =
      elim (Option-cases (P.payments.insert w.working.payments r)) [
        | inl refused ↦ absurd (cc (ap (λ (x : Result Payment × World). x.0) (rw refused at e)))
        | inr (t, i) ↦
            ap (λ (x : Result Payment × World). under s.idempotency_key x.1.working.payments)
              (sym (rw i at e))
            ∙ inserted_under s.idempotency_key r r w.working.payments t i
                (unfold seed_payment in rw (eq_refl s.idempotency_key, free) refl)
            ∙ ap (λ p. p ∷ []) (ok_injective (ap (λ (x : Result Payment × World). x.0) (rw i at e)))
      ]
    where
      r : Payment
      r = seed_payment s now (P.uuid w.reads)

  get_returns :
      (key : String) (w : World) {o : Option Payment} {w' : World}
      → get_payment_by_idempotency_key key w ≡ (ok o, w')
      → (w ≡ w') × (scalar_one_or_none (under key w.working.payments) ≡ ok o)
  unfolding get_payment_by_idempotency_key
  get_returns key w e = (
    ap (λ (x : Result (Option Payment) × World). x.1) e,
    ap (λ (x : Result (Option Payment) × World). x.0) e,
  )

  or_add-kept :
      (s : SeedSpec) (now : ℕ) (o : Option Payment) (key : String) (p : Payment) (w : World)
      {q : Payment} {w' : World}
      → str_eq s.idempotency_key key ≡ false
      → under key w.working.payments ≡ p ∷ []
      → or_add s now o w ≡ (ok q, w')
      → under key w'.working.payments ≡ p ∷ []
  or_add-kept s now none key p w other only e = add_payment-kept s now key p w other only e
  or_add-kept s now (some existing) key p w other only e =
      ap (λ (x : Result Payment × World). under key x.1.working.payments) (sym e) ∙ only

  -- What is under a key stays there while payments of other keys are seeded.
  seed_payments_of-kept :
      (specs : List SeedSpec) (now : ℕ) (key : String) (p : Payment) (w : World) {ps : List Payment}
      {w' : World}
      → any (λ t. str_eq t.idempotency_key key) specs ≡ false
      → under key w.working.payments ≡ p ∷ []
      → seed_payments_of specs now w ≡ (ok ps, w')
      → under key w'.working.payments ≡ p ∷ []
  unfolding seed_payments_of
  seed_payments_of-kept [] now key p w apart only e =
      ap (λ (x : Result (List Payment) × World). under key x.1.working.payments) (sym e) ∙ only
  seed_payments_of-kept (s ∷ rest) now key p w {ps} {w'} apart only e =
      let (o, w1, e1, r1) = >>=-inv (get_payment_by_idempotency_key s.idempotency_key) _ e in
      let (q, w2, e2, r2) = >>=-inv (or_add s now o) _ r1 in
      let (qs, w3, e3, r3) = >>=-inv (seed_payments_of rest now) _ r2 in
      let head : str_eq s.idempotency_key key ≡ false = ground (arith, apart) in
      let others : any (λ t. str_eq t.idempotency_key key) rest ≡ false = ground (arith, apart) in
      let here : under key w1.working.payments ≡ p ∷ [] =
        subst (λ v. under key v.working.payments ≡ p ∷ []) (get_returns s.idempotency_key w e1).0
          only in
      let after_rest =
        seed_payments_of-kept rest now key p w2 others (or_add-kept s now o key p w1 head here e2)
          e3 in
      ap (λ (x : Result (List Payment) × World). under key x.1.working.payments) (sym r3)
      ∙ after_rest

  -- After `or_add` its payment is the one under the key.
  or_add-adds :
      (s : SeedSpec) (now : ℕ) (o : Option Payment) (w : World) {q : Payment} {w' : World}
      → scalar_one_or_none (under s.idempotency_key w.working.payments) ≡ ok o
      → or_add s now o w ≡ (ok q, w')
      → under s.idempotency_key w'.working.payments ≡ q ∷ []
  or_add-adds s now none w found e = add_payment-adds s now w (scalar_none _ found) e
  or_add-adds s now (some existing) w found e =
      ap (λ (x : Result Payment × World). under s.idempotency_key x.1.working.payments) (sym e)
      ∙ scalar_some _ found
      ∙ ap (λ p. p ∷ []) (ok_injective (ap (λ (x : Result Payment × World). x.0) e))

  seed_payments_of-AreKept :
      (specs : List SeedSpec) (now : ℕ) (w : World) {ps : List Payment} {w' : World}
      → AreApart specs
      → seed_payments_of specs now w ≡ (ok ps, w')
      → AreKept specs ps w'.working.payments
  unfolding seed_payments_of
  seed_payments_of-AreKept [] now w {ps} {w'} apart e =
      subst (λ l. AreKept [] l w'.working.payments)
        (ok_injective (ap (λ (x : Result (List Payment) × World). x.0) e)) tt
  seed_payments_of-AreKept (s ∷ rest) now w {ps} {w'} apart e =
      let (o, w1, e1, r1) = >>=-inv (get_payment_by_idempotency_key s.idempotency_key) _ e in
      let (q, w2, e2, r2) = >>=-inv (or_add s now o) _ r1 in
      let (qs, w3, e3, r3) = >>=-inv (seed_payments_of rest now) _ r2 in
      let (same, found) = get_returns s.idempotency_key w e1 in
      let there =
        or_add-adds s now o w1
          (subst (λ v. scalar_one_or_none (under s.idempotency_key v.working.payments) ≡ ok o) same
            found)
          e2 in
      let kept : AreKept (s ∷ rest) (q ∷ qs) w3.working.payments = (
        seed_payments_of-kept rest now s.idempotency_key q w2 apart.0 there e3,
        seed_payments_of-AreKept rest now w2 apart.1 e3,
      ) in
      subst (λ (x : Result (List Payment) × World). AreKeptAs (s ∷ rest) x) r3 kept

  -- The payments that are kept are all that is found, and nothing is written.
  AreKept-repeats :
      (specs : List SeedSpec) (now : ℕ) (ps : List Payment) (v : World)
      → AreKept specs ps v.working.payments
      → seed_payments_of specs now v ≡ (ok ps, v)
  unfolding seed_payments_of get_payment_by_idempotency_key
  AreKept-repeats [] now [] v kept = refl
  AreKept-repeats [] now (p ∷ ps) v kept = absurd kept
  AreKept-repeats (s ∷ rest) now [] v kept = absurd kept
  AreKept-repeats (s ∷ rest) now (p ∷ ps) v kept =
      rw kept.0 (rw (AreKept-repeats rest now ps v kept.1) refl)

  -- Once the seed payments have been added, adding them again, at whatever time, while the table of
  -- payments is as the first run left it, finds the payments of the first run and changes nothing.
  pub seed_payments-repeats :
      (now now' : ℕ) (w v : World) {ps : List Payment} {w' : World}
      → seed_payments now w ≡ (ok ps, w')
      → v.working.payments ≡ w'.working.payments
      → seed_payments now' v ≡ (ok ps, v)
  unfolding seed_payments
  seed_payments-repeats now now' w v {ps} e same =
      AreKept-repeats seed_specs now' ps v (
        subst (AreKept seed_specs ps) (sym same)
          (seed_payments_of-AreKept seed_specs now w apart e))
    where
      apart : AreApart seed_specs
      apart = (refl, (refl, (refl, (refl, (refl, (refl, (refl, (refl, (refl, (refl, tt))))))))))
