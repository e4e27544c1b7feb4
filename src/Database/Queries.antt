-- ===== src/Database/Queries.antt =====
-- Results of queries, and what inserting or updating one row does to a selection and to a sum over
-- the rows, whatever their order.
use mathlib.Core.List.{Memᴰ, Permᴰ}
use mathlib.Core.List.Permᴰ
use tru_dev_tasks.Prelude.{
  ℕ, ◌≡◌, refl, ap, subst, sym, ◌∙◌, Bool, true, false, Option, none, some, List, [], ◌∷◌, ◌⊎◌,
  if◌then◌else◌, select, any, sum_of, arith, Bool-cases, inl, inr,
}
use tru_dev_tasks.Exec.{Result, ok, err}
use tru_dev_tasks.Core.Exceptions.{multiple_results_found}

-- `result.scalar_one_or_none()`
abbrev pub scalar_one_or_none : {Row : Type 0} → List Row → Result (Option Row)
scalar_one_or_none [] = ok none
scalar_one_or_none (r ∷ []) = ok (some r)
scalar_one_or_none (r ∷ s ∷ rest) = err multiple_results_found

module _ {Row : Type 0} where
  pub scalar_some : (xs : List Row) {r : Row} → scalar_one_or_none xs ≡ ok (some r) → xs ≡ r ∷ []
  scalar_some [] e = cc
  scalar_some (x ∷ []) e = cc
  scalar_some (x ∷ y ∷ xs) e = cc

  pub scalar_none : (xs : List Row) → scalar_one_or_none xs ≡ ok none → xs ≡ []
  scalar_none [] e = refl
  scalar_none (x ∷ []) e = cc
  scalar_none (x ∷ y ∷ xs) e = cc

  nil_perm : {xs ys : List Row} → Permᴰ xs ys → ys ≡ [] → xs ≡ []
  nil_perm Permᴰ.nil e = refl
  nil_perm (Permᴰ.cons a p) e = cc
  nil_perm (Permᴰ.swap a b) e = cc
  nil_perm (Permᴰ.trans p q) e = nil_perm p (nil_perm q e)

  pub single_perm : {xs ys : List Row} {r : Row} → Permᴰ xs ys → ys ≡ r ∷ [] → xs ≡ r ∷ []
  single_perm Permᴰ.nil e = cc
  single_perm (Permᴰ.cons {a = a} {b = b} {l₁ = xs} {l₂ = ys} h p) e =
      let t : xs ≡ [] = nil_perm p (cc) in cc (h, t)
  single_perm (Permᴰ.swap a b) e = cc
  single_perm (Permᴰ.trans p q) e = single_perm p (single_perm q e)

  keep :
      (c : Bool) (a : Row) {xs ys : List Row}
      → Permᴰ xs ys
      → Permᴰ (if c then a ∷ xs else xs) (if c then a ∷ ys else ys)
  keep true a p = Permᴰ.cons refl p
  keep false a p = p

  swap_kept :
      (c d : Bool) (a b : Row) (xs : List Row)
      → Permᴰ
          (if c then a ∷ (if d then b ∷ xs else xs) else (if d then b ∷ xs else xs))
          (if d then b ∷ (if c then a ∷ xs else xs) else (if c then a ∷ xs else xs))
  swap_kept true true a b xs = Permᴰ.swap refl refl
  swap_kept true false a b xs = Permᴰ.refl (a ∷ xs)
  swap_kept false true a b xs = Permᴰ.refl (b ∷ xs)
  swap_kept false false a b xs = Permᴰ.refl xs

  pub select_perm :
      (t : Row → Bool) {xs ys : List Row} → Permᴰ xs ys → Permᴰ (select t xs) (select t ys)
  select_perm t Permᴰ.nil = Permᴰ.nil
  select_perm t (Permᴰ.cons {a = a} {l₁ = xs} {l₂ = ys} h p) =
      subst (λ x. Permᴰ (select t (a ∷ xs)) (select t (x ∷ ys))) h (keep (t a) a (select_perm t p))
  select_perm t (Permᴰ.swap {a = a} {b = b} {a' = a'} {l = xs} h k) =
      subst (λ x. Permᴰ (select t (a ∷ b ∷ xs)) (select t (a' ∷ x ∷ xs))) h
        (subst (λ x. Permᴰ (select t (a ∷ b ∷ xs)) (select t (x ∷ a ∷ xs))) k
          (swap_kept (t a) (t b) a b (select t xs)))
  select_perm t (Permᴰ.trans p q) = Permᴰ.trans (select_perm t p) (select_perm t q)

  pub sum_perm : (f : Row → ℕ) {xs ys : List Row} → Permᴰ xs ys → sum_of f xs ≡ sum_of f ys
  sum_perm f Permᴰ.nil = refl
  sum_perm f (Permᴰ.cons h p) = omega (arith, ap f h, sum_perm f p)
  sum_perm f (Permᴰ.swap h k) = omega (arith, ap f h, ap f k)
  sum_perm f (Permᴰ.trans p q) = sum_perm f p ∙ sum_perm f q

  pub any_mem :
      (t : Row → Bool) {r : Row} {xs : List Row} → Memᴰ r xs → t r ≡ true → any t xs ≡ true
  any_mem t (Memᴰ.head e) h = ground (arith, ap t e)
  any_mem t (Memᴰ.tail m) h = ground (arith, any_mem t m h)

  pub select_mem :
      (t : Row → Bool) (r : Row) (xs : List Row) → Memᴰ r xs → t r ≡ true → Memᴰ r (select t xs)
  select_mem t r [] m h = elim m [ ]
  select_mem t r (x ∷ xs) (Memᴰ.head e) h = rw (ap t (sym e) ∙ h) (Memᴰ.head e)
  select_mem t r (x ∷ xs) (Memᴰ.tail m) h = elim (Bool-cases (t x)) [
    | inl kept ↦ rw kept (Memᴰ.tail (select_mem t r xs m h))
    | inr dropped ↦ rw dropped (select_mem t r xs m h)
  ]

  pub mem_select :
      (t : Row → Bool) (r : Row) (xs : List Row) → Memᴰ r (select t xs) → Memᴰ r xs × (t r ≡ true)
  mem_select t r [] m = elim m [ ]
  mem_select t r (x ∷ xs) m = by_test (mem_select t r xs) (Bool-cases (t x))
    where
      by_cons :
          (Memᴰ r (select t xs) → Memᴰ r xs × (t r ≡ true))
          → t x ≡ true
          → Memᴰ r (x ∷ select t xs)
          → Memᴰ r (x ∷ xs) × (t r ≡ true)
      by_cons rest kept (Memᴰ.head e) = (Memᴰ.head e, ap t e ∙ kept)
      by_cons rest kept (Memᴰ.tail m') = (Memᴰ.tail (rest m').0, (rest m').1)

      by_test :
          (Memᴰ r (select t xs) → Memᴰ r xs × (t r ≡ true))
          → (t x ≡ true) ⊎ (t x ≡ false)
          → Memᴰ r (x ∷ xs) × (t r ≡ true)
      by_test rest (inl kept) = by_cons rest kept (rw kept at m)
      by_test rest (inr dropped) =
          let (present, passes) = rest (rw dropped at m) in (Memᴰ.tail present, passes)
