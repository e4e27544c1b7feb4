-- ===== src/Exec/Preserves.antt =====
-- What holds before a call and after it, whether the call returns or raises: rules for the pieces
-- that methods are made of.
use tru_dev_tasks.Prelude.{Bool, true, false, Option, none, some, if◌then◌else◌}
use tru_dev_tasks.Core.Exceptions.{Exception}
use tru_dev_tasks.Exec.{Exec, Result, ok, err, pure, or_raise, catch, after, ◌>>=◌}

abbrev pub Preserves {ℓ κ μ} : {S : Type ℓ} {A : Type κ} → (S → Type μ) → Exec S A → Type (ℓ ⊔ μ)
Preserves I m = (s : _) → I s → I (m s).1

module _ {ℓ κ μ} {S : Type ℓ} {A : Type κ} (I : S → Type μ) where
  pub pure-Preserves : (a : A) → Preserves I (pure {S = S} a)
  pure-Preserves a s h = h

  pub or_raise-Preserves : (o : Option A) (e : Exception) → Preserves I (or_raise {S = S} o e)
  or_raise-Preserves none e s h = h
  or_raise-Preserves (some a) e s h = h

  pub if-Preserves :
      (c : Bool) (m k : Exec S A) → Preserves I m → Preserves I k → Preserves I (if c then m else k)
  if-Preserves true m k hm hk = hm
  if-Preserves false m k hm hk = hk

  pub catch-Preserves :
      (m : Exec S A) (handle : Exception → Exec S A)
      → Preserves I m
      → ((e : Exception) → Preserves I (handle e))
      → Preserves I (catch m handle)
  catch-Preserves m handle hm hh s h = caught (m s) (hm s h)
    where
      caught :
          (r : Result A × S)
          → I r.1
          → I (elim r.0 as (λ _. Result A × S) [ ok a ↦ (ok a, r.1) | err e ↦ handle e r.1 ]).1
      caught (ok a, s') h' = h'
      caught (err e, s') h' = hh e s' h'

module _ {ℓ κ μ ν} {S : Type ℓ} {A : Type κ} {B : Type μ} (I : S → Type ν) where
  pub after-Preserves :
      (f : A → Exec S B) (r : Result A × S)
      → ((a : A) → Preserves I (f a))
      → I r.1
      → I (after f r).1
  after-Preserves f (ok a, s) hf h = hf a s h
  after-Preserves f (err e, s) hf h = h

  pub >>=-Preserves :
      (m : Exec S A) (f : A → Exec S B)
      → Preserves I m
      → ((a : A) → Preserves I (f a))
      → Preserves I (m >>= f)
  >>=-Preserves m f hm hf s h = after-Preserves f (m s) hf (hm s h)
