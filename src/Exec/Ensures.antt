-- ===== src/Exec/Ensures.antt =====
-- What holds of the result of a call that returns: a rule for the last step of a method.
use tru_dev_tasks.Exec.{Exec, Result, ok, err, after, ◌>>=◌}

abbrev pub OnOk {ℓ κ} : {A : Type ℓ} → (A → Type κ) → Result A → Type κ
OnOk Q (ok a) = Q a
OnOk Q (err e) = Unit

abbrev pub Ensures {ℓ κ μ} : {S : Type ℓ} {A : Type κ} → (A → Type μ) → Exec S A → Type (ℓ ⊔ μ)
Ensures Q m = (s : _) → OnOk Q (m s).0

module _ {ℓ κ μ ν} {S : Type ℓ} {A : Type κ} {B : Type μ} (Q : B → Type ν) where
  after-Ensures :
      (f : A → Exec S B) (r : Result A × S) → ((a : A) → Ensures Q (f a)) → OnOk Q (after f r).0
  after-Ensures f (ok a, s) each = each a s
  after-Ensures f (err e, s) each = tt

  pub >>=-Ensures :
      (m : Exec S A) (f : A → Exec S B) → ((a : A) → Ensures Q (f a)) → Ensures Q (m >>= f)
  >>=-Ensures m f each s = after-Ensures f (m s) each
