-- ===== src/Exec.antt =====
-- Methods that change shared state and may raise. What was done before a raise stays done unless
-- the method undoes it, so the state comes back beside the error too.
pub mod Preserves
pub mod Ensures
use tru_dev_tasks.Prelude.{◌≡◌, refl, ap, ◌⊎◌, inl, inr, Bool, Option, none, some, if◌then◌else◌}
use tru_dev_tasks.Core.Exceptions.{Exception}

pub data Result {ℓ} (A : Type ℓ) : Type ℓ where
  ok : A → Result A
  err : Exception → Result A

abbrev pub Exec {ℓ κ} : Type ℓ → Type κ → Type (ℓ ⊔ κ)
Exec S A = S → Result A × S

module _ {ℓ κ} {S : Type ℓ} {A : Type κ} where
  abbrev pub pure : A → Exec S A
  pure a s = (ok a, s)

  abbrev pub raise : Exception → Exec S A
  raise e s = (err e, s)

  abbrev pub lift : Result A → Exec S A
  lift r s = (r, s)

  abbrev pub gets : (S → A) → Exec S A
  gets f s = (ok (f s), s)

  abbrev pub or_raise : Option A → Exception → Exec S A
  or_raise none e s = (err e, s)
  or_raise (some a) e s = (ok a, s)

  -- `try: m` with an `except` clause for every exception.
  abbrev pub catch : Exec S A → (Exception → Exec S A) → Exec S A
  catch m handle s = let (r, s') = m s in elim r [ ok a ↦ (ok a, s') | err e ↦ handle e s' ]

module _ {ℓ} {S : Type ℓ} where
  abbrev pub modify : (S → S) → Exec S (Unit {0})
  modify f s = (ok tt, f s)

  abbrev pub raise_if : Bool → Exception → Exec S (Unit {0})
  raise_if c e s = (if c then err e else ok tt, s)

-- What follows a call, by how the call ended.
abbrev pub after {ℓ κ μ} :
    {S : Type ℓ} {A : Type κ} {B : Type μ} → (A → Exec S B) → Result A × S → Result B × S
after f (ok a, s) = f a s
after f (err e, s) = (err e, s)

infixl 5 ◌>>=◌ ◌>>◌
abbrev pub ◌>>=◌ {ℓ κ μ} :
    {S : Type ℓ} {A : Type κ} {B : Type μ} → Exec S A → (A → Exec S B) → Exec S B
◌>>=◌ m f s = after f (m s)

abbrev pub ◌>>◌ {ℓ κ μ} : {S : Type ℓ} {A : Type κ} {B : Type μ} → Exec S A → Exec S B → Exec S B
m >> k = m >>= λ _. k

module _ {ℓ κ μ} {S : Type ℓ} {A : Type κ} {B : Type μ} where
  pub >>=-ok :
      (m : Exec S A) (f : A → Exec S B) {s t : S} {a : A} → m s ≡ (ok a, t) → (m >>= f) s ≡ f a t
  >>=-ok m f e = ap (after f) e

  pub >>=-err :
      (m : Exec S A) (f : A → Exec S B) {s t : S} {x : Exception}
      → m s ≡ (err x, t)
      → (m >>= f) s ≡ (err x, t)
  >>=-err m f e = ap (after f) e

pub ok_injective {ℓ} : {A : Type ℓ} {a b : A} → Path (Result A) (ok a) (ok b) → a ≡ b
ok_injective e = cc

pub Result-cases {ℓ} :
    {A : Type ℓ} (r : Result A) → ((a : A) × (r ≡ ok a)) ⊎ ((x : Exception) × (r ≡ err x))
Result-cases (ok a) = inl (a, refl)
Result-cases (err x) = inr (x, refl)

module _ {ℓ κ μ} {S : Type ℓ} {A : Type κ} {B : Type μ} where
  after-inv :
      (f : A → Exec S B) (r : Result A × S) {b : B} {t : S}
      → after f r ≡ (ok b, t)
      → (a : A) × (s : S) × (r ≡ (ok a, s)) × (f a s ≡ (ok b, t))
  after-inv f (ok a, s) e = (a, s, refl, e)
  after-inv f (err x, s) e = cc (ap (λ (r : Result B × S). r.0) e)

  -- Inversion of a call that returned.
  pub >>=-inv :
      (m : Exec S A) (f : A → Exec S B) {s t : S} {b : B}
      → (m >>= f) s ≡ (ok b, t)
      → (a : A) × (s' : S) × (m s ≡ (ok a, s')) × (f a s' ≡ (ok b, t))
  >>=-inv m f {s} e = after-inv f (m s) e

pub pair_path {ℓ κ} :
    {A : Type ℓ} {S : Type κ} {r : A × S} {a : A} {s : S} → r.0 ≡ a → r.1 ≡ s → r ≡ (a, s)
pair_path p q = λ i. (p i, q i)

module _ {ℓ κ μ} {S : Type ℓ} {A : Type κ} {B : Type μ} where
  after-pure : (b : B) (r : Result A × S) → (after (λ _. pure b) r).1 ≡ r.1
  after-pure b (ok a, s) = refl
  after-pure b (err x, s) = refl

  pub >>-pure : (m : Exec S A) (b : B) (s : S) → ((m >> pure b) s).1 ≡ (m s).1
  >>-pure m b s = after-pure b (m s)

module _ {ℓ κ} {S : Type ℓ} {A : Type κ} where
  abbrev caught : (Exception → Exec S A) → Result A × S → Result A × S
  caught handle (r, s) = elim r [ ok a ↦ (ok a, s) | err e ↦ handle e s ]

  pub catch-err :
      (m : Exec S A) (handle : Exception → Exec S A) {s t : S} {x : Exception}
      → m s ≡ (err x, t)
      → catch m handle s ≡ handle x t
  catch-err m handle e = ap (caught handle) e
