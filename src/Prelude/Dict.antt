-- ===== src/Prelude/Dict.antt =====
-- A dict keyed by texts, in insertion order.
use Prim.Native.String.{String}
use mathlib.Core.Path.{◌≡◌, refl, sym, ap, ◌∙◌}
use mathlib.Core.Logic.{◌≢◌, inl, inr}
use mathlib.Core.Bool.{true, false}
use mathlib.Core.Option.{Option, none, some}
use mathlib.Core.List.{List, [], ◌∷◌}
use text.Mathlib.Text.{◌==◌ as str_eq}
use text.Mathlib.TextEquality.{eq_iff}
use tru_dev_tasks.Prelude.Tests.{if◌then◌else◌, Bool-cases}

abbrev pub Dict {ℓ} : Type ℓ → Type ℓ
Dict V = List (String × V)

module _ {ℓ} {V : Type ℓ} where
  -- `d.get(key)`
  abbrev pub get : String → Dict V → Option V
  get key [] = none
  get key ((k, v) ∷ rest) = if str_eq k key then some v else get key rest

  -- `d[key] = v`
  abbrev pub put : String → V → Dict V → Dict V
  put key v [] = (key, v) ∷ []
  put key v (e ∷ rest) = if str_eq e.0 key then (key, v) ∷ rest else e ∷ put key v rest

pub str_eq_self : (k : String) → str_eq k k ≡ true
str_eq_self k = (eq_iff k k).1 refl

str_eq_apart : (j k : String) → j ≢ k → str_eq k j ≡ false
str_eq_apart j k apart = elim (Bool-cases (str_eq k j)) [
  | inl same ↦ absurd (apart (sym ((eq_iff k j).0 same)))
  | inr other ↦ other
]

module _ {ℓ} {V : Type ℓ} where
  pub get-put_self : (k : String) (b : V) (d : Dict V) → get k (put k b d) ≡ some b
  get-put_self k b [] = rw (str_eq_self k) refl
  get-put_self k b (e ∷ rest) = elim (Bool-cases (str_eq e.0 k)) [
    | inl same ↦ rw same (rw (str_eq_self k) refl)
    | inr other ↦ rw other (rw other (get-put_self k b rest))
  ]

  pub get-put_ne : (j k : String) (b : V) (d : Dict V) → j ≢ k → get j (put k b d) ≡ get j d
  get-put_ne j k b [] apart = rw (str_eq_apart j k apart) refl
  get-put_ne j k b (e ∷ rest) apart = elim (Bool-cases (str_eq e.0 k)) [
    | inl same ↦
        let other : str_eq e.0 j ≡ false =
          ap (λ x. str_eq x j) ((eq_iff e.0 k).0 same) ∙ str_eq_apart j k apart in
        rw same (rw other (rw (str_eq_apart j k apart) refl))
    | inr kept ↦
        rw kept (ap (λ o. if str_eq e.0 j then some e.1 else o) (get-put_ne j k b rest apart))
  ]
