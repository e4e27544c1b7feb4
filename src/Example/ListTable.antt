-- ===== src/Example/ListTable.antt =====
-- A table kept as a list of rows with distinct primary keys, newest first.
use mathlib.Core.List.{Memᴰ, Permᴰ}
use mathlib.Core.List.Permᴰ
use tru_dev_tasks.Prelude.{
  ℕ, ◌≡◌, ◌≢◌, ◌↔◌, refl, subst, Bool, true, false, Option, none, some, List, [], ◌∷◌, ◌==◌,
  if◌then◌else◌, any, arith, Bool-cases, inl, inr,
}
use tru_dev_tasks.Database.Table.{Table}

module _ {Row : Type 0} (key : Row → ℕ) where
  abbrev pub Fresh : ℕ → List Row → Type 0
  Fresh k [] = Unit
  Fresh k (x ∷ xs) = (k ≢ key x) × Fresh k xs

  abbrev pub Distinct : List Row → Type 0
  Distinct [] = Unit
  Distinct (x ∷ xs) = Fresh (key x) xs × Distinct xs

  abbrev pub lookup : ℕ → List Row → Option Row
  lookup k [] = none
  lookup k (x ∷ xs) = if k == key x then some x else lookup k xs

  abbrev pub replace : Row → List Row → List Row
  replace r [] = []
  replace r (x ∷ xs) = if key r == key x then r ∷ xs else x ∷ replace r xs

  abbrev pub erase : ℕ → List Row → List Row
  erase k [] = []
  erase k (x ∷ xs) = if k == key x then xs else x ∷ erase k xs

  pub lookup_key : (k : ℕ) (xs : List Row) {r : Row} → lookup k xs ≡ some r → key r ≡ k
  lookup_key k [] e = cc
  lookup_key k (x ∷ xs) {r} e = ground (arith, lookup_key k xs {r = r})

  pub Fresh-lookup : (k : ℕ) (xs : List Row) → Fresh k xs → lookup k xs ≡ none
  Fresh-lookup k [] f = refl
  Fresh-lookup k (x ∷ xs) f = ground (arith, Fresh-lookup k xs f.1)

  pub Fresh-replace :
      (k : ℕ) (r : Row) (xs : List Row) → Fresh k xs → k ≢ key r → Fresh k (replace r xs)
  Fresh-replace k r [] f n = tt
  Fresh-replace k r (x ∷ xs) f n = ground (arith, Fresh-replace k r xs f.1 n)

  pub Fresh-erase : (k j : ℕ) (xs : List Row) → Fresh k xs → Fresh k (erase j xs)
  Fresh-erase k j [] f = tt
  Fresh-erase k j (x ∷ xs) f = ground (arith, Fresh-erase k j xs f.1)

  pub replace-Distinct : (r : Row) (xs : List Row) → Distinct xs → Distinct (replace r xs)
  replace-Distinct r [] d = tt
  replace-Distinct r (x ∷ xs) d = elim (Bool-cases (key r == key x)) [
    | inl same ↦ rw same (subst (λ k. Fresh k xs) (ground arith) d.0, d.1)
    | inr other ↦
        rw other (Fresh-replace (key x) r xs d.0 (ground arith), replace-Distinct r xs d.1)
  ]

  pub erase-Distinct : (k : ℕ) (xs : List Row) → Distinct xs → Distinct (erase k xs)
  erase-Distinct k [] d = tt
  erase-Distinct k (x ∷ xs) d =
      ground (arith, erase-Distinct k xs d.1, Fresh-erase (key x) k xs d.0)

  pub lookup-mem : (k : ℕ) (xs : List Row) {r : Row} → lookup k xs ≡ some r → Memᴰ r xs
  lookup-mem k [] e = cc
  lookup-mem k (x ∷ xs) {r} e = elim (Bool-cases (k == key x)) [
    | inl same ↦ Memᴰ.head (ground arith)
    | inr other ↦ Memᴰ.tail (lookup-mem k xs (rw other at e))
  ]

  pub Fresh-mem : (k : ℕ) {r : Row} {xs : List Row} → Fresh k xs → Memᴰ r xs → k ≢ key r
  Fresh-mem k f (Memᴰ.head e) = rw e f.0
  Fresh-mem k f (Memᴰ.tail m) = Fresh-mem k f.1 m

  pub mem-lookup : {r : Row} {xs : List Row} → Distinct xs → Memᴰ r xs → lookup (key r) xs ≡ some r
  mem-lookup d (Memᴰ.head {x = x} e) = rw e (ground arith)
  mem-lookup {r = r} d (Memᴰ.tail {x = x} m) =
      ground (arith, Fresh-mem (key x) d.0 m, mem-lookup d.1 m)

  pub lookup-replace :
      (r : Row) (j : ℕ) (xs : List Row) {old : Row}
      → lookup (key r) xs ≡ some old
      → lookup j (replace r xs) ≡ (if j == key r then some r else lookup j xs)
  lookup-replace r j [] e = cc
  lookup-replace r j (x ∷ xs) {old} e = ground (arith, lookup-replace r j xs {old = old})

  pub lookup-erase :
      (i j : ℕ) (xs : List Row)
      → Distinct xs
      → lookup j (erase i xs) ≡ (if j == i then none else lookup j xs)
  lookup-erase i j [] d = ground arith
  lookup-erase i j (x ∷ xs) d = ground (arith, lookup-erase i j xs d.1, Fresh-lookup (key x) xs d.0)

  pub erase-perm :
      (k : ℕ) (xs : List Row) {old : Row} → lookup k xs ≡ some old → Permᴰ xs (old ∷ erase k xs)
  erase-perm k [] e = cc
  erase-perm k (x ∷ xs) {old} e = elim (Bool-cases (k == key x)) [
    | inl same ↦ rw same (Permᴰ.cons (ground arith) (Permᴰ.refl xs))
    | inr other ↦
        rw other
          (Permᴰ.trans (Permᴰ.cons refl (erase-perm k xs (rw other at e))) (Permᴰ.swap refl refl))
  ]

  pub replace-perm :
      (r : Row) (xs : List Row) {old : Row}
      → lookup (key r) xs ≡ some old
      → Permᴰ (replace r xs) (r ∷ erase (key r) xs)
  replace-perm r [] e = cc
  replace-perm r (x ∷ xs) {old} e = elim (Bool-cases (key r == key x)) [
    | inl same ↦ rw same (Permᴰ.refl (r ∷ xs))
    | inr other ↦
        rw other
          (Permᴰ.trans (Permᴰ.cons refl (replace-perm r xs (rw other at e))) (Permᴰ.swap refl refl))
  ]

  pub record Rows : Type 0 where
    pub items : List Row
    pub distinct : Distinct items

  module _ (clash : Row → Row → Bool)
      (apart : (r x : Row) → clash r x ≡ false → key r ≢ key x) where
    pub any-Fresh : (r : Row) (xs : List Row) → any (clash r) xs ≡ false → Fresh (key r) xs
    any-Fresh r [] e = tt
    any-Fresh r (x ∷ xs) e = (apart r x (ground arith), any-Fresh r xs (ground arith))

    abbrev pub insert_at : (s : Rows) (r : Row) (b : Bool) → any (clash r) s.items ≡ b → Option Rows
    insert_at s r true e = none
    insert_at s r false e =
        some (record { items = r ∷ s.items; distinct = (any-Fresh r s.items e, s.distinct) })

    pub insert_at_items :
        (s : Rows) (r : Row) (b : Bool) (e : any (clash r) s.items ≡ b) {t : Rows}
        → insert_at s r b e ≡ some t
        → t.items ≡ r ∷ s.items
    insert_at_items s r true e h = cc
    insert_at_items s r false e h = ground arith

    pub insert_at_refused :
        (s : Rows) (r : Row) (b : Bool) (e : any (clash r) s.items ≡ b)
        → (insert_at s r b e ≡ none) ↔ (b ≡ true)
    insert_at_refused s r true e = (λ _. refl, λ _. refl)
    insert_at_refused s r false e = (λ h. cc, λ h. cc)

    abbrev pub list_table : Table Row key clash
    list_table = record {
      State = Rows;
      get = λ s k. lookup k s.items;
      rows = λ s. s.items;
      insert = λ s r. insert_at s r (any (clash r) s.items) refl;
      update = λ s r. record {
        items = replace r s.items;
        distinct = replace-Distinct r s.items s.distinct;
      };
      remove =
          λ s k. record { items = erase k s.items; distinct = erase-Distinct k s.items s.distinct };
      get_key = λ {s} {i} e. lookup_key i s.items e;
      get_rows = λ {s} {i} e. lookup-mem i s.items e;
      rows_get = λ {s} m. mem-lookup s.distinct m;
      insert_refused = λ s r. insert_at_refused s r _ refl;
      insert_get = λ s r e j. rw (insert_at_items s r _ refl e) (refl);
      insert_rows = λ s r e. rw (insert_at_items s r _ refl e) (Permᴰ.refl _);
      update_get = λ s r e j. lookup-replace r j s.items e;
      update_rows =
          λ s r e. (erase (key r) s.items, erase-perm (key r) s.items e, replace-perm r s.items e);
      remove_get = λ s i j. lookup-erase i j s.items s.distinct;
      remove_rows = λ s i e. erase-perm i s.items e;
    }
