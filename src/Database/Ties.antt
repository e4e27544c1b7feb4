-- ===== src/Database/Ties.antt =====
-- Rows with the same value of the column that orders a listing come in any order; rows with
-- different values in one order only.
use mathlib.Core.List.{Permᴰ, Pairwise, mem-cons_self}
use mathlib.Core.List.Permᴰ
use mathlib.Core.HLevel.{¬_prop}
use tru_dev_tasks.Prelude.{ℕ, ◌≡◌, ◌≢◌, refl, sym, ap, ◌∙◌, List, [], ◌∷◌, arith}
use tru_dev_tasks.Database.Listing.{insert_desc, order_desc}

module _ {Row : Type 0} (column : Row → ℕ) where
  -- No two rows have the same value of the column.
  abbrev pub AreApart : List Row → Type 0
  AreApart = Pairwise (λ x y. column x ≢ column y)

  insert_desc_comm :
      (x y : Row) (xs : List Row)
      → column x ≢ column y
      → insert_desc column x (insert_desc column y xs)
        ≡ insert_desc column y (insert_desc column x xs)
  insert_desc_comm x y [] apart = ground arith
  insert_desc_comm x y (z ∷ xs) apart = ground (arith, insert_desc_comm x y xs apart)

  -- However the rows are found, they are ordered in the same way.
  pub order_desc-apart :
      {xs ys : List Row} → Permᴰ xs ys → AreApart xs → order_desc column xs ≡ order_desc column ys
  unfolding order_desc
  order_desc-apart Permᴰ.nil apart = refl
  order_desc-apart (Permᴰ.cons {a = a} {b = b} {l₁ = l₁} {l₂ = l₂} e p) (Pairwise.cons _ apart) =
      ap (insert_desc column a) (order_desc-apart p apart)
      ∙ ap (λ c. insert_desc column c (order_desc column l₂)) e
  order_desc-apart (Permᴰ.swap {a = a} {b = b} {a' = a'} {b' = b'} {l = l} e f)
        (Pairwise.cons h _) =
      insert_desc_comm a b (order_desc column l) (h b mem-cons_self)
      ∙ ap (λ c. insert_desc column c (insert_desc column a (order_desc column l))) f
      ∙ ap (λ c. insert_desc column a' (insert_desc column c (order_desc column l))) e
  order_desc-apart (Permᴰ.trans p q) apart =
      order_desc-apart p apart
      ∙ order_desc-apart q (
          Permᴰ.pairwise {R = λ x y. column x ≢ column y} (λ x y. ¬_prop) (λ x y n e. n (sym e)) p
            apart)
