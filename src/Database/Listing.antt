-- ===== src/Database/Listing.antt =====
-- A listing: the rows that pass a filter, in descending order of a column, page by page.
use mathlib.Core.List.{Permᴰ}
use mathlib.Core.List.Permᴰ
use native.Mathlib.Nat.{suc-mul, zero-mul, suc-add}
use tru_dev_tasks.Prelude.{
  ℕ, zero, suc, ◌+◌, ◌*◌, ◌≤◌, ◌≡◌, true, false, refl, sym, ap, subst, ◌∙◌, List, [], ◌∷◌, ◌++◌,
  length, leb, if◌then◌else◌, Bool-cases, inl, inr, ◌⊎◌, arith,
}

module _ {Row : Type 0} where
  abbrev pub take : ℕ → List Row → List Row
  take zero xs = []
  take (suc n) [] = []
  take (suc n) (x ∷ xs) = x ∷ take n xs

  abbrev pub drop : ℕ → List Row → List Row
  drop zero xs = xs
  drop (suc n) [] = []
  drop (suc n) (x ∷ xs) = drop n xs

  abbrev pub insert_desc : (Row → ℕ) → Row → List Row → List Row
  insert_desc column r [] = r ∷ []
  insert_desc column r (x ∷ xs) =
      if leb (column x) (column r) then r ∷ x ∷ xs else x ∷ insert_desc column r xs

  -- `.order_by(column.desc())`; rows with the same value come in the order they are found in.
  unfoldable pub order_desc : (Row → ℕ) → List Row → List Row
  order_desc column [] = []
  order_desc column (x ∷ xs) = insert_desc column x (order_desc column xs)

  -- `.offset(offset).limit(limit)`
  abbrev pub slice : ℕ → ℕ → List Row → List Row
  slice offset limit rows = take limit (drop offset rows)

  insert_desc-perm :
      (column : Row → ℕ) (r : Row) (xs : List Row) → Permᴰ (insert_desc column r xs) (r ∷ xs)
  insert_desc-perm column r [] = Permᴰ.refl (r ∷ [])
  insert_desc-perm column r (x ∷ xs) = elim (Bool-cases (leb (column x) (column r))) [
    | inl here ↦ rw here (Permᴰ.refl (r ∷ x ∷ xs))
    | inr later ↦
        rw later
          (Permᴰ.trans (Permᴰ.cons refl (insert_desc-perm column r xs)) (Permᴰ.swap refl refl))
  ]

  pub order_desc-perm : (column : Row → ℕ) (xs : List Row) → Permᴰ (order_desc column xs) xs
  unfolding order_desc
  order_desc-perm column [] = Permᴰ.nil
  order_desc-perm column (x ∷ xs) =
      Permᴰ.trans (insert_desc-perm column x (order_desc column xs))
        (Permᴰ.cons refl (order_desc-perm column xs))

  take-nil : (n : ℕ) → take n [] ≡ []
  take-nil zero = refl
  take-nil (suc n) = refl

  drop-nil : (n : ℕ) → drop n [] ≡ []
  drop-nil zero = refl
  drop-nil (suc n) = refl

  length_perm : {xs ys : List Row} → Permᴰ xs ys → length xs ≡ length ys
  length_perm Permᴰ.nil = refl
  length_perm (Permᴰ.cons h p) = ap suc (length_perm p)
  length_perm (Permᴰ.swap h k) = refl
  length_perm (Permᴰ.trans p q) = length_perm p ∙ length_perm q

  take_split : (a b : ℕ) (xs : List Row) → take a xs ++ slice a b xs ≡ take (a + b) xs
  take_split zero b xs = ap (λ n. take n xs) (omega arith)
  take_split (suc a) b [] = take-nil b ∙ sym (take-nil (suc a + b))
  take_split (suc a) b (x ∷ xs) =
      ap (λ ys. x ∷ ys) (take_split a b xs) ∙ ap (λ n. take n (x ∷ xs)) (sym (suc-add a b))

  take_all : (n : ℕ) (xs : List Row) → length xs ≤ n → take n xs ≡ xs
  take_all zero [] le = refl
  take_all zero (x ∷ xs) le = absurd (omega (arith, le))
  take_all (suc n) [] le = refl
  take_all (suc n) (x ∷ xs) le = ap (λ ys. x ∷ ys) (take_all n xs (omega (arith, le)))

  -- The first `n` pages of `limit` rows.
  unfoldable pub pages : ℕ → ℕ → List Row → List Row
  pages limit zero rows = []
  pages limit (suc n) rows = pages limit n rows ++ slice (n * limit) limit rows

  pub pages-take : (limit n : ℕ) (rows : List Row) → pages limit n rows ≡ take (n * limit) rows
  unfolding pages
  pages-take limit zero rows = ap (λ n. take n rows) (sym (zero-mul limit))
  pages-take limit (suc n) rows =
      ap (λ ys. ys ++ slice (n * limit) limit rows) (pages-take limit n rows)
      ∙ take_split (n * limit) limit rows
      ∙ ap (λ m. take m rows) (sym (suc-mul n limit))

  -- Each row's column is at most that of the row before.
  abbrev pub IsDescending : (Row → ℕ) → List Row → Type 0
  IsDescending column [] = Unit
  IsDescending column (x ∷ []) = Unit
  IsDescending column (x ∷ y ∷ rest) = (column y ≤ column x) × IsDescending column (y ∷ rest)

  insert_desc-IsDescending :
      (column : Row → ℕ) (r : Row) (xs : List Row)
      → IsDescending column xs
      → IsDescending column (insert_desc column r xs)
  insert_desc-IsDescending column r [] h = tt
  insert_desc-IsDescending column r (x ∷ []) h = ground arith
  insert_desc-IsDescending column r (x ∷ y ∷ rest) h =
      elim (Bool-cases (leb (column x) (column r))) [
        | inl here ↦ rw here (ground arith, h)
        | inr later ↦ rw later (
            below (insert_desc-IsDescending column r (y ∷ rest) h.1)
              (Bool-cases (leb (column y) (column r))) later)
      ]
    where
      below :
          IsDescending column (insert_desc column r (y ∷ rest))
          → (leb (column y) (column r) ≡ true) ⊎ (leb (column y) (column r) ≡ false)
          → leb (column x) (column r) ≡ false
          → IsDescending column (x ∷ insert_desc column r (y ∷ rest))
      below sorted (inl here) later = rw here (ground arith, rw here at sorted)
      below sorted (inr after) later = rw after (h.0, rw after at sorted)

  pub order_desc-IsDescending :
      (column : Row → ℕ) (xs : List Row) → IsDescending column (order_desc column xs)
  unfolding order_desc
  order_desc-IsDescending column [] = tt
  order_desc-IsDescending column (x ∷ xs) =
      insert_desc-IsDescending column x (order_desc column xs) (order_desc-IsDescending column xs)

  -- Every row once, from the highest value of the column down.
  pub record IsListing (column : Row → ℕ) (rows listed : List Row) : Type 0 where
    pub each_once : Permᴰ listed rows
    pub descending : IsDescending column listed

  -- Enough pages are a listing.
  pub pages-IsListing :
      (column : Row → ℕ) (limit n : ℕ) (rows : List Row)
      → length rows ≤ n * limit
      → IsListing column rows (pages limit n (order_desc column rows))
  pages-IsListing column limit n rows enough =
      let sorted = order_desc-perm column rows in
      let all =
        take_all (n * limit) (order_desc column rows)
          (subst (λ m. m ≤ n * limit) (length_perm (Permᴰ.symm sorted)) enough) in
      subst (IsListing column rows) (sym (pages-take limit n (order_desc column rows) ∙ all))
        (record { each_once = sorted; descending = order_desc-IsDescending column rows })
