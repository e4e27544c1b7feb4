-- ===== src/Database/Table.antt =====
-- What the program relies on in one table of PostgreSQL behind an SQLAlchemy session. A row is
-- told by its primary key, an INSERT that violates a primary key or a unique constraint is refused
-- and a SELECT has its rows in no promised order.
use mathlib.Core.List.{Memᴰ, Permᴰ}
use tru_dev_tasks.Prelude.{
  ℕ, ◌≡◌, ◌↔◌, Bool, true, Option, none, some, List, ◌∷◌, ◌==◌, if◌then◌else◌, any,
}

-- `clash r x`: a unique constraint, the primary key among them, forbids `r` beside `x`.
pub record Table (Row : Type 0) (key : Row → ℕ) (clash : Row → Row → Bool) : Type 1 where
  pub State : Type 0
  -- `session.get(Row, id)`
  pub get : State → ℕ → Option Row
  -- the rows that a SELECT goes through
  pub rows : State → List Row
  -- the flush of an added, a changed and a deleted object; `none` is an `IntegrityError`
  pub insert : State → Row → Option State
  pub update : State → Row → State
  pub remove : State → ℕ → State
  pub get_key : {s : State} {i : ℕ} {r : Row} → get s i ≡ some r → key r ≡ i
  pub get_rows : {s : State} {i : ℕ} {r : Row} → get s i ≡ some r → Memᴰ r (rows s)
  pub rows_get : {s : State} {r : Row} → Memᴰ r (rows s) → get s (key r) ≡ some r
  pub insert_refused : (s : State) (r : Row) → (insert s r ≡ none) ↔ (any (clash r) (rows s) ≡ true)
  pub insert_get :
      (s : State) (r : Row) {t : State}
      → insert s r ≡ some t
      → (j : ℕ) → get t j ≡ (if j == key r then some r else get s j)
  pub insert_rows :
      (s : State) (r : Row) {t : State} → insert s r ≡ some t → Permᴰ (rows t) (r ∷ rows s)
  pub update_get :
      (s : State) (r : Row) {old : Row}
      → get s (key r) ≡ some old
      → (j : ℕ) → get (update s r) j ≡ (if j == key r then some r else get s j)
  pub update_rows :
      (s : State) (r : Row) {old : Row}
      → get s (key r) ≡ some old
      → (rest : List Row) × Permᴰ (rows s) (old ∷ rest) × Permᴰ (rows (update s r)) (r ∷ rest)
  pub remove_get : (s : State) (i j : ℕ) → get (remove s i) j ≡ (if j == i then none else get s j)
  pub remove_rows :
      (s : State) (i : ℕ) {old : Row}
      → get s i ≡ some old
      → Permᴰ (rows s) (old ∷ rows (remove s i))
