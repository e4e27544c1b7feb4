-- ===== src/Example/Schema.antt =====
-- A catalog of tables and indexes, the newest first, that runs migrations, and the migration of
-- the program run on it.
use tru_dev_tasks.Prelude.{
  ℕ, ◌≡◌, refl, sym, subst, arith, String, Bool, true, false, not, ◌&&◌, Option, none, some, List,
  [], ◌∷◌, any, all, str_eq, eq_iff, inl, inr, Bool-cases, if◌then◌else◌,
}
use tru_dev_tasks.Prelude.Dict.{str_eq_self}
use tru_dev_tasks.Schema.{
  Constraint, foreign_key, TableSchema, IndexSchema, Operation, create_table, create_index,
  drop_index, drop_table, TableName, refunds, required, string, primary_key,
}
use tru_dev_tasks.Schema.Ddl.{Ddl, next, run, member, relations, has_columns, is_creatable}
use tru_dev_tasks.Schema.Models.{tablename, declared_indexes}
use tru_dev_tasks.Refunds.Models.{Refund, processing}
use tru_dev_tasks.Schema.Checks.{accepts, row-IsAccepted}
use tru_dev_tasks.Schema.Keys.{share_key, share_key-clash}
use tru_dev_tasks.Schema.Migration.{migrated, upgrade, downgrade}
use tru_dev_tasks.Schema.Rows.{cell, cells}
use tru_dev_tasks.Schema.Upgrade.{created, IsFresh, IsDeclared, AllIndexed, upgrade-downgrade}

data Entry : Type 0 where
  table_entry : String → TableSchema → Entry
  index_entry : String → IndexSchema → Entry

abbrev is_free : List Entry → String → Bool
is_free [] j = true
is_free (table_entry name schema ∷ s) j = is_free s j && not (member j (relations name schema))
is_free (index_entry name i ∷ s) j = is_free s j && not (member j (name ∷ []))

abbrev find_table : List Entry → String → Option TableSchema
find_table [] j = none
find_table (table_entry name schema ∷ s) j = if str_eq name j then some schema else find_table s j
find_table (index_entry name i ∷ s) j = find_table s j

abbrev find_index : List Entry → String → Option IndexSchema
find_index [] j = none
find_index (table_entry name schema ∷ s) j = find_index s j
find_index (index_entry name i ∷ s) j = if str_eq name j then some i else find_index s j

abbrev refers : String → Constraint → Bool
refers name (foreign_key column other key) = str_eq other name
refers name _ = false

-- A table goes with its indexes, unless a table refers to it.
abbrev remove_table : String → List Entry → Option (List Entry)
remove_table j [] = none
remove_table j (table_entry name schema ∷ s) =
    let rest = remove_table j s in
    if str_eq name j
    then some s
    else if any (refers j) schema.constraints
    then none
    else next (λ s'. some (table_entry name schema ∷ s')) rest
remove_table j (index_entry name i ∷ s) =
    let rest = remove_table j s in
    if str_eq i.table j then rest else next (λ s'. some (index_entry name i ∷ s')) rest

abbrev remove_index : String → List Entry → Option (List Entry)
remove_index j [] = none
remove_index j (table_entry name schema ∷ s) =
    next (λ s'. some (table_entry name schema ∷ s')) (remove_index j s)
remove_index j (index_entry name i ∷ s) =
    let rest = remove_index j s in
    if str_eq name j then some s else next (λ s'. some (index_entry name i ∷ s')) rest

abbrev execute : Operation → List Entry → Option (List Entry)
execute (create_table name schema) s =
    if is_creatable (is_free s) (find_table s) name schema
    then some (table_entry name schema ∷ s)
    else none
execute (create_index name i) s =
    if is_free s name && has_columns (find_table s) i then some (index_entry name i ∷ s) else none
execute (drop_table name) s = remove_table name s
execute (drop_index name table) s = remove_index name s

if_some {ℓ} :
    {A : Type ℓ} (b : Bool) {x y : A}
    → Path (Option A) (if b then some x else none) (some y)
    → x ≡ y
if_some true e = cc e
if_some false e = cc e

drop_table-create_table :
    (s t : List Entry) (name : String) (schema : TableSchema)
    → execute (create_table name schema) s ≡ some t
    → remove_table name t ≡ some s
drop_table-create_table s t name schema e =
    subst (λ u. remove_table name u ≡ some s) (if_some _ e) (rw (str_eq_self name) refl)

drop_index-create_index :
    (s t : List Entry) (name : String) (i : IndexSchema)
    → execute (create_index name i) s ≡ some t
    → remove_index name t ≡ some s
drop_index-create_index s t name i e =
    subst (λ u. remove_index name u ≡ some s) (if_some _ e) (rw (str_eq_self name) refl)

abbrev catalog : Ddl
catalog = record {
  State = List Entry;
  execute = execute;
  free = is_free;
  table = find_table;
  index = find_index;
  execute-create_table = λ s name schema e.
      (table_entry name schema ∷ s, rw e refl, (λ j. refl), (λ j. refl), λ j. refl);
  execute-create_index =
      λ s name i e. (index_entry name i ∷ s, rw e refl, (λ j. refl), (λ j. refl), λ j. refl);
  drop_table-create_table = λ {s} {t} {name} {schema}. drop_table-create_table s t name schema;
  drop_index-create_index = λ {s} {t} {name} {i}. drop_index-create_index s t name i;
}

-- A database that has only the table in which Alembic keeps its version.
abbrev version_only : List Entry
version_only =
    table_entry "alembic_version" (record {
      columns = required "version_num" (string 32) ∷ [];
      constraints = primary_key ("version_num" ∷ []) ∷ [];
    })
    ∷ []

all-member :
    (p : String → Bool) (names : List String) (j : String)
    → all p names ≡ true
    → member j names ≡ true
    → p j ≡ true
all-member p [] j _ m = cc m
all-member p (k ∷ names) j h m = elim (Bool-cases (str_eq j k)) [
  | inl same ↦ subst (λ i. p i ≡ true) (sym ((eq_iff j k).0 same)) (ground arith)
  | inr other ↦ all-member p names j (ground arith) (ground arith)
]

version_only-IsFresh : IsFresh catalog version_only
unfolding IsFresh
version_only-IsFresh j = all-member (is_free version_only) (created upgrade) j refl

upgrade-downgrade_example :
    (t : List Entry) × (run catalog upgrade version_only ≡ some t)
    × ((T : TableName) → IsDeclared catalog t T)
    × ((T : TableName) → AllIndexed catalog t (tablename T) (declared_indexes T))
    × (run catalog downgrade t ≡ some version_only)
upgrade-downgrade_example = upgrade-downgrade catalog version_only version_only-IsFresh

-- A second run is refused.
upgrade_twice : next (run catalog upgrade) (run catalog upgrade version_only) ≡ none
upgrade_twice = refl

-- The drops do not run in the order of the creations: payments are referred to.
payments_referred :
    next (run catalog (drop_table "payments" ∷ [])) (run catalog upgrade version_only) ≡ none
payments_referred = refl

abbrev refund : ℕ → String → Refund
refund id key = record {
  id = id;
  payment_id = 1;
  customer_id = "c1";
  amount = 100;
  currency = "USD";
  status = processing;
  reason = none;
  idempotency_key = key;
  created_at = 5;
}

-- Two refunds under one key.
share_key-clash_example :
    share_key (migrated refunds) (cell refunds (refund 1 "k")) (cell refunds (refund 2 "k")) ≡ true
share_key-clash_example = share_key-clash refunds (refund 1 "k") (refund 2 "k")

row-IsAccepted_example :
    accepts (migrated refunds) (cells refunds (refund 1 "k")) (cell refunds (refund 1 "k")) ≡ true
row-IsAccepted_example = row-IsAccepted refunds (refund 1 "k")
