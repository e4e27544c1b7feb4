-- ===== src/Schema/Ddl.antt =====
-- What the migrations rely on in the database that runs them, as an interface: the operations of
-- Alembic on PostgreSQL. An operation that the database refuses is `none`.
use tru_dev_tasks.Prelude.{
  ◌≡◌, String, ◌<>◌, Bool, true, false, not, ◌&&◌, Option, none, some, List, [], ◌∷◌, map, any, all,
  str_eq, if◌then◌else◌,
}
use tru_dev_tasks.Schema.{
  Column, Constraint, check_in, check_null_or_in, primary_key, unique, foreign_key, TableSchema,
  IndexSchema, Operation, create_table, create_index, drop_index, drop_table,
}

abbrev pub member : String → List String → Bool
member j = any (str_eq j)

abbrev distinct : List String → Bool
distinct [] = true
distinct (j ∷ js) = not (member j js) && distinct js

abbrev pub column_names : TableSchema → List String
column_names schema = map (λ (c : Column). c.name) schema.columns

-- The names that a table takes up: its own, and those of the indexes that the database makes for
-- its primary key and its unique constraints.
abbrev key_names : List Constraint → List String
key_names [] = []
key_names (unique name columns ∷ rest) = name ∷ key_names rest
key_names (_ ∷ rest) = key_names rest

abbrev pub relations : String → TableSchema → List String
relations name schema = name ∷ (name <> "_pkey") ∷ key_names schema.constraints

-- A table is there and passes a test.
abbrev pub passes : (TableSchema → Bool) → Option TableSchema → Bool
passes test none = false
passes test (some schema) = test schema

abbrev pub is_keyed : String → Constraint → Bool
is_keyed column (primary_key columns) = member column columns
is_keyed column _ = false

module _ (table : String → Option TableSchema) where
  -- The column is the primary key of a table that is there.
  abbrev pub is_target : String → String → Bool
  is_target name column = passes (λ schema. any (is_keyed column) schema.constraints) (table name)

  abbrev pub is_enforceable : List String → Constraint → Bool
  is_enforceable columns (check_in name column values) = member column columns
  is_enforceable columns (check_null_or_in name column values) = member column columns
  is_enforceable columns (primary_key keys) = all (λ j. member j columns) keys
  is_enforceable columns (unique name keys) = all (λ j. member j columns) keys
  is_enforceable columns (foreign_key column other key) =
      member column columns && is_target other key

  -- `CREATE INDEX` names a table that is there and columns of it.
  abbrev pub has_columns : IndexSchema → Bool
  has_columns index =
      passes (λ schema. all (λ j. member j (column_names schema)) index.columns) (table index.table)

-- When `CREATE TABLE` is not refused.
abbrev pub is_creatable :
    (String → Bool) → (String → Option TableSchema) → String → TableSchema → Bool
is_creatable free table name schema =
    all free (relations name schema)
    && distinct (relations name schema)
    && distinct (column_names schema)
    && all (is_enforceable table (column_names schema)) schema.constraints

-- `free s j`: no table and no index is called `j`.
pub record Ddl : Type 1 where
  pub State : Type 0
  pub execute : Operation → State → Option State
  pub free : State → String → Bool
  pub table : State → String → Option TableSchema
  pub index : State → String → Option IndexSchema
  pub execute-create_table :
      (s : State) (name : String) (schema : TableSchema)
      → is_creatable (free s) (table s) name schema ≡ true
      → (t : State) × (execute (create_table name schema) s ≡ some t)
        × ((j : String) → free t j ≡ (free s j && not (member j (relations name schema))))
        × ((j : String) → table t j ≡ (if str_eq name j then some schema else table s j))
        × ((j : String) → index t j ≡ index s j)
  pub execute-create_index :
      (s : State) (name : String) (i : IndexSchema)
      → (free s name && has_columns (table s) i) ≡ true
      → (t : State) × (execute (create_index name i) s ≡ some t)
        × ((j : String) → free t j ≡ (free s j && not (member j (name ∷ []))))
        × ((j : String) → table t j ≡ table s j)
        × ((j : String) → index t j ≡ (if str_eq name j then some i else index s j))
  -- a drop right after the creation undoes it
  pub drop_table-create_table :
      {s t : State} {name : String} {schema : TableSchema}
      → execute (create_table name schema) s ≡ some t
      → execute (drop_table name) t ≡ some s
  pub drop_index-create_index :
      {s t : State} {name : String} {i : IndexSchema}
      → execute (create_index name i) s ≡ some t
      → execute (drop_index name i.table) t ≡ some s

-- What follows an operation, unless it was refused.
abbrev pub next {ℓ κ} : {A : Type ℓ} {B : Type κ} → (A → Option B) → Option A → Option B
next f none = none
next f (some a) = f a

module _ (D : Ddl) where
  -- A migration, one operation after another.
  abbrev pub run : List Operation → D.State → Option D.State
  run [] s = some s
  run (op ∷ ops) s = next (run ops) (D.execute op s)
