-- ===== src/Schema.antt =====
-- What a schema is made of: the columns, constraints and indexes of a table, as they are written
-- in alembic/versions/0001_initial_schema.py and in the models, and the operations of a migration.
pub mod Models
pub mod Migration
pub mod Ddl
pub mod Rollback
pub mod Upgrade
pub mod Rows
pub mod Keys
pub mod Checks
use tru_dev_tasks.Prelude.{ℕ, String, Bool, true, false, Option, none, some, List}

pub data ColumnType : Type 0 where
  -- sa.String(length=n)
  string : ℕ → ColumnType
  -- sa.Numeric(precision, scale)
  numeric : ℕ → ℕ → ColumnType
  integer boolean jsonb uuid : ColumnType
  -- sa.DateTime(timezone=True)
  timestamp : ColumnType

-- `server_default` is the SQL text of the default.
pub record Column : Type 0 where
  pub name : String
  pub type : ColumnType
  pub nullable : Bool
  pub server_default : Option String

pub data Constraint : Type 0 where
  -- a check, by its name: "column IN (values)", and "column IS NULL OR column IN (values)"
  check_in : String → String → List String → Constraint
  check_null_or_in : String → String → List String → Constraint
  primary_key : List String → Constraint
  -- a name and columns
  unique : String → List String → Constraint
  -- a column, and the table and column that it refers to; ON DELETE CASCADE
  foreign_key : String → String → String → Constraint

pub record TableSchema : Type 0 where
  pub columns : List Column
  pub constraints : List Constraint

-- An index that is not unique: the table and the columns.
pub record IndexSchema : Type 0 where
  pub table : String
  pub columns : List String

pub data Operation : Type 0 where
  create_table : String → TableSchema → Operation
  create_index : String → IndexSchema → Operation
  -- an index, and the table that it is on
  drop_index : String → String → Operation
  drop_table : String → Operation

-- The models, each a table.
pub data TableName : Type 0 where
  payments idempotency_records ledger_entries refunds : TableName
  webhook_endpoints jobs webhook_events : TableName

abbrev pub required : String → ColumnType → Column
required name type = record { name = name; type = type; nullable = false; server_default = none }

abbrev pub optional : String → ColumnType → Column
optional name type = record { name = name; type = type; nullable = true; server_default = none }

abbrev pub defaulted : String → ColumnType → String → Column
defaulted name type text = record {
  name = name;
  type = type;
  nullable = false;
  server_default = some text;
}
