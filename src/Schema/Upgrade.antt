-- ===== src/Schema/Upgrade.antt =====
-- alembic/versions/0001_initial_schema.py against the models, on a database that has room for it.
use mathlib.Core.List.Perm
use mathlib.Core.List.{perm_append_comm}
use tru_dev_tasks.Prelude.{◌≡◌, refl, String, true, some, List, [], ◌∷◌, ◌++◌, Perm}
use tru_dev_tasks.Schema.{
  TableSchema, Operation, create_table, create_index, TableName, payments, idempotency_records,
  ledger_entries, refunds, webhook_endpoints, jobs, webhook_events,
}
use tru_dev_tasks.Schema.Models.{tablename, declared, declared_indexes}
use tru_dev_tasks.Schema.Migration.{migrated, upgrade, downgrade}
use tru_dev_tasks.Schema.Ddl.{Ddl, run, member, relations}
use tru_dev_tasks.Schema.Rollback.{Known, IsKnown, learn_all, run-undo}

-- All that a migration creates, by name.
abbrev pub created : List Operation → List String
created [] = []
created (create_table name schema ∷ ops) = relations name schema ++ created ops
created (create_index name i ∷ ops) = name ∷ created ops
created (_ ∷ ops) = created ops

module _ (D : Ddl) where
  -- No table and no index of the database has a name that the migration is to create.
  unfoldable pub IsFresh : D.State → Type 0
  IsFresh s = (j : String) → member j (created upgrade) ≡ true → D.free s j ≡ true

  -- The table has the columns and the constraints of the model, those in any order.
  pub record IsDeclared (s : D.State) (T : TableName) : Type 0 where
    pub schema : TableSchema
    pub there : D.table s (tablename T) ≡ some schema
    pub columns : schema.columns ≡ (declared T).columns
    pub constraints : Perm schema.constraints (declared T).constraints

  -- The table has these indexes.
  abbrev pub AllIndexed : D.State → String → List (String × String) → Type 0
  AllIndexed s name [] = Unit {0}
  AllIndexed s name ((i, column) ∷ rest) =
      (D.index s i ≡ some (record { table = name; columns = column ∷ [] })) × AllIndexed s name rest

-- The migration and the models agree on each table.
migrated-columns : (T : TableName) → (migrated T).columns ≡ (declared T).columns
migrated-columns payments = refl
migrated-columns idempotency_records = refl
migrated-columns ledger_entries = refl
migrated-columns refunds = refl
migrated-columns webhook_endpoints = refl
migrated-columns jobs = refl
migrated-columns webhook_events = refl

migrated-constraints : (T : TableName) → Perm (migrated T).constraints (declared T).constraints
migrated-constraints payments = perm_append_comm (_ ∷ _ ∷ _ ∷ []) (_ ∷ _ ∷ [])
migrated-constraints idempotency_records = perm_append_comm (_ ∷ []) (_ ∷ [])
migrated-constraints ledger_entries = Perm.refl _
migrated-constraints refunds = perm_append_comm (_ ∷ _ ∷ _ ∷ []) (_ ∷ [])
migrated-constraints webhook_endpoints = Perm.refl _
migrated-constraints jobs = Perm.refl _
migrated-constraints webhook_events = Perm.refl _

before : Known
before = record { free = λ j. member j (created upgrade); tables = []; indexes = [] }

module _ (D : Ddl) {t : D.State} (h : IsKnown D t (learn_all before upgrade)) where
  known-table : (T : TableName) → D.table t (tablename T) ≡ some (migrated T)
  unfolding before
  known-table payments = h.tables _ _ refl
  known-table idempotency_records = h.tables _ _ refl
  known-table ledger_entries = h.tables _ _ refl
  known-table refunds = h.tables _ _ refl
  known-table webhook_endpoints = h.tables _ _ refl
  known-table jobs = h.tables _ _ refl
  known-table webhook_events = h.tables _ _ refl

  known-index : (T : TableName) → AllIndexed D t (tablename T) (declared_indexes T)
  unfolding before
  known-index payments = (h.indexes _ _ refl, (h.indexes _ _ refl, tt))
  known-index idempotency_records = (h.indexes _ _ refl, tt)
  known-index ledger_entries = (h.indexes _ _ refl, (h.indexes _ _ refl, tt))
  known-index refunds = (h.indexes _ _ refl, (h.indexes _ _ refl, tt))
  known-index webhook_endpoints = (h.indexes _ _ refl, tt)
  known-index jobs = (h.indexes _ _ refl, (h.indexes _ _ refl, (h.indexes _ _ refl, tt)))
  known-index webhook_events = (h.indexes _ _ refl, (h.indexes _ _ refl, tt))

-- On a database in which no table and no index has a name that the migration creates, `upgrade`
-- is refused nowhere and makes for each model its table, with the columns and the constraints
-- that the model declares, and its indexes; and `downgrade` then gives the first database back.
pub upgrade-downgrade :
    (D : Ddl) (s : D.State)
    → IsFresh D s
    → (t : D.State) × (run D upgrade s ≡ some t)
      × ((T : TableName) → IsDeclared D t T)
      × ((T : TableName) → AllIndexed D t (tablename T) (declared_indexes T))
      × (run D downgrade t ≡ some s)
unfolding before IsFresh
upgrade-downgrade D s fresh =
    let start : IsKnown D s before = record {
      free = fresh;
      tables = λ j x e. cc e;
      indexes = λ j x e. cc e;
    } in
    let (t, ran, known, back) = run-undo D upgrade start refl in
    (
      t,
      ran,
      λ T. record {
        schema = migrated T;
        there = known-table D known T;
        columns = migrated-columns T;
        constraints = migrated-constraints T;
      },
      known-index D known,
      back,
    )
