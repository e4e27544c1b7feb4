-- ===== src/Schema/Rollback.antt =====
-- A migration of creations, run on any database that has room for it: a simulation on names and
-- schemas alone tells that no operation is refused, and the drops in reverse order take back what
-- the creations did.
use tru_dev_tasks.Prelude.{
  ◌≡◌, refl, ◌∙◌, arith, String, Bool, true, false, not, ◌&&◌, Option, none, some, List, [], ◌∷◌,
  ◌++◌, any, all_mono,
}
use tru_dev_tasks.Prelude.Dict.{Dict, get}
use tru_dev_tasks.Schema.{
  Constraint, check_in, check_null_or_in, primary_key, unique, foreign_key, TableSchema,
  IndexSchema, Operation, create_table, create_index, drop_index, drop_table,
}
use tru_dev_tasks.Schema.Ddl.{
  Ddl, run, next, member, relations, is_keyed, passes, is_enforceable, has_columns, column_names,
  is_creatable,
}

-- What is known of a database: names that are free, tables and indexes that are there.
pub record Known : Type 0 where
  pub free : String → Bool
  pub tables : Dict TableSchema
  pub indexes : Dict IndexSchema

abbrev table_of : Known → String → Option TableSchema
table_of k j = get j k.tables

-- A creation is sure to succeed, and what is known after it. Drops are not simulated.
abbrev is_sure : Known → Operation → Bool
is_sure k (create_table name schema) = is_creatable k.free (table_of k) name schema
is_sure k (create_index name i) = k.free name && has_columns (table_of k) i
is_sure k _ = false

abbrev learn : Known → Operation → Known
learn k (create_table name schema) = record k {
  free = λ j. k.free j && not (member j (relations name schema));
  tables = (name, schema) ∷ k.tables;
}
learn k (create_index name i) = record k {
  free = λ j. k.free j && not (member j (name ∷ []));
  indexes = (name, i) ∷ k.indexes;
}
learn k _ = k

abbrev pub all_sure : Known → List Operation → Bool
all_sure k [] = true
all_sure k (op ∷ ops) = is_sure k op && all_sure (learn k op) ops

abbrev pub learn_all : Known → List Operation → Known
learn_all k [] = k
learn_all k (op ∷ ops) = learn_all (learn k op) ops

-- The drops that take creations back, the last one first.
abbrev undo : Operation → List Operation
undo (create_table name schema) = drop_table name ∷ []
undo (create_index name i) = drop_index name i.table ∷ []
undo _ = []

abbrev pub undo_all : List Operation → List Operation
undo_all [] = []
undo_all (op ∷ ops) = undo_all ops ++ undo op

passes_mono :
    (test : TableSchema → Bool) (known there : Option TableSchema)
    → ((schema : TableSchema) → known ≡ some schema → there ≡ some schema)
    → passes test known ≡ true
    → passes test there ≡ true
passes_mono test none there h e = cc e
passes_mono test (some schema) there h e = rw (h schema refl) e

module _ {table known : String → Option TableSchema}
    (h : (j : String) (schema : TableSchema) → known j ≡ some schema → table j ≡ some schema) where
  is_enforceable_mono :
      (columns : List String) (k : Constraint)
      → is_enforceable known columns k ≡ true
      → is_enforceable table columns k ≡ true
  is_enforceable_mono columns (foreign_key column other key) e =
      ground (arith, passes_mono (λ schema. any (is_keyed key) schema.constraints) _ _ (h other))
  is_enforceable_mono columns (check_in _ _ _) e = e
  is_enforceable_mono columns (check_null_or_in _ _ _) e = e
  is_enforceable_mono columns (primary_key _) e = e
  is_enforceable_mono columns (unique _ _) e = e

  has_columns_mono : (i : IndexSchema) → has_columns known i ≡ true → has_columns table i ≡ true
  has_columns_mono i = passes_mono _ _ _ (h i.table)

  is_creatable_mono :
      {free known_free : String → Bool} (name : String) (schema : TableSchema)
      → ((j : String) → known_free j ≡ true → free j ≡ true)
      → is_creatable known_free known name schema ≡ true
      → is_creatable free table name schema ≡ true
  is_creatable_mono name schema h_free e = ground (
    arith,
    all_mono (relations name schema) h_free,
    all_mono schema.constraints (is_enforceable_mono (column_names schema)),
  )

next-next {ℓ} :
    {A : Type ℓ} (f g : A → Option A) {h : A → Option A}
    → ((a : A) → h a ≡ next g (f a))
    → (o : Option A) → next h o ≡ next g (next f o)
next-next f g e none = refl
next-next f g e (some a) = e a

module _ (D : Ddl) where
  pub record IsKnown (s : D.State) (k : Known) : Type 0 where
    pub free : (j : String) → k.free j ≡ true → D.free s j ≡ true
    pub tables : (j : String) (x : TableSchema) → get j k.tables ≡ some x → D.table s j ≡ some x
    pub indexes : (j : String) (x : IndexSchema) → get j k.indexes ≡ some x → D.index s j ≡ some x

  run-append :
      (ops more : List Operation) (s : D.State)
      → run D (ops ++ more) s ≡ next (run D more) (run D ops s)
  run-append [] more s = refl
  run-append (op ∷ ops) more s =
      next-next (run D ops) (run D more) (run-append ops more) (D.execute op s)

  -- One creation that is sure to succeed, and the drop that takes it back.
  step-undo :
      (op : Operation) {s : D.State} {k : Known}
      → IsKnown s k
      → is_sure k op ≡ true
      → (t : D.State) × (D.execute op s ≡ some t)
        × IsKnown t (learn k op)
        × (run D (undo op) t ≡ some s)
  step-undo (create_table name schema) {s} {k} h e =
      let (t, ran, free, table, index) =
        D.execute-create_table s name schema (is_creatable_mono h.tables name schema h.free e) in
      (
        t,
        ran,
        record {
          free = λ j p. ground (arith, free j, h.free j);
          tables = λ j x p. ground (arith, table j, h.tables j x);
          indexes = λ j x p. index j ∙ h.indexes j x p;
        },
        rw (D.drop_table-create_table ran) refl,
      )
  step-undo (create_index name i) {s} {k} h e =
      let (t, ran, free, table, index) =
        D.execute-create_index s name i
          (ground (arith, h.free name, has_columns_mono h.tables i)) in
      (
        t,
        ran,
        record {
          free = λ j p. ground (arith, free j, h.free j);
          tables = λ j x p. table j ∙ h.tables j x p;
          indexes = λ j x p. ground (arith, index j, h.indexes j x);
        },
        rw (D.drop_index-create_index ran) refl,
      )
  step-undo (drop_index name i) h e = cc e
  step-undo (drop_table name) h e = cc e

  -- Creations that are all sure to succeed, and the drops that take them back.
  pub run-undo :
      (ops : List Operation) {s : D.State} {k : Known}
      → IsKnown s k
      → all_sure k ops ≡ true
      → (t : D.State) × (run D ops s ≡ some t)
        × IsKnown t (learn_all k ops)
        × (run D (undo_all ops) t ≡ some s)
  run-undo [] {s} h e = (s, refl, h, refl)
  run-undo (op ∷ ops) {s} {k} h e =
      let (t, ran, h', back) = step-undo op h (ground arith) in
      let (u, ran', h'', back') = run-undo ops h' (ground arith) in
      (u, rw (ran, ran') refl, h'', run-append (undo_all ops) (undo op) u ∙ rw (back', back) refl)
