-- ===== src/Migrations/Statements.antt =====
-- What the statements of alembic/versions do to a database in Postgres: the errors on names that are
-- taken or missing, on rows that break a constraint, and on what other tables need; and what goes with
-- a table or a column that is dropped. `time` is what now() gives in the transaction.
use spur_api.Base.{
  ℕ, String, Bool, true, false, not, ◌&&◌, ◌||◌, Option, none, some, List, [], ◌∷◌, ◌++◌, map,
  str_eq, if◌then◌else◌, keep_if,
}
use spur_api.Migrations.{
  Value, ColumnType, Default, Column, ForeignKey, Definition, Index, Row, Stored, Schema, Statement,
}
use spur_api.Migrations.Lookups.{
  all, any, has_column, has_name, is_null, is_relation, is_unique, replace, set, sql_eq, table?,
  unset, value,
}

-- The enum types that a table creates with it
abbrev pub enums_of : List Column → List (String × List String)
enums_of [] = []
enums_of (c ∷ cs) = elim c.column_type [
  | ColumnType.enum n labels ↦ (n, labels) ∷ enums_of cs
  | _ ↦ enums_of cs
]

abbrev pub has_enum : List (String × List String) → String × List String → Bool
has_enum enums e = any (λ (k : String × List String). str_eq e.0 k.0) enums

-- The column that a foreign key names is there: in the table that is created, or in another.
abbrev pub refers : Option Stored → String → Bool
refers none c = false
refers (some t) c = has_column c t.definition

abbrev pub can_refer : Schema → ForeignKey → Bool
can_refer db k = refers (table? k.referred_table db.tables) k.referred_column

-- `CREATE TYPE` for the enums, which fails if one is there, and `CREATE TABLE`
abbrev pub create : Definition → Schema → Option Schema
create d db =
    if is_relation d.name db
      || any (has_enum db.enums) (enums_of d.columns)
      || not (all (can_refer db) d.foreign_keys)
    then none
    else some record {
      enums = enums_of d.columns ++ db.enums;
      tables = record { definition = d; rows = [] } ∷ db.tables;
      indexes = db.indexes;
    }

abbrev pub refers_to : String → Stored → Bool
refers_to n t =
    not (str_eq n t.definition.name)
    && any (λ (k : ForeignKey). str_eq n k.referred_table) t.definition.foreign_keys

-- `DROP TABLE`: refused while another table refers to it; its indexes go with it, an enum type does
-- not.
abbrev pub drop_table : String → Schema → Option Schema
drop_table n db =
    if not (any (λ (t : Stored). str_eq n t.definition.name) db.tables)
      || any (refers_to n) db.tables
    then none
    else some record {
      enums = db.enums;
      tables = keep_if (λ (t : Stored). not (str_eq n t.definition.name)) db.tables;
      indexes = keep_if (λ (i : Index). not (str_eq n i.table_name)) db.indexes;
    }

abbrev pub fits_index : Index → Option Stored → Bool
fits_index i none = false
fits_index i (some t) =
    all (λ c. has_column c t.definition) i.columns && (not i.unique || is_unique i.columns t.rows)

abbrev pub create_index : Index → Schema → Option Schema
create_index i db =
    if is_relation i.name db || not (fits_index i (table? i.table_name db.tables))
    then none
    else some record { enums = db.enums; tables = db.tables; indexes = i ∷ db.indexes }

abbrev pub drop_index : String → Schema → Option Schema
drop_index n db =
    if any (λ (i : Index). str_eq n i.name) db.indexes
    then some record {
      enums = db.enums;
      tables = db.tables;
      indexes = keep_if (λ (i : Index). not (str_eq n i.name)) db.indexes;
    }
    else none

abbrev pub save_table : Schema → Option Stored → Option Schema
save_table db none = none
save_table db (some t) =
    some record { enums = db.enums; tables = replace t db.tables; indexes = db.indexes }

-- ALTER TABLE n
abbrev pub alter : String → (Stored → Option Stored) → Schema → Option Schema
alter n change db = elim (table? n db.tables) [ none ↦ none | some t ↦ save_table db (change t) ]

abbrev pub filled : ℕ → Option Default → Value
filled time none = Value.null
filled time (some Default.now) = Value.timestamp time
filled time (some (Default.literal v)) = v

abbrev pub is_empty {ℓ} : {A : Type ℓ} → List A → Bool
is_empty [] = true
is_empty (x ∷ xs) = false

-- ADD COLUMN: the rows there are get the default, or null, which NOT NULL refuses.
abbrev pub with_column : ℕ → Column → Stored → Option Stored
with_column time c t =
    let d = t.definition in
    let v = filled time c.server_default in
    if has_column c.name d || (not c.nullable && is_null v && not (is_empty t.rows))
    then none
    else some record {
      definition = record {
        name = d.name;
        columns = d.columns ++ c ∷ [];
        primary_key = d.primary_key;
        foreign_keys = d.foreign_keys;
      };
      rows = map (λ r. r ++ (c.name, v) ∷ []) t.rows;
    }

-- DROP COLUMN: the table's indexes and foreign keys on it go with it.
abbrev pub without_column : String → Stored → Option Stored
without_column c t =
    let d = t.definition in
    if has_column c d
    then some record {
      definition = record {
        name = d.name;
        columns = keep_if (λ (k : Column). not (str_eq c k.name)) d.columns;
        primary_key = keep_if (λ k. not (str_eq c k)) d.primary_key;
        foreign_keys = keep_if (λ (k : ForeignKey). not (str_eq c k.column)) d.foreign_keys;
      };
      rows = map (unset c) t.rows;
    }
    else none

abbrev pub refers_to_column : String → String → Stored → Bool
refers_to_column n c t =
    any (λ (k : ForeignKey). str_eq n k.referred_table && str_eq c k.referred_column)
      t.definition.foreign_keys

abbrev pub drop_column : String → String → Schema → Option Schema
drop_column n c db =
    if any (refers_to_column n c) db.tables
    then none
    else alter n (without_column c) record {
      enums = db.enums;
      tables = db.tables;
      indexes =
          keep_if (λ (i : Index). not (str_eq n i.table_name && has_name c i.columns)) db.indexes;
    }

abbrev pub same_name : Option String → Option String → Bool
same_name none o = false
same_name (some n) none = false
same_name (some n) (some m) = str_eq n m

-- Each value of the column is null or in the table that it refers to.
abbrev pub rows_fit : Schema → ForeignKey → List Row → Bool
rows_fit db k rows = elim (table? k.referred_table db.tables) [
  | none ↦ false
  | some u ↦
      all
        (λ r.
          is_null (value k.column r)
          || any (λ r'. sql_eq (value k.column r) (value k.referred_column r')) u.rows)
        rows
]

abbrev pub with_foreign_key : Schema → ForeignKey → Stored → Option Stored
with_foreign_key db k t =
    let d = t.definition in
    if any (λ (l : ForeignKey). same_name k.name l.name) d.foreign_keys
      || not (has_column k.column d && can_refer db k && rows_fit db k t.rows)
    then none
    else some record {
      definition = record {
        name = d.name;
        columns = d.columns;
        primary_key = d.primary_key;
        foreign_keys = d.foreign_keys ++ k ∷ [];
      };
      rows = t.rows;
    }

abbrev pub without_constraint : String → Stored → Option Stored
without_constraint n t =
    let d = t.definition in
    if any (λ (l : ForeignKey). same_name (some n) l.name) d.foreign_keys
    then some record {
      definition = record {
        name = d.name;
        columns = d.columns;
        primary_key = d.primary_key;
        foreign_keys = keep_if (λ (l : ForeignKey). not (same_name (some n) l.name)) d.foreign_keys;
      };
      rows = t.rows;
    }
    else none

abbrev pub assigned : String → String → Stored → Option Stored
assigned target source t =
    if has_column target t.definition && has_column source t.definition
    then some
        record { definition = t.definition; rows = map (λ r. set target (value source r) r) t.rows }
    else none

unfoldable pub execute : ℕ → Statement → Schema → Option Schema
execute time (Statement.create_table d) db = create d db
execute time (Statement.drop_table n) db = drop_table n db
execute time (Statement.create_index i) db = create_index i db
execute time (Statement.drop_index i) db = drop_index i.name db
execute time (Statement.add_column n c) db = alter n (with_column time c) db
execute time (Statement.drop_column n c) db = drop_column n c db
execute time (Statement.create_foreign_key n k) db = alter n (with_foreign_key db k) db
execute time (Statement.drop_constraint c n) db = alter n (without_constraint c) db
execute time (Statement.update_set n target source) db = alter n (assigned target source) db

-- One statement after the other, up to the first that raises
unfoldable pub execute_all : ℕ → List Statement → Schema → Option Schema
unfolding execute
execute_all time [] db = some db
execute_all time (a ∷ as') db = elim (execute time a db) [
  | none ↦ none
  | some db' ↦ execute_all time as' db'
]
