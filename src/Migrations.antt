-- ===== src/Migrations.antt =====
-- alembic/: a database as its migrations see it (tables with their rows, indexes and enum types), and
-- what the statements do that they send to Postgres. A statement that raises is `none`.
pub mod Lookups
pub mod Statements
pub mod Revisions
pub mod Environment
pub mod Declared
pub mod Shapes
pub mod Creation
pub mod Additions
pub mod Head
pub mod Rows
pub mod Backfill
pub mod Undo
pub mod Versions
pub mod Typing
use spur_api.Base.{
  ◌≡◌, ℕ, String, Bool, true, false, not, ◌&&◌, ◌||◌, Option, none, some, List, [], ◌∷◌, ◌++◌, map,
  str_eq, ◌==◌, if◌then◌else◌, keep_if,
}
use spur_api.Base.Int.{ℤ}
use spur_api.Json.{Fields, eq_fields}

pub data Value : Type 0 where
  null : Value
  uuid : ℕ → Value
  integer : ℤ → Value
  text : String → Value
  jsonb : Fields → Value
  timestamp : ℕ → Value
  boolean : Bool → Value
  label : String → Value

-- The types `sa.UUID`, `sa.String`, ..., and `sa.Enum(..., name=...)`
pub data ColumnType : Type 0 where
  uuid string integer big_integer boolean jsonb utc_date_time : ColumnType
  enum : String → List String → ColumnType

-- `server_default`: `now()`, or a literal
pub data Default : Type 0 where
  now : Default
  literal : Value → Default

pub record Column : Type 0 where
  pub name : String
  pub column_type : ColumnType
  pub nullable : Bool
  pub server_default : Option Default
  pub autoincrement : Bool

pub data OnDelete : Type 0 where
  cascade set_null : OnDelete

pub record ForeignKey : Type 0 where
  pub name : Option String
  pub column : String
  pub referred_table : String
  pub referred_column : String
  pub ondelete : OnDelete

pub record Definition : Type 0 where
  pub name : String
  pub columns : List Column
  pub primary_key : List String
  pub foreign_keys : List ForeignKey

pub record Index : Type 0 where
  pub name : String
  pub table_name : String
  pub columns : List String
  pub unique : Bool

abbrev pub Row : Type 0
Row = List (String × Value)

pub record Stored : Type 0 where
  pub definition : Definition
  pub rows : List Row

pub record Schema : Type 0 where
  pub enums : List (String × List String)
  pub tables : List Stored
  pub indexes : List Index

-- The operations of `alembic.op` that the revisions call.
pub data Statement : Type 0 where
  create_table : Definition → Statement
  drop_table : String → Statement
  create_index drop_index : Index → Statement
  add_column : String → Column → Statement
  drop_column : String → String → Statement
  create_foreign_key : String → ForeignKey → Statement
  drop_constraint : String → String → Statement
  -- UPDATE table SET column = column
  update_set : String → String → String → Statement

pub record Revision : Type 0 where
  pub revision : String
  pub down_revision : Option String
  pub upgrade : List Statement
  pub downgrade : List Statement
