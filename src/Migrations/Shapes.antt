-- ===== src/Migrations/Shapes.antt =====
-- alembic/versions: the tables between one revision and the next, with their rows.
use spur_api.Base.{◌≡◌, String, true, false, List, [], ◌∷◌, ◌++◌, map, All, str_eq, Bool, ◌&&◌, not}
use spur_api.Base.Int.{pos}
use spur_api.Migrations.{
  Value, Column, ColumnType, ForeignKey, Definition, Index, Schema, Stored, Row,
}
use spur_api.Migrations.Lookups.{any}
use spur_api.Migrations.Revisions.{
  base_key, by_base, by_batch, by_component, by_seq, by_train, defaulted, first_projects,
  first_run_events, first_simulation_runs, nullable, one,
}

-- The names that the upgrades give to tables and indexes
abbrev pub names : List String
names =
    "projects" ∷ "simulation_runs" ∷ "run_events" ∷ "ix_run_events_run_id_component_uid"
    ∷ "ix_run_events_run_id_seq" ∷ "ix_run_events_run_id_train_uid" ∷ "ix_simulation_runs_batch_id"
    ∷ "ix_projects_base_project_id" ∷ []

abbrev pub is_other_table : Schema → String → Bool
is_other_table db n = any (λ (t : Stored). str_eq n t.definition.name) db.tables

abbrev pub is_other_index : Schema → String → Bool
is_other_index db n = any (λ (i : Index). str_eq n i.name) db.indexes

abbrev pub IsFree : Schema → String → Type 0
IsFree db n = (is_other_table db n ≡ false) × (is_other_index db n ≡ false)

-- None of the names is taken, and no enum type is called runstatus.
abbrev pub IsFresh : Schema → Type 0
IsFresh db =
    All (IsFree db) names
    × (any (λ (k : String × List String). str_eq "runstatus" k.0) db.enums ≡ false)

abbrev pub runs_with : List Column → Definition
runs_with columns = record {
  name = "simulation_runs";
  columns = first_simulation_runs.columns ++ columns;
  primary_key = first_simulation_runs.primary_key;
  foreign_keys = first_simulation_runs.foreign_keys;
}

abbrev pub projects_with : List Column → List ForeignKey → Definition
projects_with columns keys = record {
  name = "projects";
  columns = first_projects.columns ++ columns;
  primary_key = first_projects.primary_key;
  foreign_keys = keys;
}

abbrev pub Rows : Type 0
Rows = List Row × List Row × List Row

abbrev pub first_indexes : List Index
first_indexes = by_train ∷ by_seq ∷ by_component ∷ []

-- The program's tables, with the rows of the events, the runs and the projects, beside those of
-- others
abbrev pub database : Schema → Definition → Definition → List Index → Rows → Schema
database db runs projects indexes (es, rs, ps) = record {
  enums =
      ("runstatus", "QUEUED" ∷ "RUNNING" ∷ "COMPLETED" ∷ "FAILED" ∷ "CANCELLED" ∷ []) ∷ db.enums;
  tables =
      record { definition = first_run_events; rows = es }
      ∷ record { definition = runs; rows = rs }
      ∷ record { definition = projects; rows = ps }
      ∷ db.tables;
  indexes = indexes ++ db.indexes;
}

abbrev pub with_null : String → List Row → List Row
with_null c rows = map (λ r. r ++ (c, Value.null) ∷ []) rows

abbrev pub with_one : String → List Row → List Row
with_one c rows = map (λ r. r ++ (c, Value.integer (pos 1)) ∷ []) rows

abbrev pub seed_column : Column
seed_column = nullable "seed" ColumnType.big_integer

abbrev pub spec_snapshot_column : Column
spec_snapshot_column = nullable "spec_snapshot" ColumnType.jsonb

abbrev pub until_target_column : Column
until_target_column = nullable "until_target" ColumnType.integer

abbrev pub name_column : Column
name_column = nullable "name" ColumnType.string

abbrev pub project_version_column : Column
project_version_column = nullable "project_version" ColumnType.integer

abbrev pub batch_id_column : Column
batch_id_column = nullable "batch_id" ColumnType.uuid

abbrev pub base_column : Column
base_column = nullable "base_project_id" ColumnType.uuid

abbrev pub version_column : Column
version_column = defaulted "version" ColumnType.integer one

abbrev pub inputs_version_column : Column
inputs_version_column = defaulted "inputs_version" ColumnType.integer one

-- The columns that each revision finds in simulation_runs and in projects
abbrev pub runs_at_seed : Definition
runs_at_seed = runs_with (seed_column ∷ [])

abbrev pub runs_at_snapshot : Definition
runs_at_snapshot = runs_with (seed_column ∷ spec_snapshot_column ∷ [])

abbrev pub runs_at_target : Definition
runs_at_target = runs_with (seed_column ∷ spec_snapshot_column ∷ until_target_column ∷ [])

abbrev pub runs_at_name : Definition
runs_at_name =
    runs_with (seed_column ∷ spec_snapshot_column ∷ until_target_column ∷ name_column ∷ [])

abbrev pub runs_at_version : Definition
runs_at_version = runs_with (
    seed_column ∷ spec_snapshot_column ∷ until_target_column ∷ name_column ∷ project_version_column
    ∷ [])

abbrev pub runs_at_batch : Definition
runs_at_batch = runs_with (
    seed_column ∷ spec_snapshot_column ∷ until_target_column ∷ name_column ∷ project_version_column
    ∷ batch_id_column ∷ [])

abbrev pub projects_at_version : Definition
projects_at_version = projects_with (version_column ∷ []) []

abbrev pub projects_at_inputs : Definition
projects_at_inputs = projects_with (version_column ∷ inputs_version_column ∷ []) []

abbrev pub projects_at_base : Definition
projects_at_base =
    projects_with (version_column ∷ inputs_version_column ∷ base_column ∷ []) (base_key ∷ [])

abbrev pub all_indexes : List Index
all_indexes = by_base ∷ by_batch ∷ first_indexes

-- A row that has no such column
abbrev pub lacks : String → Row → Bool
lacks c [] = true
lacks c ((n, v) ∷ r) = not (str_eq c n) && lacks c r

abbrev pub Lacks : String → Row → Type 0
Lacks c r = lacks c r ≡ true
