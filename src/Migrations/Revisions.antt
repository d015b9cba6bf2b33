-- ===== src/Migrations/Revisions.antt =====
-- alembic/versions: what each revision does and undoes.
use spur_api.Base.{String, true, false, none, some, List, [], ◌∷◌}
use spur_api.Base.Int.{pos}
use spur_api.Migrations.{
  Value, ColumnType, Default, Column, ForeignKey, Definition, Index, Statement, OnDelete, Revision,
}

abbrev pub required : String → ColumnType → Column
required n t = record {
  name = n;
  column_type = t;
  nullable = false;
  server_default = none;
  autoincrement = false;
}

abbrev pub nullable : String → ColumnType → Column
nullable n t = record {
  name = n;
  column_type = t;
  nullable = true;
  server_default = none;
  autoincrement = false;
}

abbrev pub auto : String → ColumnType → Column
auto n t = record {
  name = n;
  column_type = t;
  nullable = false;
  server_default = none;
  autoincrement = true;
}

abbrev pub defaulted : String → ColumnType → Default → Column
defaulted n t v = record {
  name = n;
  column_type = t;
  nullable = false;
  server_default = some v;
  autoincrement = false;
}

abbrev pub foreign_key : String → String → OnDelete → ForeignKey
foreign_key c t o = record {
  name = none;
  column = c;
  referred_table = t;
  referred_column = "id";
  ondelete = o;
}

abbrev pub index : String → String → List String → Index
index n t cs = record { name = n; table_name = t; columns = cs; unique = false }

abbrev pub unique_index : String → String → List String → Index
unique_index n t cs = record { name = n; table_name = t; columns = cs; unique = true }

abbrev pub run_status : ColumnType
run_status =
    ColumnType.enum "runstatus" ("QUEUED" ∷ "RUNNING" ∷ "COMPLETED" ∷ "FAILED" ∷ "CANCELLED" ∷ [])

-- `server_default='1'`, of an integer column
abbrev pub one : Default
one = Default.literal (Value.integer (pos 1))

-- 695c06727c20
abbrev pub first_projects : Definition
first_projects = record {
  name = "projects";
  columns =
      required "id" ColumnType.uuid
      ∷ nullable "owner" ColumnType.string
      ∷ nullable "name" ColumnType.string
      ∷ required "spur_version" ColumnType.string
      ∷ required "spec" ColumnType.jsonb
      ∷ defaulted "created_at" ColumnType.utc_date_time Default.now
      ∷ defaulted "updated_at" ColumnType.utc_date_time Default.now
      ∷ [];
  primary_key = "id" ∷ [];
  foreign_keys = [];
}

abbrev pub first_simulation_runs : Definition
first_simulation_runs = record {
  name = "simulation_runs";
  columns =
      required "id" ColumnType.uuid
      ∷ required "project_id" ColumnType.uuid
      ∷ required "status" run_status
      ∷ nullable "requested_until" ColumnType.integer
      ∷ nullable "chunk_size" ColumnType.integer
      ∷ nullable "sim_time_now" ColumnType.integer
      ∷ nullable "arq_job_id" ColumnType.string
      ∷ nullable "error_message" ColumnType.string
      ∷ required "cancel_requested" ColumnType.boolean
      ∷ defaulted "created_at" ColumnType.utc_date_time Default.now
      ∷ nullable "started_at" ColumnType.utc_date_time
      ∷ nullable "finished_at" ColumnType.utc_date_time
      ∷ [];
  primary_key = "id" ∷ [];
  foreign_keys = foreign_key "project_id" "projects" OnDelete.cascade ∷ [];
}

abbrev pub first_run_events : Definition
first_run_events = record {
  name = "run_events";
  columns =
      auto "id" ColumnType.integer
      ∷ required "run_id" ColumnType.uuid
      ∷ required "seq" ColumnType.integer
      ∷ required "time" ColumnType.integer
      ∷ required "event" ColumnType.string
      ∷ required "train_uid" ColumnType.string
      ∷ required "component_uid" ColumnType.string
      ∷ required "component_type" ColumnType.string
      ∷ [];
  primary_key = "id" ∷ [];
  foreign_keys = foreign_key "run_id" "simulation_runs" OnDelete.cascade ∷ [];
}

abbrev pub by_component : Index
by_component =
    index "ix_run_events_run_id_component_uid" "run_events" ("run_id" ∷ "component_uid" ∷ [])

abbrev pub by_seq : Index
by_seq = unique_index "ix_run_events_run_id_seq" "run_events" ("run_id" ∷ "seq" ∷ [])

abbrev pub by_train : Index
by_train = index "ix_run_events_run_id_train_uid" "run_events" ("run_id" ∷ "train_uid" ∷ [])

abbrev pub initial_tables : Revision
initial_tables = record {
  revision = "695c06727c20";
  down_revision = none;
  upgrade =
      Statement.create_table first_projects
      ∷ Statement.create_table first_simulation_runs
      ∷ Statement.create_table first_run_events
      ∷ Statement.create_index by_component
      ∷ Statement.create_index by_seq
      ∷ Statement.create_index by_train
      ∷ [];
  downgrade =
      Statement.drop_index by_train
      ∷ Statement.drop_index by_seq
      ∷ Statement.drop_index by_component
      ∷ Statement.drop_table "run_events"
      ∷ Statement.drop_table "simulation_runs"
      ∷ Statement.drop_table "projects"
      ∷ [];
}

-- A revision that adds one nullable column to simulation_runs
abbrev pub adds_to_runs : String → String → String → ColumnType → Revision
adds_to_runs id down c t = record {
  revision = id;
  down_revision = some down;
  upgrade = Statement.add_column "simulation_runs" (nullable c t) ∷ [];
  downgrade = Statement.drop_column "simulation_runs" c ∷ [];
}

abbrev pub add_seed : Revision
add_seed = adds_to_runs "891fb8be331c" "695c06727c20" "seed" ColumnType.big_integer

abbrev pub add_spec_snapshot : Revision
add_spec_snapshot = adds_to_runs "a738e8e522d3" "891fb8be331c" "spec_snapshot" ColumnType.jsonb

abbrev pub add_until_target : Revision
add_until_target = adds_to_runs "01be612f1e22" "a738e8e522d3" "until_target" ColumnType.integer

abbrev pub add_name : Revision
add_name = adds_to_runs "c41d7a9e2b63" "01be612f1e22" "name" ColumnType.string

abbrev pub add_project_versions : Revision
add_project_versions = record {
  revision = "d5e8f1a3c720";
  down_revision = some "c41d7a9e2b63";
  upgrade =
      Statement.add_column "projects" (defaulted "version" ColumnType.integer one)
      ∷ Statement.add_column "simulation_runs" (nullable "project_version" ColumnType.integer)
      ∷ [];
  downgrade =
      Statement.drop_column "simulation_runs" "project_version"
      ∷ Statement.drop_column "projects" "version"
      ∷ [];
}

abbrev pub add_inputs_version : Revision
add_inputs_version = record {
  revision = "e7b2c94d1f05";
  down_revision = some "d5e8f1a3c720";
  upgrade =
      Statement.add_column "projects" (defaulted "inputs_version" ColumnType.integer one)
      ∷ Statement.update_set "projects" "inputs_version" "version"
      ∷ [];
  downgrade = Statement.drop_column "projects" "inputs_version" ∷ [];
}

abbrev pub by_batch : Index
by_batch = index "ix_simulation_runs_batch_id" "simulation_runs" ("batch_id" ∷ [])

abbrev pub by_base : Index
by_base = index "ix_projects_base_project_id" "projects" ("base_project_id" ∷ [])

abbrev pub add_batch_id : Revision
add_batch_id = record {
  revision = "f3a9c0d47e18";
  down_revision = some "e7b2c94d1f05";
  upgrade =
      Statement.add_column "simulation_runs" (nullable "batch_id" ColumnType.uuid)
      ∷ Statement.create_index by_batch
      ∷ [];
  downgrade =
      Statement.drop_index by_batch ∷ Statement.drop_column "simulation_runs" "batch_id" ∷ [];
}

abbrev pub base_key : ForeignKey
base_key = record {
  name = some "fk_projects_base_project_id_projects";
  column = "base_project_id";
  referred_table = "projects";
  referred_column = "id";
  ondelete = OnDelete.set_null;
}

abbrev pub add_base_project_id : Revision
add_base_project_id = record {
  revision = "a4c1e9b27d36";
  down_revision = some "f3a9c0d47e18";
  upgrade =
      Statement.add_column "projects" (nullable "base_project_id" ColumnType.uuid)
      ∷ Statement.create_index by_base
      ∷ Statement.create_foreign_key "projects" base_key
      ∷ [];
  downgrade =
      Statement.drop_constraint "fk_projects_base_project_id_projects" "projects"
      ∷ Statement.drop_index by_base
      ∷ Statement.drop_column "projects" "base_project_id"
      ∷ [];
}
