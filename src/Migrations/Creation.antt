-- ===== src/Migrations/Creation.antt =====
-- alembic/versions/695c06727c20_initial_tables.py: what its upgrade makes of a database that has
-- none of its names.
use spur_api.Base.{ℕ, ◌≡◌, refl, true, false, some, List, [], ◌∷◌, ◌++◌, ◌||◌, Bool, arith}
use spur_api.Migrations.{Definition, Index, Schema, Statement, Revision}
use spur_api.Migrations.Environment.{upgrade_all}
use spur_api.Migrations.Lookups.{all, any, is_relation, table?}
use spur_api.Migrations.Revisions.{
  by_component, by_seq, by_train, first_projects, first_run_events, first_simulation_runs,
  initial_tables,
}
use spur_api.Migrations.Shapes.{IsFresh, database, first_indexes, projects_with, runs_with}
use spur_api.Migrations.Statements.{
  can_refer, create, create_index, enums_of, execute, execute_all, fits_index, has_enum,
}

pub or_false : (a b : Bool) → a ≡ false → b ≡ false → (a || b) ≡ false
or_false a b ha hb = ground arith

create_lem :
    (d : Definition) (db : Schema)
    → is_relation d.name db ≡ false
    → any (has_enum db.enums) (enums_of d.columns) ≡ false
    → all (can_refer db) d.foreign_keys ≡ true
    → create d db
      ≡ some record {
        enums = enums_of d.columns ++ db.enums;
        tables = record { definition = d; rows = [] } ∷ db.tables;
        indexes = db.indexes;
      }
create_lem d db name enums keys = rw (name, enums, keys) refl

pub create_index_lem :
    (i : Index) (db : Schema)
    → is_relation i.name db ≡ false
    → fits_index i (table? i.table_name db.tables) ≡ true
    → create_index i db
      ≡ some record { enums = db.enums; tables = db.tables; indexes = i ∷ db.indexes }
create_index_lem i db name fits = rw (name, fits) refl

module _ (time : ℕ) where
  pub execute_all-step :
      (a : Statement) (as' : List Statement) (db db' : Schema)
      → execute time a db ≡ some db'
      → execute_all time (a ∷ as') db ≡ execute_all time as' db'
  unfolding execute_all
  execute_all-step a as' db db' e = rw (execute_all, e) refl

  pub upgrade_all-step :
      (r : Revision) (rs : List Revision) (db db' : Schema)
      → execute_all time r.upgrade db ≡ some db'
      → upgrade_all time (r ∷ rs) db ≡ upgrade_all time rs db'
  unfolding upgrade_all
  upgrade_all-step r rs db db' e = rw (upgrade_all, e) refl

  module _ (db : Schema) (fresh : IsFresh db) where
    create_projects : Schema
    create_projects = record {
      enums = db.enums;
      tables = record { definition = first_projects; rows = [] } ∷ db.tables;
      indexes = db.indexes;
    }

    create_runs : Schema
    create_runs = record {
      enums = (database db (runs_with []) (projects_with [] []) [] ([], [], [])).enums;
      tables =
          record { definition = first_simulation_runs; rows = [] }
          ∷ record { definition = first_projects; rows = [] }
          ∷ db.tables;
      indexes = db.indexes;
    }

    initial : List Index → Schema
    initial indexes = database db (runs_with []) (projects_with [] []) indexes ([], [], [])

    creates_projects :
        execute time (Statement.create_table first_projects) db ≡ some create_projects
    unfolding execute create_projects
    creates_projects = create_lem first_projects db (or_false _ _ fresh.0.0.0 fresh.0.0.1) refl refl

    creates_runs :
        execute time (Statement.create_table first_simulation_runs) create_projects
        ≡ some create_runs
    unfolding execute create_projects create_runs
    creates_runs =
        create_lem first_simulation_runs create_projects (or_false _ _ fresh.0.1.0.0 fresh.0.1.0.1)
          (or_false _ _ fresh.1 refl) refl

    creates_events :
        execute time (Statement.create_table first_run_events) create_runs ≡ some (initial [])
    unfolding execute create_runs initial
    creates_events =
        create_lem first_run_events create_runs (or_false _ _ fresh.0.1.1.0.0 fresh.0.1.1.0.1) refl
          refl

    indexes_component :
        execute time (Statement.create_index by_component) (initial [])
        ≡ some (initial (by_component ∷ []))
    unfolding execute initial
    indexes_component =
        create_index_lem by_component (initial [])
          (or_false _ _ fresh.0.1.1.1.0.0 fresh.0.1.1.1.0.1) refl

    indexes_seq :
        execute time (Statement.create_index by_seq) (initial (by_component ∷ []))
        ≡ some (initial (by_seq ∷ by_component ∷ []))
    unfolding execute initial
    indexes_seq =
        create_index_lem by_seq (initial (by_component ∷ []))
          (or_false _ _ fresh.0.1.1.1.1.0.0 fresh.0.1.1.1.1.0.1) refl

    indexes_train :
        execute time (Statement.create_index by_train) (initial (by_seq ∷ by_component ∷ []))
        ≡ some (initial first_indexes)
    unfolding execute initial
    indexes_train =
        create_index_lem by_train (initial (by_seq ∷ by_component ∷ []))
          (or_false _ _ fresh.0.1.1.1.1.1.0.0 fresh.0.1.1.1.1.1.0.1) refl

    pub initial_tables_lem :
        execute_all time initial_tables.upgrade db
        ≡ some (database db (runs_with []) (projects_with [] []) first_indexes ([], [], []))
    unfolding execute_all initial
    initial_tables_lem =
        rw
          (
            execute_all, creates_projects, creates_runs, creates_events, indexes_component,
            indexes_seq, indexes_train,
          )
          refl
