-- ===== src/Tests/Migrations.antt =====
-- The migrations, beside the table that alembic keeps for itself.
use spur_api.Inputs.{inputs_differ_refl}
use spur_api.Base.{arith}
use spur_api.Base.{ℕ, ◌≡◌, refl, true, false, none, some, List, [], ◌∷◌, ◌++◌}
use mathlib.Core.List.{Perm}
use spur_api.Database.{ProjectRow, SimulationRunRow, RunEventRow}
use spur_api.Consistency.{IsConsistent}
use spur_api.Migrations.{Schema, Stored, Row, ColumnType, Definition}
use spur_api.Migrations.Declared.{declared_tables, declared_indexes, declared_enums, AreTables}
use spur_api.Migrations.Head.{upgrade_head}
use spur_api.Migrations.Undo.{upgrade_undone, upgrade_again, alone}
use spur_api.Migrations.Versions.{
  versions_backfill, versioned_run, versioned_project, with_inputs_version, without_batch,
}
use spur_api.Migrations.Shapes.{runs_at_version, projects_at_version}
use spur_api.Migrations.Typing.{rows_stay_typed, Fits}
use spur_api.Base.{All}
use spur_api.Tests.Samples.{first_body}
use spur_api.Tests.Samples.{created_row, submitted_row, first_body-IsDict, requests}
use spur_api.Migrations.Environment.{do_run_migrations, downgrade_all, pending, upgrade_all}
use spur_api.Migrations.Revisions.{initial_tables, required}
use spur_api.Migrations.Rows.{first_project, first_run, read_all, read_project, read_run}
use spur_api.Migrations.Shapes.{
  all_indexes, database, first_indexes, projects_at_base, projects_with, runs_at_batch, runs_with,
}
use spur_api.Migrations.Statements.{execute_all}

abbrev alembic_version : Definition
alembic_version = record {
  name = "alembic_version";
  columns = required "version_num" ColumnType.string ∷ [];
  primary_key = "version_num" ∷ [];
  foreign_keys = [];
}

abbrev new_database : Schema
new_database = record {
  enums = [];
  tables = record { definition = alembic_version; rows = [] } ∷ [];
  indexes = [];
}

upgrade_head_example :
    (db' : Schema) × (do_run_migrations 0 (none, new_database) ≡ (true, some "a4c1e9b27d36", db'))
    × ((tables : List Stored) × (db'.tables ≡ tables ++ new_database.tables)
        × AreTables declared_tables tables)
    × Perm db'.indexes (declared_indexes ++ [])
    × (db'.enums ≡ declared_enums ++ [])
upgrade_head_example = upgrade_head 0 new_database (
  (
    (refl, refl),
    (
      (refl, refl),
      (
        (refl, refl),
        ((refl, refl), ((refl, refl), ((refl, refl), ((refl, refl), ((refl, refl), tt))))),
      ),
    ),
  ),
  refl,
)

-- A project, and a run of it, in the tables of the first revision
abbrev first_tables : Schema
first_tables =
    database new_database (runs_with []) (projects_with [] []) first_indexes
      ([], first_run submitted_row ∷ [], first_project created_row ∷ [])

rows_stay_typed_example :
    (rr pr : List Row) × (do_run_migrations 0 (some "695c06727c20", first_tables) ≡ (
      true,
      some "a4c1e9b27d36",
      database new_database runs_at_batch projects_at_base all_indexes ([], rr, pr),
    ))
    × All (Fits runs_at_batch.columns) rr
    × All (Fits projects_at_base.columns) pr
unfolding requests
rows_stay_typed_example =
    rows_stay_typed 0 new_database [] (first_run submitted_row ∷ [])
      (first_project created_row ∷ []) (refl, refl) (refl, refl)
      (
        (
          refl,
          tt,
          (
            refl,
            tt,
            (
              refl,
              refl,
              (
                refl,
                refl,
                (
                  refl,
                  refl,
                  (
                    refl,
                    refl,
                    (
                      refl,
                      tt,
                      (refl, refl, (refl, tt, (refl, tt, (refl, refl, (refl, refl, tt))))),
                    ),
                  ),
                ),
              ),
            ),
          ),
        ),
        tt,
      )
      ((refl, tt, (refl, tt, (refl, tt, (refl, tt, (refl, tt, (refl, tt, (refl, tt, tt))))))), tt)

abbrev own_tables : Schema
own_tables =
    database (alone 0 []) (runs_with []) (projects_with [] []) first_indexes
      ([], first_run submitted_row ∷ [], first_project created_row ∷ [])

upgrade_undone_example :
    (db : Schema) × (upgrade_all 0 (pending (some "695c06727c20")) own_tables ≡ some db)
    × (downgrade_all 0 (pending (some "695c06727c20")) db ≡ some own_tables)
unfolding requests
upgrade_undone_example = upgrade_undone 0 [] [] (submitted_row ∷ []) (created_row ∷ [])

upgrade_again_example :
    (db : Schema) × (execute_all 0 initial_tables.downgrade own_tables ≡ some db)
    × (db.tables ≡ [])
    × (do_run_migrations 0 (none, db) ≡ (false, none, db))
unfolding requests
upgrade_again_example =
    upgrade_again 0 [] [] (first_run submitted_row ∷ []) (first_project created_row ∷ [])

-- The project at version 1, and a run of that version
versions_backfill_example :
    (pr rr : List Row) × (ps' : List ProjectRow) × (rs' : List SimulationRunRow)
    × (do_run_migrations 0 (
      some "d5e8f1a3c720",
      database new_database runs_at_version projects_at_version first_indexes
          ([], versioned_run submitted_row ∷ [], versioned_project created_row ∷ []),
    )
        ≡ (
          true,
          some "a4c1e9b27d36",
          database new_database runs_at_batch projects_at_base all_indexes ([], rr, pr),
        ))
    × (read_all read_project pr ≡ some ps')
    × (read_all read_run rr ≡ some rs')
    × (ps' ≡ with_inputs_version created_row ∷ [])
    × (rs' ≡ without_batch submitted_row ∷ [])
    × ((es : List RunEventRow) (jobs : List ℕ)
        → IsConsistent
            record { projects = ps'; simulation_runs = rs'; run_events = es; jobs = jobs })
unfolding requests
versions_backfill_example =
    versions_backfill 0 new_database [] (created_row ∷ []) (submitted_row ∷ []) (refl, refl)
      (refl, refl)
      record {
        projects_keyed = (refl, tt);
        runs_keyed = (refl, tt);
        counted = ((omega arith, first_body-IsDict), tt);
        ran = ((omega arith, λ e. inputs_differ_refl first_body.dump first_body-IsDict), tt);
      }
