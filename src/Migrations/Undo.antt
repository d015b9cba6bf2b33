-- ===== src/Migrations/Undo.antt =====
-- alembic/versions: what the downgrades give back, and what that of the first revision leaves.
use spur_api.Base.{◌∙◌, ℕ, ◌≡◌, refl, String, false, none, some, List, [], ◌∷◌, map, ap}
use spur_api.Database.{ProjectRow, SimulationRunRow}
use spur_api.Migrations.{Row, Schema, Revision}
use spur_api.Migrations.Head.{with_versions, with_nulls, upgrade_from_first}
use spur_api.Migrations.Backfill.{with_versions-Lacks}
use spur_api.Migrations.Environment.{do_run_migrations, downgrade_all, pending, upgrade_all}
use spur_api.Migrations.Lookups.{unset}
use spur_api.Migrations.Revisions.{
  add_base_project_id, add_batch_id, add_inputs_version, add_name, add_project_versions, add_seed,
  add_spec_snapshot, add_until_target, by_batch, initial_tables,
}
use spur_api.Migrations.Rows.{first_project, first_run}
use spur_api.Migrations.Shapes.{
  all_indexes, database, first_indexes, projects_at_base, projects_at_inputs, projects_at_version,
  projects_with, runs_at_batch, runs_at_name, runs_at_seed, runs_at_snapshot, runs_at_target,
  runs_at_version, runs_with, with_null,
}
use spur_api.Migrations.Statements.{execute, execute_all}

runs_undone :
    (rs : List SimulationRunRow)
    → map (unset "seed") (
        map (unset "spec_snapshot") (
          map (unset "until_target") (
            map (unset "name") (
              map
                (unset "project_version")
                (map (unset "batch_id") (with_null "batch_id" (with_nulls (map first_run rs))))))))
      ≡ map first_run rs
runs_undone [] = refl
runs_undone (r ∷ rs) = ap (λ l. first_run r ∷ l) (runs_undone rs)

projects_undone :
    (ps : List ProjectRow)
    → map (unset "version") (
        map (unset "inputs_version") (
          map
            (unset "base_project_id")
            (with_null "base_project_id" (with_versions (map first_project ps)))))
      ≡ map first_project ps
projects_undone [] = refl
projects_undone (p ∷ ps) = ap (λ l. first_project p ∷ l) (projects_undone ps)

module _ (time : ℕ) (enums : List (String × List String)) where
  -- No tables but the program's
  abbrev pub alone : Schema
  alone = record { enums = enums; tables = []; indexes = [] }

  module _ (es rs ps : List Row) where
    undo_add_seed :
        execute_all time add_seed.downgrade
          (database alone runs_at_seed (projects_with [] []) first_indexes (es, rs, ps))
        ≡ some (
            database alone
              (runs_with [])
              (projects_with [] [])
              first_indexes
              (es, map (unset "seed") rs, ps))
    unfolding execute_all execute
    undo_add_seed = refl

    undo_add_spec_snapshot :
        execute_all time add_spec_snapshot.downgrade
          (database alone runs_at_snapshot (projects_with [] []) first_indexes (es, rs, ps))
        ≡ some (
            database alone runs_at_seed
              (projects_with [] [])
              first_indexes
              (es, map (unset "spec_snapshot") rs, ps))
    unfolding execute_all execute
    undo_add_spec_snapshot = refl

    undo_add_until_target :
        execute_all time add_until_target.downgrade
          (database alone runs_at_target (projects_with [] []) first_indexes (es, rs, ps))
        ≡ some (
            database alone runs_at_snapshot
              (projects_with [] [])
              first_indexes
              (es, map (unset "until_target") rs, ps))
    unfolding execute_all execute
    undo_add_until_target = refl

    undo_add_name :
        execute_all time add_name.downgrade
          (database alone runs_at_name (projects_with [] []) first_indexes (es, rs, ps))
        ≡ some (
            database alone runs_at_target
              (projects_with [] [])
              first_indexes
              (es, map (unset "name") rs, ps))
    unfolding execute_all execute
    undo_add_name = refl

    undo_add_project_versions :
        execute_all time add_project_versions.downgrade
          (database alone runs_at_version projects_at_version first_indexes (es, rs, ps))
        ≡ some (
            database alone runs_at_name
              (projects_with [] [])
              first_indexes
              (es, map (unset "project_version") rs, map (unset "version") ps))
    unfolding execute_all execute
    undo_add_project_versions = refl

    undo_add_inputs_version :
        execute_all time add_inputs_version.downgrade
          (database alone runs_at_version projects_at_inputs first_indexes (es, rs, ps))
        ≡ some (
            database alone runs_at_version projects_at_version first_indexes
              (es, rs, map (unset "inputs_version") ps))
    unfolding execute_all execute
    undo_add_inputs_version = refl

    undo_add_batch_id :
        execute_all time add_batch_id.downgrade
          (database alone runs_at_batch projects_at_inputs (by_batch ∷ first_indexes) (es, rs, ps))
        ≡ some (
            database alone runs_at_version projects_at_inputs first_indexes
              (es, map (unset "batch_id") rs, ps))
    unfolding execute_all execute
    undo_add_batch_id = refl

    undo_add_base_project_id :
        execute_all time add_base_project_id.downgrade
          (database alone runs_at_batch projects_at_base all_indexes (es, rs, ps))
        ≡ some (
            database alone runs_at_batch projects_at_inputs
              (by_batch ∷ first_indexes)
              (es, rs, map (unset "base_project_id") ps))
    unfolding execute_all execute
    undo_add_base_project_id = refl

    undo_initial_tables :
        execute_all time initial_tables.downgrade
          (database alone (runs_with []) (projects_with [] []) first_indexes (es, rs, ps))
        ≡ some record {
          enums =
              ("runstatus", "QUEUED" ∷ "RUNNING" ∷ "COMPLETED" ∷ "FAILED" ∷ "CANCELLED" ∷ [])
              ∷ enums;
          tables = [];
          indexes = [];
        }
    unfolding execute_all execute
    undo_initial_tables = refl

  undo :
      (r : Revision) (rs : List Revision) (db db1 db2 : Schema)
      → downgrade_all time rs db ≡ some db1
      → execute_all time r.downgrade db1 ≡ some db2
      → downgrade_all time (r ∷ rs) db ≡ some db2
  unfolding downgrade_all
  undo r rs db db1 db2 later e = rw (downgrade_all, later, e) refl

  -- Where there are no tables but the program's, upgrading the first revision to the head and
  -- downgrading back to it gives back the tables, the indexes, the type and all rows of the first
  -- revision.
  pub upgrade_undone :
      (es : List Row) (rs : List SimulationRunRow) (ps : List ProjectRow)
      → (db : Schema) × (upgrade_all time (pending (some "695c06727c20")) (
            database alone
              (runs_with [])
              (projects_with [] [])
              first_indexes
              (es, map first_run rs, map first_project ps))
          ≡ some db)
        × (downgrade_all time (pending (some "695c06727c20")) db
            ≡ some (
                database alone
                  (runs_with [])
                  (projects_with [] [])
                  first_indexes
                  (es, map first_run rs, map first_project ps)))
  unfolding downgrade_all
  upgrade_undone es rs ps =
      let r8 = with_null "batch_id" (with_nulls (map first_run rs)) in
      let p8 = with_null "base_project_id" (with_versions (map first_project ps)) in
      let p7 = map (unset "base_project_id") p8 in
      let r6 = map (unset "batch_id") r8 in
      let p5 = map (unset "inputs_version") p7 in
      let r4 = map (unset "project_version") r6 in
      let p4 = map (unset "version") p5 in
      let r3 = map (unset "name") r4 in
      let r2 = map (unset "until_target") r3 in
      let r1 = map (unset "spec_snapshot") r2 in
      let r0 = map (unset "seed") r1 in
      (
        (database alone runs_at_batch projects_at_base all_indexes (es, r8, p8)),
        upgrade_from_first time alone es (map first_run rs) (map first_project ps)
            ((refl, refl), (refl, refl), with_versions-Lacks ps),
        undo add_seed (pending (some "891fb8be331c"))
              (database alone runs_at_batch projects_at_base all_indexes (es, r8, p8))
              (database alone runs_at_seed (projects_with [] []) first_indexes (es, r1, p4))
              (database alone (runs_with []) (projects_with [] []) first_indexes (es, r0, p4))
              (undo add_spec_snapshot (pending (some "a738e8e522d3"))
                (database alone runs_at_batch projects_at_base all_indexes (es, r8, p8))
                (database alone runs_at_snapshot (projects_with [] []) first_indexes (es, r2, p4))
                (database alone runs_at_seed (projects_with [] []) first_indexes (es, r1, p4))
                (undo add_until_target (pending (some "01be612f1e22"))
                  (database alone runs_at_batch projects_at_base all_indexes (es, r8, p8))
                  (database alone runs_at_target (projects_with [] []) first_indexes (es, r3, p4))
                  (database alone runs_at_snapshot (projects_with [] []) first_indexes (es, r2, p4))
                  (undo add_name (pending (some "c41d7a9e2b63"))
                    (database alone runs_at_batch projects_at_base all_indexes (es, r8, p8))
                    (database alone runs_at_name (projects_with [] []) first_indexes (es, r4, p4))
                    (database alone runs_at_target (projects_with [] []) first_indexes (es, r3, p4))
                    (undo add_project_versions (pending (some "d5e8f1a3c720"))
                      (database alone runs_at_batch projects_at_base all_indexes (es, r8, p8))
                      (database alone runs_at_version projects_at_version first_indexes
                        (es, r6, p5))
                      (database alone runs_at_name (projects_with [] []) first_indexes (es, r4, p4))
                      (undo add_inputs_version (pending (some "e7b2c94d1f05"))
                        (database alone runs_at_batch projects_at_base all_indexes (es, r8, p8))
                        (database alone runs_at_version projects_at_inputs first_indexes
                          (es, r6, p7))
                        (database alone runs_at_version projects_at_version first_indexes
                          (es, r6, p5))
                        (undo add_batch_id (pending (some "f3a9c0d47e18"))
                          (database alone runs_at_batch projects_at_base all_indexes (es, r8, p8))
                          (database alone runs_at_batch projects_at_inputs
                            (by_batch ∷ first_indexes) (es, r8, p7))
                          (database alone runs_at_version projects_at_inputs first_indexes
                            (es, r6, p7))
                          (undo add_base_project_id (pending (some "a4c1e9b27d36"))
                            (database alone runs_at_batch projects_at_base all_indexes (es, r8, p8))
                            (database alone runs_at_batch projects_at_base all_indexes (es, r8, p8))
                            (database alone runs_at_batch projects_at_inputs
                              (by_batch ∷ first_indexes) (es, r8, p7))
                            (refl) (undo_add_base_project_id es r8 p8))
                          (undo_add_batch_id es r8 p7))
                        (undo_add_inputs_version es r6 p7))
                      (undo_add_project_versions es r6 p5))
                    (undo_add_name es r4 p4))
                  (undo_add_until_target es r3 p4))
                (undo_add_spec_snapshot es r2 p4))
              (undo_add_seed es r1 p4)
            ∙ ap some (
                ap (database alone (runs_with []) (projects_with [] []) first_indexes)
                  (rw (runs_undone rs, projects_undone ps) refl)),
      )

  -- Where there are no tables but the program's, the downgrade of the first revision drops them
  -- all, and yet the migrations raise if they are run again, and change nothing: the enum type is
  -- left.
  pub upgrade_again :
      (es rs ps : List Row)
      → (db : Schema) × (execute_all time initial_tables.downgrade
            (database alone (runs_with []) (projects_with [] []) first_indexes (es, rs, ps))
          ≡ some db)
        × (db.tables ≡ [])
        × (do_run_migrations time (none, db) ≡ (false, none, db))
  unfolding do_run_migrations execute_all execute
  upgrade_again es rs ps = (_, undo_initial_tables es rs ps, refl, refl)
