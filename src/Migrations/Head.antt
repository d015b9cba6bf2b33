-- ===== src/Migrations/Head.antt =====
-- alembic/versions: all the upgrades in a row, from an empty database and from the first tables with
-- the rows in them.
use spur_api.Base.{◌∙◌, ℕ, ◌≡◌, refl, true, Option, none, some, List, [], ◌∷◌, ◌++◌, map, All}
use spur_api.Migrations.{Schema, Stored, Row, Revision}
use spur_api.Migrations.Declared.{
  declared_tables, declared_indexes, declared_enums, AreTables, arrange-Perm,
}
use mathlib.Core.List.{Perm}
use mathlib.Core.List.Perm
use spur_api.Migrations.Additions.{
  add_base_project_id_lem, add_batch_id_lem, add_inputs_version_lem, add_name_lem,
  add_project_versions_lem, add_seed_lem, add_spec_snapshot_lem, add_until_target_lem,
}
use spur_api.Migrations.Creation.{initial_tables_lem, upgrade_all-step}
use spur_api.Migrations.Environment.{do_run_migrations, pending, upgrade_all}
use spur_api.Migrations.Lookups.{set, value}
use spur_api.Migrations.Revisions.{
  add_base_project_id, add_batch_id, add_inputs_version, add_name, add_project_versions, add_seed,
  add_spec_snapshot, add_until_target, by_batch, first_run_events, initial_tables,
}
use spur_api.Migrations.Shapes.{
  IsFree, IsFresh, Lacks, all_indexes, database, first_indexes, projects_at_base,
  projects_at_inputs, projects_at_version, projects_with, runs_at_batch, runs_at_name, runs_at_seed,
  runs_at_snapshot, runs_at_target, runs_at_version, runs_with, with_null, with_one,
}
use spur_api.Migrations.Statements.{execute_all}

-- A row of projects after the upgrades, and one of simulation_runs
abbrev pub with_versions : List Row → List Row
with_versions ps =
    map (λ r. set "inputs_version" (value "version" r) r)
      (with_one "inputs_version" (with_one "version" ps))

abbrev pub with_nulls : List Row → List Row
with_nulls rs =
    with_null "project_version" (
      with_null "name" (with_null "until_target" (with_null "spec_snapshot" (with_null "seed" rs))))

-- The two indexes and the tables beside those of the first revision can be made.
abbrev pub CanUpgrade : Schema → List Row → Type 0
CanUpgrade db ps =
    IsFree db "ix_simulation_runs_batch_id"
    × IsFree db "ix_projects_base_project_id"
    × All (Lacks "base_project_id") (with_versions ps)

head_tables : List Stored
head_tables =
    record { definition = first_run_events; rows = [] }
    ∷ record { definition = runs_at_batch; rows = [] }
    ∷ record { definition = projects_at_base; rows = [] }
    ∷ []

head_tables-AreTables : AreTables declared_tables head_tables
unfolding head_tables
head_tables-AreTables = (
  record { named = refl; columns = Perm.refl _; keyed = refl; foreign_keys = refl; empty = refl },
  (
    record {
      named = refl;
      columns = arrange-Perm (0 ∷ 0 ∷ 0 ∷ 12 ∷ 0 ∷ 10 ∷ 0 ∷ 7 ∷ 9 ∷ 7 ∷ 7 ∷ []) _;
      keyed = refl;
      foreign_keys = refl;
      empty = refl;
    },
    (
      record {
        named = refl;
        columns = arrange-Perm (0 ∷ 0 ∷ 0 ∷ 0 ∷ 0 ∷ 2 ∷ 2 ∷ 2 ∷ []) _;
        keyed = refl;
        foreign_keys = refl;
        empty = refl;
      },
      tt,
    ),
  ),
)

module _ (time : ℕ) (db : Schema) where
  pub step :
      (r : Revision) (rs : List Revision) (db1 : Schema) {db2 : Schema} {o : Option Schema}
      → execute_all time r.upgrade db1 ≡ some db2
      → upgrade_all time rs db2 ≡ o
      → upgrade_all time (r ∷ rs) db1 ≡ o
  step r rs db1 {db2} e rest = upgrade_all-step time r rs db1 db2 e ∙ rest

  pub upgrade_from_first :
      (es rs ps : List Row)
      → CanUpgrade db ps
      → upgrade_all time
          (pending (some "695c06727c20"))
          (database db (runs_with []) (projects_with [] []) first_indexes (es, rs, ps))
        ≡ some (
            database db runs_at_batch projects_at_base all_indexes (
              es,
              with_null "batch_id" (with_nulls rs),
              with_null "base_project_id" (with_versions ps),
            ))
  unfolding upgrade_all
  upgrade_from_first es rs ps can =
      let r1 = with_null "seed" rs in
      let r2 = with_null "spec_snapshot" r1 in
      let r3 = with_null "until_target" r2 in
      let r4 = with_null "name" r3 in
      let r5 = with_null "project_version" r4 in
      let p1 = with_one "version" ps in
      let p2 = with_versions ps in
      let r6 = with_null "batch_id" r5 in
      step add_seed (pending (some "891fb8be331c"))
        (database db (runs_with []) (projects_with [] []) first_indexes (es, rs, ps))
        (add_seed_lem time db es rs ps)
        (step add_spec_snapshot (pending (some "a738e8e522d3"))
          (database db runs_at_seed (projects_with [] []) first_indexes (es, r1, ps))
          (add_spec_snapshot_lem time db es r1 ps)
          (step add_until_target (pending (some "01be612f1e22"))
            (database db runs_at_snapshot (projects_with [] []) first_indexes (es, r2, ps))
            (add_until_target_lem time db es r2 ps)
            (step add_name (pending (some "c41d7a9e2b63"))
              (database db runs_at_target (projects_with [] []) first_indexes (es, r3, ps))
              (add_name_lem time db es r3 ps)
              (step add_project_versions (pending (some "d5e8f1a3c720"))
                (database db runs_at_name (projects_with [] []) first_indexes (es, r4, ps))
                (add_project_versions_lem time db es r4 ps)
                (step add_inputs_version (pending (some "e7b2c94d1f05"))
                  (database db runs_at_version projects_at_version first_indexes (es, r5, p1))
                  (add_inputs_version_lem time db es r5 p1)
                  (step add_batch_id (pending (some "f3a9c0d47e18"))
                    (database db runs_at_version projects_at_inputs first_indexes (es, r5, p2))
                    (add_batch_id_lem time db es r5 p2 can.0)
                    (step add_base_project_id (pending (some "a4c1e9b27d36"))
                      (database db runs_at_batch projects_at_inputs (by_batch ∷ first_indexes)
                        (es, r6, p2))
                      (add_base_project_id_lem time db es r6 p2 can.1 can.2) refl)))))))

  pub upgrade_from_none :
      IsFresh db
      → upgrade_all time (pending none) db
        ≡ some (database db runs_at_batch projects_at_base all_indexes ([], [], []))
  upgrade_from_none fresh =
      let names = fresh.0 in
      step initial_tables (pending (some "695c06727c20")) db (initial_tables_lem time db fresh)
        (upgrade_from_first [] [] [] (names.1.1.1.1.1.1.0, names.1.1.1.1.1.1.1.0, tt))

  -- On a database in which the names of the program's tables, indexes and enum type are free, the
  -- migrations go through and add the tables, indexes and the type that models.py declares, up to
  -- the order of columns and of indexes and the names of foreign keys, and leave what there was.
  pub upgrade_head :
      IsFresh db
      → (db' : Schema) × (do_run_migrations time (none, db) ≡ (true, some "a4c1e9b27d36", db'))
        × ((tables : List Stored) × (db'.tables ≡ tables ++ db.tables)
            × AreTables declared_tables tables)
        × Perm db'.indexes (declared_indexes ++ db.indexes)
        × (db'.enums ≡ declared_enums ++ db.enums)
  unfolding do_run_migrations head_tables
  upgrade_head fresh =
      let head = database db runs_at_batch projects_at_base all_indexes ([], [], []) in
      (
        head,
        rw (do_run_migrations, upgrade_from_none fresh) refl,
        (head_tables, refl, head_tables-AreTables),
        arrange-Perm (3 ∷ 2 ∷ 2 ∷ 1 ∷ 0 ∷ []) head.indexes,
        refl,
      )
