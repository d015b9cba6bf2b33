-- ===== src/Migrations/Additions.antt =====
-- alembic/versions: what each later upgrade makes of the program's tables, with their rows, beside
-- tables of others.
use spur_api.Base.{
  ◌∙◌, ap, ℕ, ◌≡◌, refl, String, true, false, none, some, List, [], ◌∷◌, ◌++◌, map, All, ◌||◌,
  str_eq, Bool, arith, not, &&-true,
}
use spur_api.Migrations.{Value, Schema, Row, Statement}
use spur_api.Migrations.Creation.{create_index_lem, execute_all-step, or_false}
use spur_api.Migrations.Lookups.{all, any, is_null, set, sql_eq, value}
use spur_api.Migrations.Revisions.{
  add_base_project_id, add_batch_id, add_inputs_version, add_name, add_project_versions, add_seed,
  add_spec_snapshot, add_until_target, base_key, by_base, by_batch,
}
use spur_api.Migrations.Shapes.{
  IsFree, Lacks, all_indexes, base_column, database, first_indexes, inputs_version_column, lacks,
  projects_at_base, projects_at_inputs, projects_at_version, projects_with, runs_at_batch,
  runs_at_name, runs_at_seed, runs_at_snapshot, runs_at_target, runs_at_version, runs_with,
  version_column, with_null, with_one,
}
use spur_api.Migrations.Statements.{execute, execute_all}

not-true : (b : Bool) → not b ≡ true → b ≡ false
not-true b h = ground arith

pub value-added :
    (c : String) (v : Value) (r : Row)
    → str_eq c c ≡ true
    → Lacks c r
    → value c (r ++ (c, v) ∷ []) ≡ v
value-added c v [] same free = rw same refl
value-added c v ((n, w) ∷ r) same free =
    let parts = &&-true (not (str_eq c n)) (lacks c r) free in
    rw (not-true (str_eq c n) parts.0) (value-added c v r same parts.1)

all_null :
    (c : String) (q : Row → Bool) (rows : List Row)
    → str_eq c c ≡ true
    → All (Lacks c) rows
    → all (λ r. is_null (value c r) || q r) (with_null c rows) ≡ true
all_null c q [] same free = refl
all_null c q (r ∷ rows) same free =
    rw (value-added c Value.null r same free.0) (all_null c q rows same free.1)

module _ (time : ℕ) where
  module _ (db : Schema) (es rs ps : List Row) where
    pub add_seed_lem :
        execute_all time add_seed.upgrade
          (database db (runs_with []) (projects_with [] []) first_indexes (es, rs, ps))
        ≡ some (
            database db runs_at_seed
              (projects_with [] [])
              first_indexes
              (es, with_null "seed" rs, ps))
    unfolding execute_all execute
    add_seed_lem = refl

    pub add_spec_snapshot_lem :
        execute_all time add_spec_snapshot.upgrade
          (database db runs_at_seed (projects_with [] []) first_indexes (es, rs, ps))
        ≡ some (
            database db runs_at_snapshot
              (projects_with [] [])
              first_indexes
              (es, with_null "spec_snapshot" rs, ps))
    unfolding execute_all execute
    add_spec_snapshot_lem = refl

    pub add_until_target_lem :
        execute_all time add_until_target.upgrade
          (database db runs_at_snapshot (projects_with [] []) first_indexes (es, rs, ps))
        ≡ some (
            database db runs_at_target
              (projects_with [] [])
              first_indexes
              (es, with_null "until_target" rs, ps))
    unfolding execute_all execute
    add_until_target_lem = refl

    pub add_name_lem :
        execute_all time add_name.upgrade
          (database db runs_at_target (projects_with [] []) first_indexes (es, rs, ps))
        ≡ some (
            database db runs_at_name
              (projects_with [] [])
              first_indexes
              (es, with_null "name" rs, ps))
    unfolding execute_all execute
    add_name_lem = refl

    pub add_project_versions_lem :
        execute_all time add_project_versions.upgrade
          (database db runs_at_name (projects_with [] []) first_indexes (es, rs, ps))
        ≡ some (
            database db runs_at_version projects_at_version first_indexes
              (es, with_null "project_version" rs, with_one "version" ps))
    unfolding execute_all execute
    add_project_versions_lem = refl

    pub add_inputs_version_lem :
        execute_all time add_inputs_version.upgrade
          (database db runs_at_version projects_at_version first_indexes (es, rs, ps))
        ≡ some (
            database db runs_at_version projects_at_inputs first_indexes (
              es,
              rs,
              map (λ r. set "inputs_version" (value "version" r) r) (with_one "inputs_version" ps),
            ))
    unfolding execute_all execute
    add_inputs_version_lem = refl

    pub add_batch_id_lem :
        IsFree db "ix_simulation_runs_batch_id"
        → execute_all time add_batch_id.upgrade
            (database db runs_at_version projects_at_inputs first_indexes (es, rs, ps))
          ≡ some (
              database db runs_at_batch projects_at_inputs
                (by_batch ∷ first_indexes)
                (es, with_null "batch_id" rs, ps))
    unfolding execute_all execute
    add_batch_id_lem free =
        ap (λ o. elim o [ none ↦ none | some db' ↦ some db' ])
          (create_index_lem by_batch
            (database db runs_at_batch projects_at_inputs first_indexes
              (es, with_null "batch_id" rs, ps))
            (or_false _ _ free.0 free.1) refl)

    with_base : Schema
    with_base =
        database db runs_at_batch
          (projects_with (version_column ∷ inputs_version_column ∷ base_column ∷ []) [])
          (by_batch ∷ first_indexes) (es, rs, with_null "base_project_id" ps)

    with_base_index : Schema
    with_base_index =
        database db runs_at_batch
          (projects_with (version_column ∷ inputs_version_column ∷ base_column ∷ []) []) all_indexes
          (es, rs, with_null "base_project_id" ps)

    adds_base :
        execute time
          (Statement.add_column "projects" base_column)
          (database db runs_at_batch projects_at_inputs (by_batch ∷ first_indexes) (es, rs, ps))
        ≡ some with_base
    unfolding execute with_base
    adds_base = refl

    indexes_base :
        IsFree db "ix_projects_base_project_id"
        → execute time (Statement.create_index by_base) with_base ≡ some with_base_index
    unfolding execute with_base with_base_index
    indexes_base free = create_index_lem by_base with_base (or_false _ _ free.0 free.1) refl

    keys_base :
        All (Lacks "base_project_id") ps
        → execute time (Statement.create_foreign_key "projects" base_key) with_base_index
          ≡ some (
              database db runs_at_batch projects_at_base all_indexes
                (es, rs, with_null "base_project_id" ps))
    unfolding execute with_base_index
    keys_base free =
        rw
          (all_null "base_project_id"
            (λ r.
              any (λ r'. sql_eq (value "base_project_id" r) (value "id" r'))
                (with_null "base_project_id" ps))
            ps refl free)
          refl

    pub add_base_project_id_lem :
        IsFree db "ix_projects_base_project_id"
        → All (Lacks "base_project_id") ps
        → execute_all time add_base_project_id.upgrade
            (database db runs_at_batch projects_at_inputs (by_batch ∷ first_indexes) (es, rs, ps))
          ≡ some (
              database db runs_at_batch projects_at_base all_indexes
                (es, rs, with_null "base_project_id" ps))
    unfolding execute_all
    add_base_project_id_lem free lack =
        execute_all-step time (Statement.add_column "projects" base_column)
          (Statement.create_index by_base ∷ Statement.create_foreign_key "projects" base_key ∷ [])
          (database db runs_at_batch projects_at_inputs (by_batch ∷ first_indexes) (es, rs, ps))
          with_base adds_base
        ∙ rw (execute_all, indexes_base free, keys_base lack) refl
