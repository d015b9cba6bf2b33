-- ===== src/Migrations/Backfill.antt =====
-- alembic/versions: databases from before versions, snapshots and scenarios. Their rows are written
-- with the columns of the first revision, and read after the upgrades as spur_api/db/models.py reads
-- them.
use spur_api.Base.{ℕ, ◌≡◌, refl, true, some, List, [], ◌∷◌, map, All, All-map, arith}
use spur_api.Json.Equality.{IsDictFields}
use spur_api.Database.{ProjectRow, SimulationRunRow, RunEventRow}
use spur_api.Table
use spur_api.Table.Laws.{get-map, IsKeyed-map}
use spur_api.Projects.{project_key, run_key}
use spur_api.Consistency.{IsConsistent, HasVersions, IsFamilyMember, IsRunOf}
use spur_api.Migrations.{Row, Schema}
use spur_api.Migrations.Head.{with_versions, with_nulls, upgrade_from_first}
use spur_api.Migrations.Environment.{do_run_migrations}
use spur_api.Migrations.Rows.{
  at_version_one, first_project, first_run, integer_back, read_all, read_project, read_run,
  status_back, text_back, time_back, without_later,
}
use spur_api.Migrations.Shapes.{
  IsFree, Lacks, all_indexes, database, first_indexes, projects_at_base, projects_with,
  runs_at_batch, runs_with, with_null,
}

projects_back :
    (ps : List ProjectRow)
    → read_all read_project (with_null "base_project_id" (with_versions (map first_project ps)))
      ≡ some (map at_version_one ps)
projects_back [] = refl
projects_back (p ∷ ps) = rw (text_back p.owner, text_back p.name, projects_back ps) refl

runs_back :
    (rs : List SimulationRunRow)
    → read_all read_run (with_null "batch_id" (with_nulls (map first_run rs)))
      ≡ some (map without_later rs)
runs_back [] = refl
runs_back (r ∷ rs) =
    rw
      (
        status_back r.status,
        integer_back r.requested_until,
        integer_back r.chunk_size,
        integer_back r.sim_time_now,
        text_back r.arq_job_id,
        text_back r.error_message,
        time_back r.started_at,
        time_back r.finished_at,
        runs_back rs,
      )
      refl

pub with_versions-Lacks :
    (ps : List ProjectRow) → All (Lacks "base_project_id") (with_versions (map first_project ps))
with_versions-Lacks [] = tt
with_versions-Lacks (p ∷ ps) = (refl, with_versions-Lacks ps)

-- Distinct keys, specs that are dicts, and runs of projects that are there
pub record IsSound (ps : List ProjectRow) (rs : List SimulationRunRow) : Type 0 where
  pub projects_keyed : Table.IsKeyed project_key ps
  pub runs_keyed : Table.IsKeyed run_key rs
  pub dicts : All (λ (p : ProjectRow). IsDictFields p.spec) ps
  pub of_projects :
      All
        (λ (r : SimulationRunRow).
          (p : ProjectRow) × (Table.get project_key r.project_id ps ≡ some p))
        rs

upgraded-IsConsistent :
    (ps : List ProjectRow) (rs : List SimulationRunRow) (es : List RunEventRow) (jobs : List ℕ)
    → IsSound ps rs
    → IsConsistent record {
      projects = map at_version_one ps;
      simulation_runs = map without_later rs;
      run_events = es;
      jobs = jobs;
    }
upgraded-IsConsistent ps rs es jobs sound = record {
  projects_keyed = IsKeyed-map project_key at_version_one ps (λ p. refl) sound.projects_keyed;
  runs_keyed = IsKeyed-map run_key without_later rs (λ r. refl) sound.runs_keyed;
  versions =
      All-map (λ (p : ProjectRow). IsDictFields p.spec) HasVersions at_version_one ps
        (λ p d. record { counted = omega arith; bounded = omega arith; dict = d }) sound.dicts;
  families =
      All-map (λ (p : ProjectRow). IsDictFields p.spec) (IsFamilyMember (map at_version_one ps))
        at_version_one ps (λ p d. tt) sound.dicts;
  runs =
      All-map _ (IsRunOf (map at_version_one ps)) without_later rs
        (λ r found. rw (get-map project_key at_version_one r.project_id ps (λ p. refl), found.1) tt)
        sound.of_projects;
}

-- A database at the first revision is upgraded to one that models.py reads as the same projects
-- at version 1 with inputs_version 1 and no base, and the same runs without what later revisions
-- add; the tables are then consistent, if keys and the dicts of specs are distinct and every run
-- is of a project.
pub backfill :
    (time : ℕ) (db : Schema) (events : List Row) (ps : List ProjectRow) (rs : List SimulationRunRow)
    → IsFree db "ix_simulation_runs_batch_id"
    → IsFree db "ix_projects_base_project_id"
    → IsSound ps rs
    → (pr rr : List Row) × (ps' : List ProjectRow) × (rs' : List SimulationRunRow)
      × (do_run_migrations time (
        some "695c06727c20",
        database db
            (runs_with [])
            (projects_with [] [])
            first_indexes
            (events, map first_run rs, map first_project ps),
      )
          ≡ (
            true,
            some "a4c1e9b27d36",
            database db runs_at_batch projects_at_base all_indexes (events, rr, pr),
          ))
      × (read_all read_project pr ≡ some ps')
      × (read_all read_run rr ≡ some rs')
      × (ps' ≡ map at_version_one ps)
      × (rs' ≡ map without_later rs)
      × ((es : List RunEventRow) (jobs : List ℕ)
          → IsConsistent
              record { projects = ps'; simulation_runs = rs'; run_events = es; jobs = jobs })
unfolding do_run_migrations
backfill time db events ps rs batch base sound = (
  with_null "base_project_id" (with_versions (map first_project ps)),
  with_null "batch_id" (with_nulls (map first_run rs)),
  map at_version_one ps,
  map without_later rs,
  rw
      (
        do_run_migrations,
        upgrade_from_first time db events (map first_run rs) (map first_project ps)
            (batch, base, with_versions-Lacks ps),
      )
      refl,
  projects_back ps,
  runs_back rs,
  refl,
  refl,
  λ es jobs. upgraded-IsConsistent ps rs es jobs sound,
)
