-- ===== src/Migrations/Versions.antt =====
-- alembic/versions/e7b2c94d1f05_add_inputs_version_to_projects.py: the backfill of inputs_version in a
-- database whose projects have been saved, and whose runs tell the version that they ran.
use spur_api.Base.{
  ℕ, ◌≤◌, ◌≡◌, refl, true, Option, none, some, List, [], ◌∷◌, ◌++◌, map, All, All-map, arith,
}
use spur_api.Base.Int.{pos}
use spur_api.Json.{Fields}
use spur_api.Json.Equality.{IsDictFields}
use spur_api.Database.{ProjectRow, SimulationRunRow, RunEventRow}
use spur_api.Table
use spur_api.Table.Laws.{get-map, IsKeyed-map}
use spur_api.Projects.{project_key, run_key}
use spur_api.Consistency.{
  IsConsistent, HasVersions, IsFamilyMember, IsRunOf, SameInputs, IsCurrent, HasProject,
}
use spur_api.Migrations.{Value, Row, Schema}
use spur_api.Migrations.Lookups.{value, set}
use spur_api.Migrations.Revisions.{add_inputs_version, add_batch_id, add_base_project_id, by_batch}
use spur_api.Migrations.Environment.{do_run_migrations, pending, upgrade_all}
use spur_api.Migrations.Shapes.{
  IsFree, database, first_indexes, runs_at_version, runs_at_batch, projects_at_version,
  projects_at_inputs, projects_at_base, all_indexes, with_null, with_one, Lacks,
}
use spur_api.Migrations.Additions.{
  add_inputs_version_lem, add_batch_id_lem, add_base_project_id_lem,
}
use spur_api.Migrations.Head.{step}
use spur_api.Migrations.Rows.{
  first_project, first_run, read_all, read_project, read_run, or_null, optional, as_natural,
  as_dict, text_back, integer_back, time_back, status_back,
}

-- Rows with the columns that there are at d5e8f1a3c720
abbrev natural : ℕ → Value
natural n = Value.integer (pos n)

abbrev pub versioned_project : ProjectRow → Row
versioned_project p = first_project p ++ ("version", natural p.version) ∷ []

abbrev pub versioned_run : SimulationRunRow → Row
versioned_run r =
    first_run r
    ++ ("seed", or_null natural r.seed)
      ∷ ("spec_snapshot", or_null Value.jsonb r.spec_snapshot)
      ∷ ("until_target", or_null Value.integer r.until_target)
      ∷ ("name", or_null Value.text r.name)
      ∷ ("project_version", or_null natural r.project_version)
      ∷ []

-- What the upgrades are to make of them
abbrev pub with_inputs_version : ProjectRow → ProjectRow
with_inputs_version p = record p { inputs_version = p.version; base_project_id = none }

abbrev pub without_batch : SimulationRunRow → SimulationRunRow
without_batch r = record r { batch_id = none }

abbrev with_inputs : List Row → List Row
with_inputs ps =
    map (λ r. set "inputs_version" (value "version" r) r) (with_one "inputs_version" ps)

natural_back : (o : Option ℕ) → optional as_natural (or_null natural o) ≡ some o
natural_back none = refl
natural_back (some n) = refl

dict_back : (o : Option Fields) → optional as_dict (or_null Value.jsonb o) ≡ some o
dict_back none = refl
dict_back (some d) = refl

projects_back :
    (ps : List ProjectRow)
    → read_all read_project (with_null "base_project_id" (with_inputs (map versioned_project ps)))
      ≡ some (map with_inputs_version ps)
projects_back [] = refl
projects_back (p ∷ ps) = rw (text_back p.owner, text_back p.name, projects_back ps) refl

runs_back :
    (rs : List SimulationRunRow)
    → read_all read_run (with_null "batch_id" (map versioned_run rs)) ≡ some (map without_batch rs)
runs_back [] = refl
runs_back (r ∷ rs) =
    rw
      (
        status_back r.status,
        integer_back r.requested_until,
        integer_back r.chunk_size,
        integer_back r.sim_time_now,
        text_back r.arq_job_id,
        text_back r.error_message,
        time_back r.started_at,
        time_back r.finished_at,
        natural_back r.seed,
        dict_back r.spec_snapshot,
        integer_back r.until_target,
        text_back r.name,
        natural_back r.project_version,
        runs_back rs,
      )
      refl

with_inputs-Lacks :
    (ps : List ProjectRow) → All (Lacks "base_project_id") (with_inputs (map versioned_project ps))
with_inputs-Lacks [] = tt
with_inputs-Lacks (p ∷ ps) = (refl, with_inputs-Lacks ps)

-- A run tells no version, or one that there was, and if this is the project's, then the inputs that it
-- ran are the project's.
abbrev pub RanVersion : Option ℕ → Option Fields → ProjectRow → Type 0
RanVersion none snapshot p = Unit
RanVersion (some v) snapshot p = (v ≤ p.version) × (v ≡ p.version → SameInputs snapshot p.spec)

abbrev pub RanProject : SimulationRunRow → Option ProjectRow → Type 0
RanProject r none = ⊥
RanProject r (some p) = RanVersion r.project_version r.spec_snapshot p

-- A database as d5e8f1a3c720 left it and as requests since have kept it
pub record IsVersioned (ps : List ProjectRow) (rs : List SimulationRunRow) : Type 0 where
  pub projects_keyed : Table.IsKeyed project_key ps
  pub runs_keyed : Table.IsKeyed run_key rs
  pub counted : All (λ (p : ProjectRow). (1 ≤ p.version) × IsDictFields p.spec) ps
  pub ran : All (λ (r : SimulationRunRow). RanProject r (Table.get project_key r.project_id ps)) rs

current :
    (v : Option ℕ) (snapshot : Option Fields) (p : ProjectRow)
    → RanVersion v snapshot p
    → IsCurrent v snapshot (with_inputs_version p)
current none snapshot p h = tt
current (some v) snapshot p h = (h.0, λ up_to_date. h.1 (omega (arith, h.0, up_to_date)))

run_of :
    (r : SimulationRunRow) (o : Option ProjectRow)
    → RanProject r o
    → HasProject (without_batch r) (elim o [ none ↦ none | some p ↦ some (with_inputs_version p) ])
run_of r none h = h
run_of r (some p) h = current r.project_version r.spec_snapshot p h

upgraded-IsConsistent :
    (ps : List ProjectRow) (rs : List SimulationRunRow) (es : List RunEventRow) (jobs : List ℕ)
    → IsVersioned ps rs
    → IsConsistent record {
      projects = map with_inputs_version ps;
      simulation_runs = map without_batch rs;
      run_events = es;
      jobs = jobs;
    }
upgraded-IsConsistent ps rs es jobs old = record {
  projects_keyed = IsKeyed-map project_key with_inputs_version ps (λ p. refl) old.projects_keyed;
  runs_keyed = IsKeyed-map run_key without_batch rs (λ r. refl) old.runs_keyed;
  versions =
      All-map _ HasVersions with_inputs_version ps
        (λ p h. record { counted = h.0; bounded = omega arith; dict = h.1 }) old.counted;
  families =
      All-map _ (IsFamilyMember (map with_inputs_version ps)) with_inputs_version ps (λ p h. tt)
        old.counted;
  runs =
      All-map _ (IsRunOf (map with_inputs_version ps)) without_batch rs
        (λ r h.
          rw (get-map project_key with_inputs_version r.project_id ps (λ p. refl))
            (run_of r (Table.get project_key r.project_id ps) h))
        old.ran;
}

module _ (time : ℕ) (db : Schema) where
  upgrade_from_versions :
      (es rs ps : List Row)
      → IsFree db "ix_simulation_runs_batch_id"
      → IsFree db "ix_projects_base_project_id"
      → All (Lacks "base_project_id") (with_inputs ps)
      → upgrade_all time
          (pending (some "d5e8f1a3c720"))
          (database db runs_at_version projects_at_version first_indexes (es, rs, ps))
        ≡ some (
            database db runs_at_batch projects_at_base all_indexes
              (es, with_null "batch_id" rs, with_null "base_project_id" (with_inputs ps)))
  unfolding upgrade_all
  upgrade_from_versions es rs ps batch base lack =
      let p = with_inputs ps in
      let r = with_null "batch_id" rs in
      step time db add_inputs_version (pending (some "e7b2c94d1f05"))
        (database db runs_at_version projects_at_version first_indexes (es, rs, ps))
        (add_inputs_version_lem time db es rs ps)
        (step time db add_batch_id (pending (some "f3a9c0d47e18"))
          (database db runs_at_version projects_at_inputs first_indexes (es, rs, p))
          (add_batch_id_lem time db es rs p batch)
          (step time db add_base_project_id (pending (some "a4c1e9b27d36"))
            (database db runs_at_batch projects_at_inputs (by_batch ∷ first_indexes) (es, r, p))
            (add_base_project_id_lem time db es r p base lack) refl))

  -- A database at d5e8f1a3c720, with saved projects and runs that tell the version they ran, is
  -- upgraded to one that models.py reads as the same runs and as the same projects with
  -- inputs_version equal to their version, and no base; the tables are then consistent, so that a
  -- run whose version is not lower than inputs_version has its project's inputs; if keys and the
  -- dicts of specs are distinct, versions count from 1, and a run is of a version that there was
  -- and of its project's inputs where that is the version now.
  pub versions_backfill :
      (events : List Row) (ps : List ProjectRow) (rs : List SimulationRunRow)
      → IsFree db "ix_simulation_runs_batch_id"
      → IsFree db "ix_projects_base_project_id"
      → IsVersioned ps rs
      → (pr rr : List Row) × (ps' : List ProjectRow) × (rs' : List SimulationRunRow)
        × (do_run_migrations time (
          some "d5e8f1a3c720",
          database db runs_at_version projects_at_version first_indexes
              (events, map versioned_run rs, map versioned_project ps),
        )
            ≡ (
              true,
              some "a4c1e9b27d36",
              database db runs_at_batch projects_at_base all_indexes (events, rr, pr),
            ))
        × (read_all read_project pr ≡ some ps')
        × (read_all read_run rr ≡ some rs')
        × (ps' ≡ map with_inputs_version ps)
        × (rs' ≡ map without_batch rs)
        × ((es : List RunEventRow) (jobs : List ℕ)
            → IsConsistent
                record { projects = ps'; simulation_runs = rs'; run_events = es; jobs = jobs })
  unfolding do_run_migrations
  versions_backfill events ps rs batch base old = (
    with_null "base_project_id" (with_inputs (map versioned_project ps)),
    with_null "batch_id" (map versioned_run rs),
    map with_inputs_version ps,
    map without_batch rs,
    rw
        (
          do_run_migrations,
          upgrade_from_versions events (map versioned_run rs) (map versioned_project ps) batch base
              (with_inputs-Lacks ps),
        )
        refl,
    projects_back ps,
    runs_back rs,
    refl,
    refl,
    λ es jobs. upgraded-IsConsistent ps rs es jobs old,
  )
