-- ===== src/Consistency/Runs.antt =====
-- Submitting and changing runs (spur_api/services/runs_service.py), and consistency.
use spur_api.Base.{
  ℕ, zero, suc, ◌+◌, ◌≤◌, ◌≡◌, refl, ap, ◌∙◌, String, Option, none, some, List, [], ◌∷◌, ◌++◌, map,
  arith, All, All-map, All-keep_if, Option-cases, inl, inr,
}
use spur_api.Base.Int.{ℤ}
use spur_api.Inputs.{inputs_differ_refl}
use spur_api.Database.{ProjectRow, SimulationRunRow, State}
use spur_api.Projects.{project_key, run_key}
use spur_api.Runs.{save_run, drop_run}
use spur_api.Runs.Submit.{
  Outside, Submission, run_row, run_rows, insert_all, add_runs, set_job, record_jobs, save_jobs,
  enqueue_rows,
}
use spur_api.Consistency.{HasVersions, IsRunOf, IsConsistent}
use spur_api.Table
use spur_api.Table.Laws.{
  key-get, All-get, get-insert, All-insert, All-save, IsKeyed-insert, IsKeyed-save, IsKeyed-map,
  IsKeyed-keep_if,
}

-- A run that keeps its project, its version and its snapshot may change otherwise.
pub record SameRun (a b : SimulationRunRow) : Type 0 where
  pub project_id : a.project_id ≡ b.project_id
  pub project_version : a.project_version ≡ b.project_version
  pub spec_snapshot : a.spec_snapshot ≡ b.spec_snapshot

pub SameRun-IsRunOf :
    (projects : List ProjectRow) (a b : SimulationRunRow)
    → SameRun a b
    → IsRunOf projects a
    → IsRunOf projects b
SameRun-IsRunOf projects a b same h =
    rw (← same.project_id, ← same.project_version, ← same.spec_snapshot) h

pub save_run-IsConsistent :
    (i : ℕ) (a b : SimulationRunRow) (s : State)
    → Table.get run_key i s.simulation_runs ≡ some a
    → SameRun a b
    → IsConsistent s
    → IsConsistent (save_run b s)
save_run-IsConsistent i a b s found same h =
    let of = All-get run_key (IsRunOf s.projects) i s.simulation_runs h.runs found in
    record {
      projects_keyed = h.projects_keyed;
      runs_keyed = IsKeyed-save run_key b s.simulation_runs h.runs_keyed;
      versions = h.versions;
      families = h.families;
      runs =
          All-save run_key (IsRunOf s.projects) b s.simulation_runs
            (SameRun-IsRunOf s.projects a b same of) h.runs;
    }

pub drop_run-IsConsistent : (i : ℕ) (s : State) → IsConsistent s → IsConsistent (drop_run i s)
unfolding Table.remove
drop_run-IsConsistent i s h = record {
  projects_keyed = h.projects_keyed;
  runs_keyed = IsKeyed-keep_if run_key _ s.simulation_runs h.runs_keyed;
  versions = h.versions;
  families = h.families;
  runs = All-keep_if (IsRunOf s.projects) _ s.simulation_runs h.runs;
}

-- The tables decide, and not the jobs or the events.
pub IsConsistent-frame :
    (s t : State)
    → s.projects ≡ t.projects
    → s.simulation_runs ≡ t.simulation_runs
    → IsConsistent s
    → IsConsistent t
IsConsistent-frame s t p r h = record {
  projects_keyed = rw (← p) h.projects_keyed;
  runs_keyed = rw (← r) h.runs_keyed;
  versions = rw (← p) h.versions;
  families = rw (← p) h.families;
  runs = rw (← p, ← r) h.runs;
}

-- Each new row has an id of its own.
abbrev AllNew : List SimulationRunRow → List SimulationRunRow → Type 0
AllNew [] runs = Unit
AllNew (r ∷ rows) runs =
    (Table.get run_key r.id runs ≡ none) × AllNew rows (Table.insert run_key r runs)

insert_all-IsKeyed :
    (rows runs : List SimulationRunRow)
    → AllNew rows runs
    → Table.IsKeyed run_key runs
    → Table.IsKeyed run_key (insert_all rows runs)
unfolding insert_all
insert_all-IsKeyed [] runs new h = h
insert_all-IsKeyed (r ∷ rows) runs new h =
    insert_all-IsKeyed rows (Table.insert run_key r runs) new.1
      (IsKeyed-insert run_key r runs new.0 h)

insert_all-All :
    (P : SimulationRunRow → Type 0) (rows runs : List SimulationRunRow)
    → All P rows
    → All P runs
    → All P (insert_all rows runs)
unfolding insert_all
insert_all-All P [] runs new h = h
insert_all-All P (r ∷ rows) runs new h =
    insert_all-All P rows (Table.insert run_key r runs) new.1 (All-insert run_key P r runs new.0 h)

-- `uuid4` gives each run an id that no run has had.
pub record HasNewIds (o : Outside) (s : State) : Type 0 where
  pub distinct : (i j : ℕ) → o.run_id i ≡ o.run_id j → i ≡ j
  pub unused : (i : ℕ) → Table.get run_key (o.run_id i) s.simulation_runs ≡ none

module _ (o : Outside) (p : ProjectRow) (body : Submission) (until_target : ℤ) (first : ℕ) where
  run_rows-AllNew :
      (i n : ℕ) (runs : List SimulationRunRow)
      → ((j k : ℕ) → o.run_id j ≡ o.run_id k → j ≡ k)
      → ((j : ℕ) → i ≤ j → Table.get run_key (o.run_id j) runs ≡ none)
      → AllNew (run_rows o p body until_target first i n) runs
  unfolding run_rows run_row
  run_rows-AllNew i zero runs distinct unused = tt
  run_rows-AllNew i (suc n) runs distinct unused = (
    unused i (omega arith),
    run_rows-AllNew (i + 1) n _ distinct λ j above. ground (
      arith,
      get-insert run_key (o.run_id j) (run_row o p body until_target first i) runs,
      unused j (omega arith),
      distinct i j,
    ),
  )

  run_rows-IsRunOf :
      (projects : List ProjectRow) (i n : ℕ)
      → Table.get project_key p.id projects ≡ some p
      → HasVersions p
      → All (IsRunOf projects) (run_rows o p body until_target first i n)
  unfolding run_rows run_row
  run_rows-IsRunOf projects i zero found h = tt
  run_rows-IsRunOf projects i (suc n) found h = (
    rw found (omega arith, λ _. inputs_differ_refl p.spec h.dict),
    run_rows-IsRunOf projects (i + 1) n found h,
  )

  -- The rows of a submission for a project that was found.
  pub add_runs-IsConsistent :
      (j n : ℕ) (s : State)
      → Table.get project_key j s.projects ≡ some p
      → HasNewIds o s
      → IsConsistent s
      → IsConsistent (add_runs (run_rows o p body until_target first 0 n) s)
  add_runs-IsConsistent j n s found ids h =
      let at : p.id ≡ j = key-get project_key j s.projects found in
      let rows = run_rows o p body until_target first 0 n in
      record {
        projects_keyed = h.projects_keyed;
        runs_keyed =
            insert_all-IsKeyed rows s.simulation_runs
              (run_rows-AllNew 0 n s.simulation_runs ids.distinct (λ k _. ids.unused k))
              h.runs_keyed;
        versions = h.versions;
        families = h.families;
        runs =
            insert_all-All (IsRunOf s.projects) rows s.simulation_runs
              (run_rows-IsRunOf s.projects 0 n
                (ap (λ k. Table.get project_key k s.projects) at ∙ found)
                (All-get project_key HasVersions j s.projects h.versions found))
              h.runs;
      }

record_jobs-IsKeyed :
    (jobs : List (ℕ × Option String)) (runs : List SimulationRunRow)
    → Table.IsKeyed run_key runs
    → Table.IsKeyed run_key (record_jobs jobs runs)
unfolding record_jobs
record_jobs-IsKeyed [] runs h = h
record_jobs-IsKeyed (j ∷ jobs) runs h =
    record_jobs-IsKeyed jobs (map (set_job j) runs)
      (IsKeyed-map run_key (set_job j) runs (λ x. refl) h)

record_jobs-IsRunOf :
    (projects : List ProjectRow) (jobs : List (ℕ × Option String)) (runs : List SimulationRunRow)
    → All (IsRunOf projects) runs
    → All (IsRunOf projects) (record_jobs jobs runs)
unfolding record_jobs
record_jobs-IsRunOf projects [] runs h = h
record_jobs-IsRunOf projects (j ∷ jobs) runs h =
    record_jobs-IsRunOf projects jobs (map (set_job j) runs)
      (All-map (IsRunOf projects) (IsRunOf projects) (set_job j) runs (λ r of. of) h)

pub save_jobs-IsConsistent :
    (jobs : List (ℕ × Option String)) (s : State) → IsConsistent s → IsConsistent (save_jobs jobs s)
save_jobs-IsConsistent jobs s h = record {
  projects_keyed = h.projects_keyed;
  runs_keyed = record_jobs-IsKeyed jobs s.simulation_runs h.runs_keyed;
  versions = h.versions;
  families = h.families;
  runs = record_jobs-IsRunOf s.projects jobs s.simulation_runs h.runs;
}

-- Enqueueing touches the jobs alone, also if it fails.
pub enqueue_rows-frame :
    (o : Outside) (rows : List SimulationRunRow) (s : State)
    → ((enqueue_rows o rows s).1.projects ≡ s.projects)
      × ((enqueue_rows o rows s).1.simulation_runs ≡ s.simulation_runs)
      × ((enqueue_rows o rows s).1.run_events ≡ s.run_events)
unfolding enqueue_rows
enqueue_rows-frame o [] s = (refl, refl, refl)
enqueue_rows-frame o (r ∷ rows) s = elim (Option-cases (o.enqueue r.id)) [
  | inl broken ↦ ground arith
  | inr (none, e) ↦ ground (arith, enqueue_rows-frame o rows s)
  | inr (some j, e) ↦
      ground (arith, enqueue_rows-frame o rows (record s { jobs = s.jobs ++ r.id ∷ [] }))
]
