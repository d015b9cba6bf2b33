-- ===== src/Requests/Promises.antt =====
-- What spur_api/schemas/project.py and spur_api/db/models.py promise of `inputs_version` and of
-- `base_project_id`, in every state that requests and jobs lead to.
use spur_api.Base.{ℕ, ◌≤◌, ◌≡◌, false, none, some, Option-cases, inl, inr}
use spur_api.Json.{Fields}
use spur_api.Inputs.{inputs_differ}
use spur_api.Database.{ProjectRow, SimulationRunRow, State}
use spur_api.Projects.{project_key, run_key, find_project}
use spur_api.Runs.{find_run}
use spur_api.Consistency.{HasVersions, HasBase, IsFamilyMember, IsCurrent, IsRunOf, IsConsistent}
use spur_api.Requests.{Reach, Reach-IsConsistent}
use spur_api.Table.Laws.{All-get}

module _ (s t : State) (start : IsConsistent s) (reached : Reach s t) where
  -- After any requests and commits of jobs from a consistent state, a run whose project_version
  -- is not lower than its project's inputs_version was made from the components, routes, tours
  -- and trains that the project has now, null-valued keys apart.
  pub run_up_to_date :
      (i v : ℕ) (r : SimulationRunRow) (p : ProjectRow) (snapshot : Fields)
      → find_run i t ≡ some r
      → find_project r.project_id t ≡ some p
      → r.project_version ≡ some v
      → r.spec_snapshot ≡ some snapshot
      → p.inputs_version ≤ v
      → inputs_differ snapshot p.spec ≡ false
  run_up_to_date i v r p snapshot found project version taken fresh =
      let h = Reach-IsConsistent start reached in
      let of = All-get run_key (IsRunOf t.projects) i t.simulation_runs h.runs found in
      let current : IsCurrent (some v) (some snapshot) p = rw (project, version, taken) at of in
      current.1 fresh

  -- After any requests and commits of jobs from a consistent state, every stored run belongs to a
  -- stored project and is of no later version than it has.
  pub run_of_project :
      (i : ℕ) (r : SimulationRunRow)
      → find_run i t ≡ some r
      → (p : ProjectRow) × (find_project r.project_id t ≡ some p)
        × ((v : ℕ) → r.project_version ≡ some v → v ≤ p.version)
  run_of_project i r found =
      let h = Reach-IsConsistent start reached in
      let of = All-get run_key (IsRunOf t.projects) i t.simulation_runs h.runs found in
      elim (Option-cases (find_project r.project_id t)) [
        | inl missing ↦ absurd (rw missing at of)
        | inr (p, e) ↦ (
          p,
          e,
          λ v version.
              let current : IsCurrent (some v) r.spec_snapshot p = rw (e, version) at of in
              current.0,
        )
      ]

  -- After any requests and commits of jobs from a consistent state, the base of a stored scenario
  -- is stored and is no scenario itself.
  pub scenario_of_base :
      (i b : ℕ) (p : ProjectRow)
      → find_project i t ≡ some p
      → p.base_project_id ≡ some b
      → (q : ProjectRow) × (find_project b t ≡ some q) × (q.base_project_id ≡ none)
  scenario_of_base i b p found of_base =
      let h = Reach-IsConsistent start reached in
      let member = All-get project_key (IsFamilyMember t.projects) i t.projects h.families found in
      let base : HasBase t.projects (some b) = rw of_base at member in
      elim (Option-cases (find_project b t)) [
        | inl missing ↦ absurd (rw missing at base)
        | inr (q, e) ↦ (q, e, rw e at base)
      ]

  -- After any requests and commits of jobs from a consistent state, a project's inputs_version is
  -- between 1 and its version.
  pub version_bounds :
      (i : ℕ) (p : ProjectRow)
      → find_project i t ≡ some p
      → (1 ≤ p.inputs_version) × (p.inputs_version ≤ p.version)
  version_bounds i p found =
      let h = Reach-IsConsistent start reached in
      let v = All-get project_key HasVersions i t.projects h.versions found in
      (v.counted, v.bounded)
