-- ===== src/Consistency.antt =====
-- What holds of the stored state between two requests: the tables of spur_api/db/models.py, with what
-- the comments there and in spur_api/schemas/project.py say of `version`, `inputs_version` and
-- `base_project_id`.
pub mod Saves
pub mod Operations
pub mod Work
pub mod Runs
pub mod Creation
pub mod Deletion
use spur_api.Base.{ℕ, ◌≤◌, ◌≡◌, false, Option, none, some, List, All}
use spur_api.Json.Equality.{IsDictFields}
use spur_api.Json.{Fields}
use spur_api.Inputs.{inputs_differ}
use spur_api.Database.{ProjectRow, SimulationRunRow, State}
use spur_api.Projects.{project_key, run_key}
use spur_api.Table

-- The versions of a project count from 1, the inputs changed at a version that there was, and the keys
-- of the spec's dicts are distinct.
pub record HasVersions (p : ProjectRow) : Type 0 where
  pub counted : 1 ≤ p.inputs_version
  pub bounded : p.inputs_version ≤ p.version
  pub dict : IsDictFields p.spec

-- The project is there, and is no scenario.
abbrev pub IsBase : Option ProjectRow → Type 0
IsBase none = ⊥
IsBase (some p) = p.base_project_id ≡ none

abbrev pub HasBase : List ProjectRow → Option ℕ → Type 0
HasBase projects none = Unit
HasBase projects (some b) = IsBase (Table.get project_key b projects)

abbrev pub IsFamilyMember : List ProjectRow → ProjectRow → Type 0
IsFamilyMember projects p = HasBase projects p.base_project_id

abbrev pub SameInputs : Option Fields → Fields → Type 0
SameInputs none spec = Unit
SameInputs (some snapshot) spec = inputs_differ snapshot spec ≡ false

-- A run at version `v` of the project: it is not from the future, and where it is not out of date the
-- project has the inputs that the run was made from.
abbrev pub IsCurrent : Option ℕ → Option Fields → ProjectRow → Type 0
IsCurrent none snapshot p = Unit
IsCurrent (some v) snapshot p =
    (v ≤ p.version) × (p.inputs_version ≤ v → SameInputs snapshot p.spec)

abbrev pub HasProject : SimulationRunRow → Option ProjectRow → Type 0
HasProject r none = ⊥
HasProject r (some p) = IsCurrent r.project_version r.spec_snapshot p

abbrev pub IsRunOf : List ProjectRow → SimulationRunRow → Type 0
IsRunOf projects r = HasProject r (Table.get project_key r.project_id projects)

pub record IsConsistent (s : State) : Type 0 where
  pub projects_keyed : Table.IsKeyed project_key s.projects
  pub runs_keyed : Table.IsKeyed run_key s.simulation_runs
  pub versions : All HasVersions s.projects
  pub families : All (IsFamilyMember s.projects) s.projects
  pub runs : All (IsRunOf s.projects) s.simulation_runs
