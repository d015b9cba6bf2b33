-- ===== src/Projects.antt =====
-- spur_api/services/projects_service.py, with the records of spur_api/schemas/project.py that it
-- takes and returns. A new UUID, the time of the transaction and the like are arguments.
pub mod Branches
pub mod Effects
pub mod Listing
pub mod Store
use mathlib.Core.Option
use spur_api.Base.{
  ℕ, zero, ◌+◌, String, Bool, true, false, not, ◌&&◌, Option, none, some, List, [], ◌∷◌, map, ltb,
  ◌==◌, if◌then◌else◌, keep_if, take, drop,
}
use spur_api.Base.Int.{ℤ, pos, pos_part, neg_part, eqb_ℤ}
use spur_api.Base.Sort.{sort_by}
use spur_api.Json
use spur_api.Json.{Json, Fields, arr, lookup}
use spur_api.Inputs.{inputs_differ}
use spur_api.Database.{ProjectRow, SimulationRunRow, RunEventRow, State}
use spur_api.Action.{
  Action, Result, ok, err, Error, not_found, stale_project, unhandled, Resource, project, pure,
  raise, raise_if, gets, or_raise, modify, ◌>>=◌, ◌>>◌,
}
use spur_api.Table

-- `ProjectCreate` and `ProjectUpdate`: a validated spec, its `name` and `spur_version`, and what
-- `model_dump(exclude_unset=True)` gives.
pub record ProjectCreate : Type 0 where
  pub name : Option String
  pub spur_version : String
  pub dump : Fields

-- `Project`: the spec with the metadata of its row.
pub record Project : Type 0 where
  pub spec : Fields
  pub id : ℕ
  pub owner : Option String
  pub version : ℕ
  pub inputs_version : ℕ
  pub base_project_id : Option ℕ
  pub created_at : ℕ
  pub updated_at : ℕ

abbrev pub to_schema : ProjectRow → Project
to_schema row = record {
  spec = row.spec;
  id = row.id;
  owner = row.owner;
  version = row.version;
  inputs_version = row.inputs_version;
  base_project_id = row.base_project_id;
  created_at = row.created_at;
  updated_at = row.updated_at;
}

abbrev pub project_key : ProjectRow → ℕ
project_key row = row.id

abbrev pub run_key : SimulationRunRow → ℕ
run_key row = row.id

abbrev pub find_project : ℕ → State → Option ProjectRow
find_project i s = Table.get project_key i s.projects

-- `row = await db.get(ProjectRow, id)`, and the raise if it is None
unfoldable pub get_row : ℕ → Action ProjectRow
get_row i = do row ← gets (find_project i); or_raise row (not_found project i)

-- `base.base_project_id or base.id`
abbrev pub family_base : ProjectRow → ℕ
family_base row = Option.get_or row.base_project_id row.id

abbrev pub base_of : Option ℕ → Action (Option ℕ)
base_of none = pure none
base_of (some i) = do row ← get_row i; pure (some (family_base row))

-- The row that `create_project` adds, with the defaults of its columns.
abbrev pub new_row : ℕ → ℕ → ProjectCreate → Option String → Option ℕ → ProjectRow
new_row id now spec owner base_id = record {
  id = id;
  owner = owner;
  name = spec.name;
  spur_version = spec.spur_version;
  spec = spec.dump;
  version = 1;
  inputs_version = 1;
  base_project_id = base_id;
  created_at = now;
  updated_at = now;
}

abbrev pub add_project : ProjectRow → State → State
add_project row s = record s { projects = Table.insert project_key row s.projects }

unfoldable pub create_project : ℕ → ℕ → ProjectCreate → Option String → Option ℕ → Action Project
unfolding get_row
create_project id now spec owner base_project_id = do
  base_id ← base_of base_project_id
  let row = new_row id now spec owner base_id
  modify (add_project row)
  pure (to_schema row)

unfoldable pub get_project : ℕ → Action Project
unfolding get_row
get_project i = do row ← get_row i; pure (to_schema row)

-- The row that a save writes, `onupdate` of `updated_at` included.
abbrev pub saved_row : ℕ → ProjectCreate → ProjectRow → ProjectRow
saved_row now spec row = record row {
  version = row.version + 1;
  inputs_version = if inputs_differ row.spec spec.dump then row.version + 1 else row.inputs_version;
  name = spec.name;
  spur_version = spec.spur_version;
  spec = spec.dump;
  updated_at = now;
}

-- `expected_version is not None and expected_version != row.version`
abbrev pub is_stale : Option ℤ → ℕ → Bool
is_stale none version = false
is_stale (some expected) version = not (eqb_ℤ expected (pos version))

abbrev pub stale_error : ℕ → ℕ → Option ℤ → Error
stale_error i version none = stale_project i version (pos version)
stale_error i version (some expected) = stale_project i version expected

abbrev pub save_project : ProjectRow → State → State
save_project row s = record s { projects = Table.save project_key row s.projects }

unfoldable pub update_project : ℕ → ℕ → ProjectCreate → Option ℤ → Action Project
unfolding get_row
update_project now i spec expected = do
  row ← get_row i
  raise_if (is_stale expected row.version) (stale_error i row.version expected)
  let row' = saved_row now spec row
  modify (save_project row')
  pure (to_schema row')

-- ON DELETE SET NULL
abbrev pub forget_base : ℕ → ProjectRow → ProjectRow
forget_base i row = record row {
  base_project_id = elim row.base_project_id [
    | none ↦ none
    | some b ↦ if b == i then none else some b
  ];
}

-- ON DELETE CASCADE from projects to runs, and from runs to events: an event stays if its run does.
abbrev pub has_run : List SimulationRunRow → RunEventRow → Bool
has_run runs e = elim (Table.get run_key e.run_id runs) [ none ↦ false | some _ ↦ true ]

abbrev pub runs_without_project : ℕ → List SimulationRunRow → List SimulationRunRow
runs_without_project i runs = keep_if (λ r. not (r.project_id == i)) runs

abbrev pub drop_project : ℕ → State → State
drop_project i s =
    let runs = runs_without_project i s.simulation_runs in
    record s {
      projects = map (forget_base i) (Table.remove project_key i s.projects);
      simulation_runs = runs;
      run_events = keep_if (has_run runs) s.run_events;
    }

unfoldable pub delete_project : ℕ → Action (Unit {0})
unfolding get_row
delete_project i = do get_row i; modify (drop_project i)
