-- ===== src/Runs.antt =====
-- spur_api/services/runs_service.py: the operations on one run, with the `Run` of
-- spur_api/schemas/run.py that they return.
pub mod Branches
pub mod Submit
pub mod Results
pub mod Schema
use spur_api.Base.{
  ℕ, String, Bool, true, false, not, ◌&&◌, Option, none, some, List, [], ◌∷◌, map, ◌==◌,
  if◌then◌else◌, keep_if,
}
use spur_api.Base.Int.{ℤ}
use spur_api.Database.{
  SimulationRunRow, RunEventRow, RunStatus, queued, running, completed, failed, cancelled, State,
}
use spur_api.Action.{
  Action, Result, ok, err, not_found, run, pure, raise, gets, or_raise, modify, ◌>>=◌, ◌>>◌,
}
use spur_api.Projects.{run_key, has_run}
use spur_api.Table

pub record Run : Type 0 where
  pub id : ℕ
  pub project_id : ℕ
  pub name : Option String
  pub project_version : Option ℕ
  pub status : RunStatus
  pub requested_until : Option ℤ
  pub until_target : Option ℤ
  pub seed : Option ℕ
  pub batch_id : Option ℕ
  pub sim_time_now : Option ℤ
  pub error_message : Option String
  pub created_at : ℕ
  pub started_at : Option ℕ
  pub finished_at : Option ℕ

abbrev pub to_schema : SimulationRunRow → Run
to_schema row = record {
  id = row.id;
  project_id = row.project_id;
  name = row.name;
  project_version = row.project_version;
  status = row.status;
  requested_until = row.requested_until;
  until_target = row.until_target;
  seed = row.seed;
  batch_id = row.batch_id;
  sim_time_now = row.sim_time_now;
  error_message = row.error_message;
  created_at = row.created_at;
  started_at = row.started_at;
  finished_at = row.finished_at;
}

abbrev pub find_run : ℕ → State → Option SimulationRunRow
find_run i s = Table.get run_key i s.simulation_runs

-- `row = await db.get(SimulationRunRow, id)`, and the raise if it is None
unfoldable pub get_row : ℕ → Action SimulationRunRow
get_row i = do row ← gets (find_run i); or_raise row (not_found run i)

unfoldable pub get_run : ℕ → Action Run
unfolding get_row
get_run i = do row ← get_row i; pure (to_schema row)

-- `RunStatus.value`
abbrev pub status_code : RunStatus → ℕ
status_code queued = 0
status_code running = 1
status_code completed = 2
status_code failed = 3
status_code cancelled = 4

-- A clause of WHERE that is there only if its argument is not None.
abbrev pub matches : Option ℕ → Option ℕ → Bool
matches none value = true
matches (some wanted) none = false
matches (some wanted) (some value) = value == wanted

abbrev pub wanted_run : Option ℕ → Option RunStatus → Option ℕ → SimulationRunRow → Bool
wanted_run project_id status batch_id row =
    matches project_id (some row.project_id)
    && matches (elim status [ none ↦ none | some st ↦ some (status_code st) ])
        (some (status_code row.status))
    && matches batch_id row.batch_id

-- The query has no ORDER BY: the rows come in the order of the table.
unfoldable pub list_runs : Option ℕ → Option RunStatus → Option ℕ → Action (List Run)
list_runs project_id status batch_id =
    gets λ s. map to_schema (keep_if (wanted_run project_id status batch_id) s.simulation_runs)

abbrev pub save_run : SimulationRunRow → State → State
save_run row s = record s { simulation_runs = Table.save run_key row s.simulation_runs }

unfoldable pub rename_run : ℕ → Option String → Action Run
unfolding get_row
rename_run i name = do
  row ← get_row i
  let row' = record row { name = name }
  modify (save_run row')
  pure (to_schema row')

-- ON DELETE CASCADE from the run to its events
abbrev pub drop_run : ℕ → State → State
drop_run i s =
    let runs = Table.remove run_key i s.simulation_runs in
    record s { simulation_runs = runs; run_events = keep_if (has_run runs) s.run_events }

unfoldable pub delete_run : ℕ → Action (Unit {0})
unfolding get_row
delete_run i = do get_row i; modify (drop_run i)

unfoldable pub request_cancel : ℕ → Action Run
unfolding get_row
request_cancel i = do
  row ← get_row i
  let row' = record row { cancel_requested = true }
  modify (save_run row')
  pure (to_schema row')
