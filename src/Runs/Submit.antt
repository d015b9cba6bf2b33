-- ===== src/Runs/Submit.antt =====
-- `submit_run` of spur_api/services/runs_service.py.
pub mod Branches
pub mod Queued
pub mod Refusals
pub mod Batch
use mathlib.Core.Option
use text.Mathlib.Text.{◌==◌}
use spur_api.Base.{
  ℕ, zero, suc, ◌+◌, ◌-◌, ◌^◌, String, false, not, Option, none, some, List, [], ◌∷◌, ◌++◌, map,
  ltb, ◌==◌ as num_eq, if◌then◌else◌,
}
use spur_api.Base.Int.{ℤ}
use spur_api.Database.{ProjectRow, SimulationRunRow, queued, State, Issue, ValidationResult}
use spur_api.Json.{Fields}
use spur_api.Action.{
  Action, Result, ok, err, project_invalid, unhandled, pure, raise, raise_if, modify, ◌>>=◌, ◌>>◌,
}
use spur_api.Projects
use spur_api.Projects.{run_key}
use spur_api.Runs.{Run, to_schema, get_row}
use spur_api.Settings.{Settings}
use spur_api.Horizon.{derive_until}
use spur_api.Table

-- MAX_SEED of spur_api/schemas/run.py
abbrev pub max_seed : ℕ
max_seed = 2 ^ 63 - 1

-- What a submission draws from outside: `validate` of spur, the settings, the UUIDs of its runs and
-- batch, the time, `secrets.randbelow`, and for a run's job what `enqueue_job` does: `none` is an
-- exception, `some none` means that there was such a job, `some (some j)` is the new job's id.
pub record Outside : Type 0 where
  pub validate : Fields → ValidationResult
  pub settings : Settings
  pub run_id : ℕ → ℕ
  pub batch_id : ℕ
  pub now : ℕ
  pub randbelow : ℕ → ℕ
  pub enqueue : ℕ → Option (Option String)

-- The arguments of `submit_run` besides the project: the body that `RunCreate` has checked.
pub record Submission : Type 0 where
  pub until : Option ℤ
  pub chunk_size : Option ℤ
  pub seed : Option ℕ
  pub name : Option String
  pub seeds : ℕ

-- sum(i.severity == "error" for i in issues)
abbrev pub count_errors : List Issue → ℕ
count_errors [] = 0
count_errors (i ∷ issues) = (if i.severity == "error" then 1 else 0) + count_errors issues

-- `db.add_all`
unfoldable pub insert_all : List SimulationRunRow → List SimulationRunRow → List SimulationRunRow
insert_all [] runs = runs
insert_all (r ∷ rows) runs = insert_all rows (Table.insert run_key r runs)

abbrev pub add_runs : List SimulationRunRow → State → State
add_runs rows s = record s { simulation_runs = insert_all rows s.simulation_runs }

-- The second commit writes the one column.
abbrev pub set_job : ℕ × Option String → SimulationRunRow → SimulationRunRow
set_job (i, job) r = record r { arq_job_id = if num_eq r.id i then job else r.arq_job_id }

unfoldable pub record_jobs :
    List (ℕ × Option String) → List SimulationRunRow → List SimulationRunRow
record_jobs [] runs = runs
record_jobs (j ∷ jobs) runs = record_jobs jobs (map (set_job j) runs)

abbrev pub save_jobs : List (ℕ × Option String) → State → State
save_jobs jobs s = record s { simulation_runs = record_jobs jobs s.simulation_runs }

-- `run_rows[0]`, read again
abbrev pub first_run : List SimulationRunRow → Action Run
first_run [] = raise (unhandled "IndexError")
first_run (r ∷ rows) = do row ← get_row r.id; pure (to_schema row)

module _ (o : Outside) where
  -- `seed`, or one that the server picks so that the batch can count up from it
  unfoldable pub first_seed : Submission → ℕ
  first_seed body = Option.get_or body.seed (o.randbelow (max_seed + 2 - body.seeds))

  -- `uuid4() if seeds > 1 else None`
  abbrev pub batch_of : Submission → Option ℕ
  batch_of body = if ltb 1 body.seeds then some o.batch_id else none

  abbrev pub horizon_of : Submission → Fields → Result ℤ
  horizon_of body spec = elim body.until [ none ↦ derive_until o.settings spec | some u ↦ ok u ]

  -- The `i`-th run of the submission, with the defaults of its columns.
  unfoldable pub run_row : ProjectRow → Submission → ℤ → ℕ → ℕ → SimulationRunRow
  run_row project body until_target first i = record {
    id = o.run_id i;
    project_id = project.id;
    status = queued;
    name = body.name;
    requested_until = body.until;
    until_target = some until_target;
    chunk_size = body.chunk_size;
    seed = some (first + i);
    batch_id = batch_of body;
    spec_snapshot = some project.spec;
    project_version = some project.version;
    sim_time_now = none;
    arq_job_id = none;
    error_message = none;
    cancel_requested = false;
    created_at = o.now;
    started_at = none;
    finished_at = none;
  }

  -- for i in range(i, i + n)
  unfoldable pub run_rows : ProjectRow → Submission → ℤ → ℕ → ℕ → ℕ → List SimulationRunRow
  run_rows project body until_target first i zero = []
  run_rows project body until_target first i (suc n) =
      run_row project body until_target first i ∷ run_rows project body until_target first (i + 1) n

  -- `redis.enqueue_job("run_simulation", id)`
  abbrev pub enqueue_job : ℕ → Action (Option String)
  enqueue_job i s = elim (o.enqueue i) [
    | none ↦ (err (unhandled "RedisError"), s)
    | some none ↦ (ok none, s)
    | some (some j) ↦ (ok (some j), record s { jobs = s.jobs ++ i ∷ [] })
  ]

  -- The loop over the rows: each run with the id of its job.
  unfoldable pub enqueue_rows : List SimulationRunRow → Action (List (ℕ × Option String))
  enqueue_rows [] = pure []
  enqueue_rows (r ∷ rows) = do
    job ← enqueue_job r.id
    rest ← enqueue_rows rows
    pure ((r.id, job) ∷ rest)

  unfoldable pub submit_run : ℕ → Submission → Action Run
  unfolding first_seed enqueue_rows
  submit_run project_id body = do
    project ← Projects.get_row project_id
    let result = o.validate project.spec
    raise_if (not result.valid)
        (project_invalid project_id (count_errors result.issues) result.issues)
    until_target ← (λ s. (horizon_of body project.spec, s))
    let rows = run_rows project body until_target (first_seed body) 0 body.seeds
    modify (add_runs rows)
    jobs ← enqueue_rows rows
    modify (save_jobs jobs)
    first_run rows
