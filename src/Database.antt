-- ===== src/Database.antt =====
-- spur_api/db/models.py: the rows of the three tables, and the state that requests and the worker
-- share: the tables, and the jobs that wait in Redis. UUIDs are only compared and are numbers, as
-- are timestamps.
use spur_api.Base.{ℕ, String, Bool, Option, List, []}
use spur_api.Base.Int.{ℤ}
use spur_api.Json.{Fields}

pub record ProjectRow : Type 0 where
  pub id : ℕ
  pub owner : Option String
  pub name : Option String
  pub spur_version : String
  pub spec : Fields
  pub version : ℕ
  pub inputs_version : ℕ
  pub base_project_id : Option ℕ
  pub created_at : ℕ
  pub updated_at : ℕ

pub data RunStatus : Type 0 where
  queued running completed failed cancelled : RunStatus

pub record SimulationRunRow : Type 0 where
  pub id : ℕ
  pub project_id : ℕ
  pub status : RunStatus
  pub name : Option String
  pub requested_until : Option ℤ
  pub until_target : Option ℤ
  pub chunk_size : Option ℤ
  pub seed : Option ℕ
  pub batch_id : Option ℕ
  pub spec_snapshot : Option Fields
  pub project_version : Option ℕ
  pub sim_time_now : Option ℤ
  pub arq_job_id : Option String
  pub error_message : Option String
  pub cancel_requested : Bool
  pub created_at : ℕ
  pub started_at : Option ℕ
  pub finished_at : Option ℕ

pub record RunEventRow : Type 0 where
  pub run_id : ℕ
  pub seq : ℕ
  pub time : ℤ
  pub event : String
  pub train_uid : String
  pub component_uid : String
  pub component_type : String

pub record State : Type 0 where
  pub projects : List ProjectRow
  pub simulation_runs : List SimulationRunRow
  pub run_events : List RunEventRow
  -- the runs of the jobs enqueued and not yet taken
  pub jobs : List ℕ

abbrev pub empty : State
empty = record { projects = []; simulation_runs = []; run_events = []; jobs = [] }

-- `spur.validation.Issue` and `ValidationResult`
pub record Issue : Type 0 where
  pub severity : String
  pub path : String
  pub message : String

pub record ValidationResult : Type 0 where
  pub valid : Bool
  pub issues : List Issue
