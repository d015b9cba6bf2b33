-- ===== src/Worker/Tasks.antt =====
-- `run_simulation` of spur_api/worker/tasks.py: the job that runs one simulation and stores its
-- status, its progress and its events.
pub mod Storage
pub mod Lifecycle
pub mod Meanwhile
pub mod Accounts
pub mod Reports
pub mod Readback
pub mod OneRun
pub mod Stable
pub mod Whole
pub mod Rerun
pub mod Stopped
pub mod Backwards
use Prim.Native.String.{◌++◌ as ◌<>◌}
use mathlib.Core.Option
use spur_api.Base.{
  ℕ, zero, suc, ◌+◌, ◌-◌, Bool, true, false, not, ◌&&◌, String, Option, none, some, List, [], ◌∷◌,
  ◌++◌, ◌==◌, leb, ltb, if◌then◌else◌, length, keep_if, map,
}
use spur_api.Base.Int.{ℤ}
use spur_api.Json.{Fields}
use spur_api.Database.{SimulationRunRow, RunEventRow, RunStatus, running, State}
use spur_api.Database as D
use spur_api.Action.{Error, Result, ok, err, invalid_project, unhandled}
use spur_api.Settings.{Settings}
use spur_api.Spur.{SimEvent, Simulator}
use spur_api.Projects.{run_key, find_project}
use spur_api.Runs.{find_run, save_run}
use spur_api.Worker.Runner.{Outcome, completed, cancelled, Callbacks, SpurRunner, run}

-- The job's variables: the tables, the next `seq`, what other requests do to the tables before each
-- check for cancellation, in turn, and whether a commit has failed in its flush. After such a failure
-- SQLAlchemy's session raises PendingRollbackError until it is rolled back.
pub record Session : Type 0 where
  pub db : State
  pub seq : ℕ
  pub meanwhile : List (State → State)
  pub broken : Bool

-- An UPDATE of the run's row and its commit; it raises if the row was deleted.
unfoldable pub update_run :
    ℕ → (SimulationRunRow → SimulationRunRow) → State → Result (Unit {0}) × State
update_run i change s = elim (find_run i s) [
  | none ↦ (err (unhandled "StaleDataError"), s)
  | some r ↦ (ok tt, save_run (change r) s)
]

-- The rows for a chunk's events, `seq` counting up.
unfoldable pub event_rows : ℕ → ℕ → List SimEvent → List RunEventRow
event_rows i seq [] = []
event_rows i seq (e ∷ events) =
    record {
      run_id = i;
      seq = seq;
      time = e.time;
      event = e.event;
      train_uid = e.train_uid;
      component_uid = e.component_uid;
      component_type = e.component_type;
    }
    ∷ event_rows i (seq + 1) events

-- A row of the run whose `seq` is one of the chunk's breaks the unique index on the two.
abbrev pub taken : ℕ → ℕ → ℕ → RunEventRow → Bool
taken i seq n e = e.run_id == i && leb seq e.seq && ltb e.seq (seq + n)

abbrev pub is_empty {ℓ} : {A : Type ℓ} → List A → Bool
is_empty [] = true
is_empty (x ∷ xs) = false

abbrev pub store_events : ℕ → ℕ → List SimEvent → State → State
store_events i seq events s = record s { run_events = s.run_events ++ event_rows i seq events }

abbrev pub set_sim_time : ℤ → SimulationRunRow → SimulationRunRow
set_sim_time time r = record r { sim_time_now = some time }

-- `seq += len(events)`
abbrev pub advance : List SimEvent → Session → Session
advance events w = record w { seq = w.seq + length events }

-- The session after a commit that failed
abbrev pub fail : List SimEvent → Session → Session
fail events w = record w { seq = w.seq + length events; broken = true }

-- `db.add_all`, the progress, and the commit of both: all of it or nothing. `seq` goes on before the
-- commit.
unfoldable pub on_chunk : ℕ → ℤ → List SimEvent → Session → Result (Unit {0}) × Session
on_chunk i time events w =
    elim (is_empty (keep_if (taken i w.seq (length events)) w.db.run_events)) [
      | false ↦ (err (unhandled "IntegrityError"), fail events w)
      | true ↦
          let (r, db) = update_run i (set_sim_time time) (store_events i w.seq events w.db) in
          elim r [
            | err e ↦ (err e, fail events w)
            | ok done ↦ (ok tt, record (advance events w) { db = db })
          ]
    ]

-- What other requests did since the last check.
abbrev pub serve : List (State → State) → Session → Session
serve [] w = w
serve (request ∷ rest) w = record w { db = request w.db; meanwhile = rest }

abbrev pub catch_up : Session → Session
catch_up w = serve w.meanwhile w

-- `db.refresh(run_job, ["cancel_requested"])`
unfoldable pub is_cancelled : ℕ → Session → Result Bool × Session
is_cancelled i w =
    let w' = catch_up w in
    elim (find_run i w'.db) [
      | none ↦ (err (unhandled "InvalidRequestError"), w')
      | some r ↦ (ok r.cancel_requested, w')
    ]

abbrev pub callbacks : ℕ → Callbacks Session
callbacks i = record { on_chunk = on_chunk i; is_cancelled = is_cancelled i }

-- `str(e)`
abbrev pub error_text : Error → String
error_text (invalid_project text) = "Could not build a model from project: " <> text
error_text (unhandled text) = text
error_text _ = ""

abbrev pub set_running : ℕ → SimulationRunRow → SimulationRunRow
set_running now r = record r { status = running; started_at = some now }

abbrev pub set_failed : ℕ → Error → SimulationRunRow → SimulationRunRow
set_failed now e r = record r {
  status = D.failed;
  error_message = some (error_text e);
  finished_at = some now;
}

abbrev pub final_status : Outcome → RunStatus
final_status completed = D.completed
final_status cancelled = D.cancelled

abbrev pub set_finished : ℕ → Outcome → SimulationRunRow → SimulationRunRow
set_finished now outcome r = record r { status = final_status outcome; finished_at = some now }

-- The UPDATE of the `except` branch, or that of the status of the outcome
unfoldable pub settle : ℕ → ℕ → Result Outcome → State → Result (Unit {0}) × State
settle i now (err e) s = update_run i (set_failed now e) s
settle i now (ok outcome) s = update_run i (set_finished now outcome) s

-- After `runner.run`: both branches use the job's session, without a rollback.
unfoldable pub conclude : ℕ → ℕ → Result Outcome × Session → Result (Unit {0}) × State
unfolding settle
conclude i now (x, w) =
    if w.broken then (err (unhandled "PendingRollbackError"), w.db) else settle i now x w.db

-- `spec_snapshot`, or the live project's spec
abbrev pub spec_of : SimulationRunRow → State → Option Fields
spec_of r s = elim r.spec_snapshot [
  | some spec ↦ some spec
  | none ↦ elim (find_project r.project_id s) [ none ↦ none | some p ↦ some p.spec ]
]

abbrev pub runner_of : SimulationRunRow → Fields → SpurRunner
runner_of r spec = record {
  project_dict = spec;
  until = elim r.until_target [ some u ↦ some u | none ↦ r.requested_until ];
  chunk_size = r.chunk_size;
  seed = r.seed;
}

module _ (sim : Simulator) (settings : Settings) where
  -- The job from the first commit on; `none` would mean that the runner's loop did not end.
  unfoldable pub run_job :
      ℕ
      → ℕ
      → List (State → State)
      → SimulationRunRow
      → Fields
      → State
      → Option (Result (Unit {0}) × State)
  run_job i now meanwhile r spec s = Option.map (conclude i now) (
      run sim (callbacks i) settings (runner_of r spec)
        (record { db = s; seq = 0; meanwhile = meanwhile; broken = false }))

  unfoldable pub run_simulation :
      ℕ → ℕ → ℕ → List (State → State) → State → Option (Result (Unit {0}) × State)
  unfolding run_job
  run_simulation i started finished meanwhile s = elim (find_run i s) [
    | none ↦ some (err (unhandled "AttributeError"), s)
    | some r ↦ elim (spec_of r s) [
      | none ↦ some (err (unhandled "AttributeError"), s)
      | some spec ↦ run_job i finished meanwhile r spec (save_run (set_running started r) s)
    ]
  ]
