-- ===== src/Worker/Tasks/Readback.antt =====
-- From the job of spur_api/worker/tasks.py to the events that spur_api/services/runs_service.py reads.
use spur_api.Base.{ℕ, ◌≤◌, ◌≡◌, some, List, [], length, All}
use spur_api.Base.Int.{pos}
use spur_api.Json.{Fields}
use spur_api.Database.{SimulationRunRow, State}
use spur_api.Database as D
use spur_api.Action.{ok}
use spur_api.Settings.{Settings}
use spur_api.Spur.{Simulator, HasClock}
use spur_api.Runs.{find_run}
use spur_api.Runs.Results.{get_run_events, everything}
use spur_api.Runs.Results.Events.{events_come_back}
use spur_api.Worker.Tasks.{spec_of, runner_of, run_simulation}
use spur_api.Worker.Tasks.Lifecycle.{Survives}
use spur_api.Worker.Tasks.Storage.{KeepsEvents, stored}
use spur_api.Worker.Tasks.Accounts.{Course, HasLogged, produced_in_all}
use spur_api.Worker.Tasks.Reports.{Told, job_stores}

-- When a job that nothing interferes with has completed its run, reading the events with a high
-- enough limit returns what the model produced, in order: the events of its start, of every chunk
-- and of its last state; if the run had no events before and the clock does as documented.
pub completed_run_events :
    (sim : Simulator) (clock : HasClock sim) (settings : Settings) (i : ℕ) (started finished : ℕ)
    (meanwhile : List (State → State)) (s : State) (r : SimulationRunRow) (spec : Fields)
    → find_run i s ≡ some r
    → spec_of r s ≡ some spec
    → All (Survives i) meanwhile
    → All (KeepsEvents i) meanwhile
    → stored i s ≡ []
    → (t : State) × (row : SimulationRunRow) × (run_simulation sim settings i started finished
          meanwhile s
        ≡ some (ok tt, t))
      × (find_run i t ≡ some row)
      × (row.status ≡ D.completed
          → (c : Course sim settings (runner_of r spec)) × HasLogged sim settings
              (runner_of r spec)
              c
            × ((limit : ℕ)
                → length (produced_in_all sim settings (runner_of r spec) c) ≤ limit
                → get_run_events i everything (pos limit) 0 t
                  ≡ (ok (produced_in_all sim settings (runner_of r spec) c), t)))
completed_run_events sim clock settings i started finished meanwhile s r spec found has_spec spared
      untouched fresh =
    let (t, ran, (row, there, ended, told)) =
      job_stores sim clock settings i started finished meanwhile s r spec found has_spec spared
        untouched fresh in
    (
      t,
      row,
      ran,
      there,
      λ completed.
          let (c, reached, logged, rows) : Told sim settings i (runner_of r spec) D.completed t =
            rw completed at told in
          (c, logged, λ limit enough. events_come_back i _ t row limit there rows enough),
    )
