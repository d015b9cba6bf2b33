-- ===== src/Tests/Queue.antt =====
-- A worker with the two jobs of a submission, and a job that is run again.
use spur_api.Base.{ℕ, ◌+◌, ◌<◌, ◌≡◌, refl, Option, some, List, [], ◌∷◌, All}
use spur_api.Base.Int.{pos}
use spur_api.Base.Int as I
use spur_api.Worker.Runner as R
use spur_api.Worker.Tasks as T
use spur_api.Settings.{default_settings}
use spur_api.Database.{State, SimulationRunRow}
use spur_api.Action.{ok}
use spur_api.Runs.{rename_run, to_schema}
use spur_api.Runs.Submit.{submit_run}
use spur_api.Worker.Tasks.Meanwhile.{request_cancel-IsEdit}
use spur_api.Worker.Tasks.Stopped.{run_stoppable, stopped_with, JobEnd}
use spur_api.Worker.Queue.{Visit, work_off}
use spur_api.Worker.Queue.Drained.{HasEnded}
use spur_api.Worker.Queue.Requests.{batch_finishes, edit-IsSparing}
use spur_api.Tests.Samples.{outside, submission, created, created_row, submitted, requests}
use spur_api.Tests.Submissions.{outside-HasNewIds}
use spur_api.Tests.Worker.{clock_sim, clock_sim-HasClock, cancel}

-- During the first job somebody asks for its cancellation.
abbrev visits : List Visit
visits =
    record { started = 110; finished = 120; meanwhile = cancel ∷ [] }
    ∷ record { started = 120; finished = 130; meanwhile = [] }
    ∷ []

batch_finishes_example :
    (t u : State) × (first : SimulationRunRow) × (submit_run outside 7 submission created
      ≡ (ok (to_schema first), t))
    × (work_off clock_sim default_settings visits t ≡ some u)
    × ((k : ℕ) → k < 2 → HasEnded u (20 + k))
    × All (HasEnded u) created.jobs
unfolding requests
batch_finishes_example =
    batch_finishes outside clock_sim clock_sim-HasClock default_settings (λ k. "job") 7 submission
      created created_row (pos 3600) 1 visits refl refl refl refl outside-HasNewIds (λ k. refl)
      (λ k. refl) tt tt refl ((edit-IsSparing cancel (request_cancel-IsEdit 20), tt), (tt, tt))

-- The first job of the run was stopped after it had stored an event.
abbrev halfway : State
halfway = record submitted {
  run_events =
      record {
        run_id = 20;
        seq = 0;
        time = pos 0;
        event = "move";
        train_uid = "T";
        component_uid = "A";
        component_type = "TimedSegment";
      }
      ∷ [];
}

-- Somebody renames the run while its first job runs.
abbrev rename : State → State
rename s = (rename_run 20 (some "Late") s).1

-- What a job leaves that was stopped
abbrev left_by : Option JobEnd → State
left_by (some (stopped_with t)) = t
left_by _ = submitted

-- The job of the run was stopped at its second check.
abbrev stopped_state : State
stopped_state =
    left_by (run_stoppable clock_sim default_settings 20 1 110 120 (rename ∷ []) submitted)
