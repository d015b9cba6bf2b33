-- ===== src/Worker/Tasks/Stopped/Halfway.antt =====
-- What a job of spur_api/worker/tasks.py that arq stops leaves to the next: its run is marked as running,
-- with its first event.
use spur_api.Base.{ℕ}
use spur_api.Action.{Result}
use spur_api.Settings.{Settings}
use spur_api.Spur.{Simulator, HasClock}
use spur_api.Worker.Runner.{Outcome}
use spur_api.Worker.Tasks.Stopped.{Stoppable, JobEnd, stopped_with, ended}
use spur_api.Worker.Tasks.Stopped.Progress.{HasFirst, StopsHalfway}

module _ (i : ℕ) where
  module _ (sim : Simulator) (clock : HasClock sim) (settings : Settings) where
    abbrev JobStops : Result Outcome × Stoppable → Type 0
    JobStops x = StopsHalfway i x.1

    -- What a job that ended leaves to its next: nothing, or its run with the first event
    abbrev LeavesHalfway : JobEnd → Type 0
    LeavesHalfway (stopped_with t) = HasFirst i t
    LeavesHalfway (ended x) = Unit
