-- ===== src/Worker/Tasks/Rerun/Barred.antt =====
-- How a second job of spur_api/worker/tasks.py for a run ends, where the first has stored an event.
use spur_api.Base.{ℕ, ◌≡◌, ◌⊎◌, Option, some, []}
use spur_api.Database.{SimulationRunRow, RunEventRow, RunStatus, running, State}
use spur_api.Database as D
use spur_api.Action.{Result, ok, err, unhandled}
use spur_api.Settings.{Settings}
use spur_api.Spur.{Simulator}
use spur_api.Runs.{find_run}
use spur_api.Worker.Runner.{completed, SpurRunner}
use spur_api.Worker.Tasks.Accounts.{Course, HasLogged, produced, produced_in_all}
use spur_api.Worker.Tasks.Rerun.{IsHalfway}

module _ (i : ℕ) where
  module _ (sim : Simulator) (settings : Settings) (r : SpurRunner) where
    -- The job raised and left the run as running, or its run is a failed one, or it went through with
    -- a model that produced no event.
    abbrev pub IsBarred : Option (Result (Unit {0}) × State) → Type 0
    IsBarred result =
        ((t : State) × (result ≡ some (err (unhandled "PendingRollbackError"), t)) × IsHalfway i t)
        ⊎ ((t : State) × (row : SimulationRunRow) × (result ≡ some (ok tt, t))
            × (find_run i t ≡ some row)
            × ((row.status ≡ D.failed)
                ⊎ ((c : Course sim settings r) × (produced sim settings r c ≡ [])
                    × (row.status ≡ D.completed
                        → HasLogged sim settings r c × (produced_in_all sim settings r c ≡ [])))))
