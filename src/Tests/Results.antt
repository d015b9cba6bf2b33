-- ===== src/Tests/Results.antt =====
-- The results of a run with three events, and of a job.
use mathlib.Core.List.{Perm}
use spur_api.Base.{ℕ, ◌≤◌, ◌≡◌, ◌↔◌, refl, none, some, List, [], ◌∷◌, ◌++◌, map, All, arith, length}
use spur_api.Base.Int.{ℤ, pos, negsuc, ◌≤ℤ◌}
use spur_api.Json.{Fields, done}
use spur_api.Settings.{default_settings}
use spur_api.Database.{State, SimulationRunRow, RunEventRow, running}
use spur_api.Database as D
use spur_api.Action.{ok}
use spur_api.Spur.{SimEvent}
use spur_api.Projects.{update_project}
use spur_api.Runs.{find_run, save_run}
use spur_api.Runs.Results.{
  Analyzed, analyzed, Analysis, Visit, Narrowing, event_from_row, get_run_events, everything,
  chosen, get_run_summary, get_run_visits, analyze_run,
}
use spur_api.Runs.Results.Paging.{event_pages, IsMatch, IsBySeq}
use spur_api.Runs.Results.Metrics.{results_of_snapshot}
use spur_api.Worker.Tasks.{event_rows, run_simulation}
use spur_api.Worker.Tasks.Accounts.{Course, HasLogged, produced_in_all}
use spur_api.Worker.Tasks.Meanwhile.{request_cancel-IsEdit, edit-Survives, edit-KeepsEvents}
use spur_api.Worker.Tasks.Readback.{completed_run_events}
use spur_api.Api.Routes.{get_events}
use spur_api.Api.Limits.{status, IsRefused, get_events_crashes}
use spur_api.Tests.Samples.{first_body, changed_body, submitted, submitted_row, requests}
use spur_api.Tests.Worker.{event_at, clock_sim, clock_sim-HasClock, cancel, runner}

abbrev events : List SimEvent
events = event_at (pos 0) ∷ event_at (pos 36) ∷ event_at (pos 72) ∷ []

abbrev running_row : SimulationRunRow
running_row = record submitted_row { status = running }

abbrev with_events : State
with_events = record (save_run running_row submitted) { run_events = event_rows 20 0 events }

-- A name to unfold: all that a result computes with.
unfoldable results : ℕ
unfolding requests event_rows chosen get_run_events get_run_summary get_run_visits analyze_run
results = 0

-- Two pages of the events from time 36 on
abbrev late : Narrowing
late = record everything { since_time = some (pos 36) }

event_pages_example :
    (rows others : List RunEventRow) × ((event_at (pos 36) ∷ event_at (pos 72) ∷ [])
      ≡ map event_from_row rows)
    × Perm with_events.run_events (rows ++ others)
    × All (IsMatch 20 late) rows
    × All (λ e. IsMatch 20 late e → ⊥) others
    × IsBySeq rows
unfolding results
event_pages_example =
    event_pages 20 late 1 2 with_events (event_at (pos 36) ∷ []) (event_at (pos 72) ∷ []) refl refl
      (omega arith)

abbrev visit_of : SimEvent → Visit
visit_of e = record { train_uid = e.train_uid; component_uid = e.component_uid; rest = done }

abbrev analyze : List SimEvent → Fields → ℤ → Analyzed Analysis
analyze [] spec threshold =
    analyzed (record { run = spec; components = []; trains = []; visits = [] })
analyze (e ∷ rest) spec threshold =
    analyzed
      (record { run = spec; components = []; trains = []; visits = visit_of e ∷ visit_of e ∷ [] })

abbrev saved : State
saved = (update_project 103 7 changed_body none with_events).1

results_of_snapshot_example :
    (get_run_summary analyze 20 (pos 60) saved
      ≡ ((get_run_summary analyze 20 (pos 60) with_events).0, saved))
    × (get_run_visits analyze 20 none (some "A") 10 0 saved
        ≡ ((get_run_visits analyze 20 none (some "A") 10 0 with_events).0, saved))
unfolding results
results_of_snapshot_example =
    results_of_snapshot analyze 20 (pos 60) none (some "A") 10 0 with_events running_row
      first_body.dump 103 7 changed_body none refl refl

completed_run_events_example :
    (t : State) × (row : SimulationRunRow) × (run_simulation clock_sim default_settings 20 110 120
        (cancel ∷ [])
        submitted
      ≡ some (ok tt, t))
    × (find_run 20 t ≡ some row)
    × (row.status ≡ D.completed
        → (c : Course clock_sim default_settings runner) × HasLogged clock_sim default_settings
            runner c
          × ((limit : ℕ)
              → length (produced_in_all clock_sim default_settings runner c) ≤ limit
              → get_run_events 20 everything (pos limit) 0 t
                ≡ (ok (produced_in_all clock_sim default_settings runner c), t)))
unfolding requests
completed_run_events_example =
    completed_run_events clock_sim clock_sim-HasClock default_settings 20 110 120 (cancel ∷ [])
      submitted submitted_row first_body.dump refl refl
      (edit-Survives 20 cancel (request_cancel-IsEdit 20), tt)
      (edit-KeepsEvents cancel (request_cancel-IsEdit 20) 20, tt) refl

get_events_crashes_example :
    (status (get_events 20 everything (negsuc 0) (pos 0) with_events).0 ≡ 500) ↔ (
      (negsuc 0 ≤ℤ pos 10000)
      × (pos 0 ≤ℤ pos 0)
      × ((r : SimulationRunRow) × (find_run 20 with_events ≡ some r))
      × IsRefused everything (negsuc 0) (pos 0))
get_events_crashes_example = get_events_crashes 20 everything (negsuc 0) with_events (pos 0)
