-- ===== src/Tests/Worker.antt =====
-- A job of the small project, on a model that has one event in each chunk.
use spur_api.Base.{ℕ, ◌+◌, ◌≡◌, refl, false, none, some, [], ◌∷◌, arith, if◌then◌else◌}
use spur_api.Base.Int.{ℤ, pos, negsuc, ltb_ℤ}
use spur_api.Json.{Fields}
use spur_api.Settings.{default_settings}
use spur_api.Database.{State, SimulationRunRow, failed}
use spur_api.Action.{Result, ok, err, unhandled}
use spur_api.Spur.{SimEvent, built, Simulator, HasClock}
use spur_api.Runs.{find_run, request_cancel}
use spur_api.Worker.Runner.{Outcome, Callbacks, SpurRunner, build_model, run}
use spur_api.Worker.Runner.Totality.{run_total}
use spur_api.Worker.Tasks.{run_simulation, runner_of}
use spur_api.Worker.Tasks.Backwards.{negative_chunk_fails}
use spur_api.Worker.Tasks.Meanwhile.{request_cancel-IsEdit, edit-Survives, edit-KeepsEvents}
use spur_api.Worker.Tasks.Reports.{job_stores, IsTold}
use spur_api.Tests.Samples.{first_body, submitted, submitted_row, requests}

abbrev pub event_at : ℤ → SimEvent
event_at t = record {
  time = t;
  event = "move";
  train_uid = "T";
  component_uid = "A";
  component_type = "TimedSegment";
}

-- A model that is its clock.
abbrev pub clock_sim : Simulator
clock_sim = record {
  Model = ℤ;
  build = λ project seed. built (pos 0);
  start = λ m. (m, event_at m ∷ []);
  now = λ m. m;
  run = λ u m. if ltb_ℤ m u then ok (u, event_at u ∷ []) else err (unhandled "ValueError");
  log_current_state = λ m. ok (m, event_at m ∷ []);
}

pub clock_sim-HasClock : HasClock clock_sim
clock_sim-HasClock = record {
  run_until = λ u m m' events e. ground arith;
  run_past = λ u m late. (unhandled "ValueError", ground arith);
}

-- Somebody asks for the cancellation while the job runs.
abbrev pub cancel : State → State
cancel s = (request_cancel 20 s).1

abbrev spec : Fields
spec = first_body.dump

abbrev pub runner : SpurRunner
runner = runner_of submitted_row spec

-- A run of the model by itself, with callbacks that count the chunks and ask for no cancellation.
abbrev counting : Callbacks ℕ
counting = record { on_chunk = λ time events n. (ok tt, n + 1); is_cancelled = λ n. (ok false, n) }

run_total_example :
    (x : Result Outcome × ℕ) × (run clock_sim counting default_settings runner 0 ≡ some x)
run_total_example = run_total clock_sim clock_sim-HasClock counting default_settings runner 0

job_stores_example :
    (t : State) × (run_simulation clock_sim default_settings 20 110 120 (cancel ∷ []) submitted
      ≡ some (ok tt, t))
    × IsTold clock_sim default_settings 20 runner 120 t
unfolding requests
job_stores_example =
    job_stores clock_sim clock_sim-HasClock default_settings 20 110 120 (cancel ∷ []) submitted
      submitted_row spec refl refl (edit-Survives 20 cancel (request_cancel-IsEdit 20), tt)
      (edit-KeepsEvents cancel (request_cancel-IsEdit 20) 20, tt) refl

-- The run was submitted with a chunk_size of -10.
abbrev backwards_row : SimulationRunRow
backwards_row = record submitted_row { chunk_size = some (negsuc 9) }

abbrev backwards : State
backwards = record submitted { simulation_runs = backwards_row ∷ [] }

negative_chunk_fails_example :
    (t : State) × (row : SimulationRunRow) × (run_simulation clock_sim default_settings 20 110 120
        [] backwards
      ≡ some (ok tt, t))
    × (find_run 20 t ≡ some row)
    × (row.status ≡ failed)
    × (row.sim_time_now ≡ none)
    × (t.run_events ≡ [])
unfolding requests
negative_chunk_fails_example =
    negative_chunk_fails clock_sim clock_sim-HasClock default_settings 20 110 120 9 backwards
      backwards_row spec (pos 0) (pos 3600) refl refl refl refl (unfold build_model in refl) refl
      (omega arith)
