-- ===== src/Tests/Ticks.antt =====
-- A model with an event at each unit of time, which pausing does not change.
use spur_api.Base.{
  ℕ, zero, suc, ◌+◌, ◌-◌, ◌≡◌, refl, ap, some, none, List, [], ◌∷◌, ◌++◌, ltb, if◌then◌else◌, arith,
}
use spur_api.Base.Int.{ℤ, pos, negsuc, ◌<ℤ◌, ◌≤ℤ◌}
use spur_api.Settings.{default_settings}
use spur_api.Database.{State, SimulationRunRow}
use spur_api.Database as D
use spur_api.Action.{Result, ok, err, unhandled}
use spur_api.Spur.{SimEvent, built, Simulator, HasClock, HasPauses}
use spur_api.Runs.{find_run}
use spur_api.Worker.Runner.{build_model, target_of}
use spur_api.Worker.Tasks.{run_simulation, event_rows}
use spur_api.Worker.Tasks.Storage.{stored}
use spur_api.Worker.Tasks.Meanwhile.{rename_run-IsEdit, edit-Survives, edit-KeepsEvents}
use spur_api.Worker.Tasks.OneRun.{chunks_as_one}
use spur_api.Runs.{rename_run}
use spur_api.Tests.Samples.{first_body, submitted, submitted_row, requests}
use spur_api.Tests.Worker.{event_at, runner}

-- The events after a time, one for each unit.
ticks : ℕ → ℕ → List SimEvent
ticks from zero = []
ticks from (suc n) = event_at (pos (from + 1)) ∷ ticks (from + 1) n

ticks-append : (from n k at : ℕ) → at ≡ from + n → ticks from n ++ ticks at k ≡ ticks from (n + k)
unfolding ticks
ticks-append from zero k at e = let same : at ≡ from = omega arith in ground (arith, same)
ticks-append from (suc n) k at e =
    let longer : suc n + k ≡ suc (n + k) = omega arith in
    rw longer
      (ap (λ l. event_at (pos (from + 1)) ∷ l) (ticks-append (from + 1) n k at (omega arith)))

abbrev run_to : ℤ → ℕ → Result (ℕ × List SimEvent)
run_to (negsuc v) m = err (unhandled "ValueError")
run_to (pos v) m = if ltb m v then ok (v, ticks m (v - m)) else err (unhandled "ValueError")

abbrev tick_sim : Simulator
tick_sim = record {
  Model = ℕ;
  build = λ project seed. built 0;
  start = λ m. (m, event_at (pos m) ∷ []);
  now = λ m. pos m;
  run = run_to;
  log_current_state = λ m. ok (m, event_at (pos m) ∷ []);
}

run_to_until :
    (u : ℤ) (m m' : ℕ) (events : List SimEvent) → run_to u m ≡ ok (m', events) → pos m' ≡ u
run_to_until (negsuc v) m m' events e = absurd (cc e)
run_to_until (pos v) m m' events e = ground arith

run_to_past : (u : ℤ) (m : ℕ) → u ≤ℤ pos m → run_to u m ≡ err (unhandled "ValueError")
run_to_past (negsuc v) m late = refl
run_to_past (pos v) m late = ground arith

run_to_resume :
    (u v : ℤ) (m m₁ m₂ : ℕ) (first second : List SimEvent)
    → u <ℤ v
    → run_to u m ≡ ok (m₁, first)
    → run_to v m₁ ≡ ok (m₂, second)
    → run_to v m ≡ ok (m₂, first ++ second)
run_to_resume (negsuc u) v m m₁ m₂ first second low ran on = absurd (cc ran)
run_to_resume (pos u) (negsuc v) m m₁ m₂ first second low ran on = absurd (cc on)
run_to_resume (pos u) (pos v) m m₁ m₂ first second low ran on =
    let far : (u - m) + (v - u) ≡ v - m = ground arith in
    ground (arith, ticks-append m (u - m) (v - u) u (ground arith), far)

tick_sim-HasClock : HasClock tick_sim
tick_sim-HasClock = record {
  run_until = run_to_until;
  run_past = λ u m late. (unhandled "ValueError", run_to_past u m late);
}

tick_sim-HasPauses : HasPauses tick_sim
tick_sim-HasPauses = record {
  resume = λ u v m m₁ m₂ first second low ran on. run_to_resume u v m m₁ m₂ first second low ran on;
}

abbrev rename : State → State
rename s = (rename_run 20 none s).1

chunks_as_one_example :
    (t : State) × (row : SimulationRunRow) × (run_simulation tick_sim default_settings 20 110 120
        (rename ∷ [])
        submitted
      ≡ some (ok tt, t))
    × (find_run 20 t ≡ some row)
    × (row.status ≡ D.completed
        → (model last : ℕ) × (events : List SimEvent) × (u : ℤ) × (build_model tick_sim runner
            ≡ ok model)
          × (target_of default_settings runner ≡ ok u)
          × (pos model <ℤ u → run_to u model ≡ ok (last, events))
          × (end : ℕ × List SimEvent) × (tick_sim.log_current_state last ≡ ok end)
          × (stored 20 t ≡ event_rows 20 0 (event_at (pos model) ∷ events ++ end.1)))
unfolding requests
chunks_as_one_example =
    chunks_as_one tick_sim tick_sim-HasClock tick_sim-HasPauses default_settings 20 110 120
      (rename ∷ []) submitted submitted_row first_body.dump refl refl
      (edit-Survives 20 (λ s. (rename_run 20 none s).1) (rename_run-IsEdit 20 none), tt)
      (edit-KeepsEvents (λ s. (rename_run 20 none s).1) (rename_run-IsEdit 20 none) 20, tt) refl
