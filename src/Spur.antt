-- ===== src/Spur.antt =====
-- What the service uses of the simulation engine `spur`, which is a package of its own: the events,
-- and the model that spur_api/worker/runner.py builds, starts and runs.
use spur_api.Base.{ℕ, String, ◌≡◌, Option, List, ◌++◌, []}
use spur_api.Base.Int.{ℤ, ◌≤ℤ◌, ◌<ℤ◌}
use spur_api.Json.{Fields}
use spur_api.Action.{Error, Result, ok, err}

-- `spur.core.event.SimEvent`, its type by its value
pub record SimEvent : Type 0 where
  pub time : ℤ
  pub event : String
  pub train_uid : String
  pub component_uid : String
  pub component_type : String

-- `Model.from_project_dictionary` returns a model, raises one of the exceptions that `_build_model`
-- takes, or raises another one. An exception of `start`, which comes right after it and is not taken
-- there, counts as another one too.
pub data Built (M : Type 0) : Type 0 where
  built : M → Built M
  refused : String → Built M
  crashed : String → Built M

-- A model's methods, each with the events that it hands to the sink.
pub record Simulator : Type 1 where
  pub Model : Type 0
  pub build : Fields → Option ℕ → Built Model
  pub start : Model → Model × List SimEvent
  pub now : Model → ℤ
  pub run : ℤ → Model → Result (Model × List SimEvent)
  pub log_current_state : Model → Result (Model × List SimEvent)

-- The events of a call that returned; the job stores none of one that raised.
abbrev pub sunk : {M : Type 0} → Result (M × List SimEvent) → List SimEvent
sunk (ok (m, events)) = events
sunk (err e) = []

-- The documented behaviour of the clock: `run(until=u)` takes it to `u`, and raises if `u` is not in
-- the future.
pub record HasClock (sim : Simulator) : Type 0 where
  pub run_until :
      (u : ℤ) (m m' : sim.Model) (events : List SimEvent)
      → sim.run u m ≡ ok (m', events)
      → sim.now m' ≡ u
  pub run_past : (u : ℤ) (m : sim.Model) → u ≤ℤ sim.now m → (e : Error) × (sim.run u m ≡ err e)

-- What pausing a model relies on: a run to `u` and then one on to `v` is the run to `v`, in the model
-- that it ends in and in its events.
pub record HasPauses (sim : Simulator) : Type 0 where
  pub resume :
      (u v : ℤ) (m m₁ m₂ : sim.Model) (first second : List SimEvent)
      → u <ℤ v
      → sim.run u m ≡ ok (m₁, first)
      → sim.run v m₁ ≡ ok (m₂, second)
      → sim.run v m ≡ ok (m₂, first ++ second)
