-- ===== src/Worker/Tasks/Stopped.antt =====
-- A job of spur_api/worker/tasks.py that arq stops, at its timeout or at a shutdown of the worker: an
-- await of the job raises asyncio.CancelledError, which is no Exception. Here it is the await in one of
-- the checks for cancellation.
pub mod Progress
pub mod Meanwhile
pub mod Halfway
use mathlib.Core.Option
use spur_api.Base.{
  ℕ, zero, suc, ◌+◌, ◌≤◌, ◌++◌, ◌≡◌, refl, ap, sym, ◌∙◌, ◌⊎◌, inl, inr, Bool, true, false, Option,
  none, some, List, [], ◌∷◌, arith, All, Bool-cases, Option-cases, length, length-append, keep_if,
  if◌then◌else◌,
}
use spur_api.Base.Int.{ℤ}
use spur_api.Json.{Fields}
use spur_api.Database.{SimulationRunRow, RunEventRow, RunStatus, running, State}
use spur_api.Action.{Error, Result, ok, err, unhandled}
use spur_api.Settings.{Settings}
use spur_api.Spur.{SimEvent, Simulator, HasClock}
use spur_api.Runs.{find_run, save_run}
use spur_api.Worker.Runner.{
  Outcome, completed, cancelled, SpurRunner, Callbacks, returned, flush, build_model, run,
}
use spur_api.Worker.Runner.Totality.{RunRule, run_rule}
use spur_api.Worker.Tasks.{
  Session, on_chunk, is_cancelled, taken, is_empty, serve, catch_up, store_events, set_sim_time,
  conclude, set_running, spec_of, runner_of, event_rows, run_simulation,
}
use spur_api.Worker.Tasks.Lifecycle.{
  Alive, Survives, on_chunk-stores, on_chunk-Alive, is_cancelled-Alive, is_cancelled-state,
  update_run-found,
}
use spur_api.Worker.Tasks.Storage.{
  stored, is_of, Follows, KeepsEvents, asked-Follows, flushed-Follows,
}
use spur_api.Worker.Tasks.Whole.{IsWhole, free_seqs, serve-whole}

-- The session, and how many checks are left before the one that is stopped
pub record Stoppable : Type 0 where
  pub session : Session
  pub left : ℕ
  pub stopped : Bool

abbrev pub chunk_of_stoppable : ℕ → ℤ → List SimEvent → Stoppable → Result (Unit {0}) × Stoppable
chunk_of_stoppable i time events v =
    let (r, w) = on_chunk i time events v.session in (r, record v { session = w })

abbrev pub check : ℕ → ℕ → Stoppable → Result Bool × Stoppable
check i zero v = (err (unhandled "CancelledError"), record v { stopped = true })
check i (suc n) v = let (r, w) = is_cancelled i v.session in (r, record v { session = w; left = n })

abbrev pub stoppable_callbacks : ℕ → Callbacks Stoppable
stoppable_callbacks i = record {
  on_chunk = chunk_of_stoppable i;
  is_cancelled = λ v. check i v.left v;
}

-- The job was stopped, or it went through its `except` branch or to its end.
pub data JobEnd : Type 0 where
  stopped_with : State → JobEnd
  ended : Result (Unit {0}) × State → JobEnd

unfoldable pub conclude_stoppable : ℕ → ℕ → Result Outcome × Stoppable → JobEnd
conclude_stoppable i now (x, v) =
    if v.stopped then stopped_with v.session.db else ended (conclude i now (x, v.session))

module _ (sim : Simulator) (settings : Settings) where
  unfoldable pub run_stoppable_job :
      ℕ → ℕ → ℕ → List (State → State) → SimulationRunRow → Fields → State → Option JobEnd
  unfolding conclude_stoppable
  run_stoppable_job i left now meanwhile r spec s = Option.map (conclude_stoppable i now) (
      run sim (stoppable_callbacks i) settings (runner_of r spec) (record {
        session = record { db = s; seq = 0; meanwhile = meanwhile; broken = false };
        left = left;
        stopped = false;
      }))

  -- The job, stopped at a check if it gets there
  unfoldable pub run_stoppable : ℕ → ℕ → ℕ → ℕ → List (State → State) → State → Option JobEnd
  unfolding run_stoppable_job
  run_stoppable i left started finished meanwhile s = elim (find_run i s) [
    | none ↦ some (ended (err (unhandled "AttributeError"), s))
    | some r ↦ elim (spec_of r s) [
      | none ↦ some (ended (err (unhandled "AttributeError"), s))
      | some spec ↦
          run_stoppable_job i left finished meanwhile r spec (save_run (set_running started r) s)
    ]
  ]
