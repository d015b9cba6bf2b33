-- ===== src/Worker/Tasks/Reports.antt =====
-- How a job of spur_api/worker/tasks.py ends, and what it has stored then.
use spur_api.Base.{ℕ, false, ◌≡◌, refl, sym, ◌∙◌, some, List, [], arith, All}
use spur_api.Database.{SimulationRunRow, RunStatus, queued, running, State}
use spur_api.Database as D
use spur_api.Json.{Fields}
use spur_api.Runs.{find_run, save_run}
use mathlib.Core.Option.{some-injective}
use spur_api.Action.{Result, ok, err, unhandled}
use spur_api.Settings.{Settings}
use spur_api.Spur.{Simulator, HasClock}
use spur_api.Worker.Runner.{Outcome, completed, cancelled, SpurRunner}
use spur_api.Worker.Runner.Totality.{run_rule}
use spur_api.Worker.Tasks.{
  Session, callbacks, event_rows, conclude, settle, set_failed, set_finished, set_running, spec_of,
  runner_of, run_job, run_simulation,
}
use spur_api.Worker.Tasks.Lifecycle.{
  Alive, Survives, update_run-found, conclude-whole, IsFinal, IsFinished,
}
use spur_api.Worker.Tasks.Whole.{IsWhole, WholeAfter, whole_rules}
use spur_api.Worker.Tasks.Accounts.{KeptAfter, Kept, kept_rules}
use spur_api.Worker.Tasks.Storage.{KeepsEvents, stored}

module _ (sim : Simulator) (settings : Settings) (i : ℕ) (r : SpurRunner) where
  -- The run has ended, and its status tells how much of what was produced is stored.
  abbrev pub Told : RunStatus → State → Type 0
  Told D.completed t = Kept sim settings i r (ok completed) t
  Told D.cancelled t = Kept sim settings i r (ok cancelled) t
  Told D.failed t = Kept sim settings i r (err (unhandled "")) t
  Told _ t = ⊥

  abbrev pub IsTold : ℕ → State → Type 0
  IsTold now t =
      (row : SimulationRunRow) × (find_run i t ≡ some row)
      × (row.finished_at ≡ some now)
      × Told row.status t

  settle-IsTold :
      (now : ℕ) (x : Result Outcome × Session)
      → Alive i x.1
      → KeptAfter sim settings i r x
      → (settle i now x.0 x.1.db ≡ (ok tt, (settle i now x.0 x.1.db).1))
        × IsTold now (settle i now x.0 x.1.db).1
  unfolding settle
  settle-IsTold now (err e, w) h kept =
      let (saved, found) = update_run-found i (set_failed now e) w.db h.row (λ x. refl) h.there in
      rw saved (refl, (set_failed now e h.row, found, refl, kept))
  settle-IsTold now (ok completed, w) h kept =
      let (saved, found) =
        update_run-found i (set_finished now completed) w.db h.row (λ x. refl) h.there in
      rw saved (refl, (set_finished now completed h.row, found, refl, kept))
  settle-IsTold now (ok cancelled, w) h kept =
      let (saved, found) =
        update_run-found i (set_finished now cancelled) w.db h.row (λ x. refl) h.there in
      rw saved (refl, (set_finished now cancelled h.row, found, refl, kept))

  conclude-IsTold :
      (now : ℕ) (x : Result Outcome × Session)
      → IsWhole i x.1
      → KeptAfter sim settings i r x
      → (conclude i now x ≡ (ok tt, (conclude i now x).1)) × IsTold now (conclude i now x).1
  conclude-IsTold now (x, w) h kept =
      rw (conclude-whole i now x w h.whole) (settle-IsTold now (x, w) h.alive kept)

module _ (sim : Simulator) (clock : HasClock sim) (settings : Settings) (i : ℕ) where
  run_job-IsTold :
      (now : ℕ) (meanwhile : List (State → State)) (r : SimulationRunRow) (spec : Fields)
      (s : State)
      → Alive i (record { db = s; seq = 0; meanwhile = meanwhile; broken = false })
      → All (KeepsEvents i) meanwhile
      → stored i s ≡ []
      → (t : State) × (run_job sim settings i now meanwhile r spec s ≡ some (ok tt, t))
        × IsTold sim settings i (runner_of r spec) now t
  unfolding run_job event_rows
  run_job-IsTold now meanwhile r spec s h spared fresh =
      let w : Session = record { db = s; seq = 0; meanwhile = meanwhile; broken = false } in
      let runner = runner_of r spec in
      let (x, ended, whole) =
        run_rule sim clock (callbacks i) settings w runner (WholeAfter i sim clock settings) (
          whole_rules i sim clock settings w runner (record {
            past = [];
            alive = h;
            follows = record { rows = fresh; next_seq = refl; spared = spared };
            whole = refl;
          })) in
      let (y, ended_too, kept) =
        run_rule sim clock (callbacks i) settings w runner (KeptAfter sim settings i runner) (
          kept_rules sim settings i runner clock w
            (record { rows = fresh; next_seq = refl; spared = spared })) in
      let same : y ≡ x = some-injective y x (sym ended_too ∙ ended) in
      let (saved, told) = conclude-IsTold sim settings i runner now x whole (rw same at kept) in
      ((conclude i now x).1, rw (ended, saved), told)

  -- A job for a run that is there and has no events ends in a final status that tells what is
  -- stored, numbered from 0 in the order it was produced: all events for a completed run, whose
  -- clock has reached the target, those of the start and of the chunks so far for a cancelled
  -- one, and a first part of these for a failed one; if the requests served meanwhile neither
  -- delete the run nor touch its events, and the clock does as documented.
  pub job_stores :
      (started finished : ℕ) (meanwhile : List (State → State)) (s : State) (r : SimulationRunRow)
      (spec : Fields)
      → find_run i s ≡ some r
      → spec_of r s ≡ some spec
      → All (Survives i) meanwhile
      → All (KeepsEvents i) meanwhile
      → stored i s ≡ []
      → (t : State) × (run_simulation sim settings i started finished meanwhile s ≡ some (ok tt, t))
        × IsTold sim settings i (runner_of r spec) finished t
  unfolding run_simulation
  job_stores started finished meanwhile s r spec found has_spec spared untouched fresh =
      let (saved, there) = update_run-found i (set_running started) s r (λ x. refl) found in
      let (t, ran, told) =
        run_job-IsTold finished meanwhile r spec (save_run (set_running started r) s)
          (record { row = set_running started r; there = there; spared = spared }) untouched
          fresh in
      (t, ground arith, told)

  Told-IsFinal :
      (r : SpurRunner) (status : RunStatus) (t : State)
      → Told sim settings i r status t
      → IsFinal status
  Told-IsFinal r queued t told = told
  Told-IsFinal r running t told = told
  Told-IsFinal r D.completed t told = tt
  Told-IsFinal r D.failed t told = tt
  Told-IsFinal r D.cancelled t told = tt

  -- The final status alone, and the time
  pub job_finishes :
      (started finished : ℕ) (meanwhile : List (State → State)) (s : State) (r : SimulationRunRow)
      (spec : Fields)
      → find_run i s ≡ some r
      → spec_of r s ≡ some spec
      → All (Survives i) meanwhile
      → All (KeepsEvents i) meanwhile
      → stored i s ≡ []
      → (t : State) × (run_simulation sim settings i started finished meanwhile s ≡ some (ok tt, t))
        × IsFinished i finished t
  job_finishes started finished meanwhile s r spec found has_spec spared untouched fresh =
      let (t, ran, (row, there, at, told)) =
        job_stores started finished meanwhile s r spec found has_spec spared untouched fresh in
      (t, ran, (row, there, Told-IsFinal (runner_of r spec) row.status t told, at))
