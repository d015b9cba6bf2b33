-- ===== src/Worker/Tasks/OneRun.antt =====
-- The chunks of spur_api/worker/runner.py, as spur_api/worker/tasks.py stores them, against one run of
-- the model to the target.
use spur_api.Base.{ℕ, ◌≡◌, refl, ◌⊎◌, inl, inr, false, some, List, [], ◌++◌, arith, All, Bool-cases}
use spur_api.Base.Int.{ℤ, ◌+ℤ◌, ◌≤ℤ◌, ◌<ℤ◌, ltb_ℤ, min_ℤ, eq_of_parts}
use spur_api.Json.{Fields}
use spur_api.Database.{SimulationRunRow, State}
use spur_api.Database as D
use spur_api.Action.{ok}
use spur_api.Settings.{Settings}
use spur_api.Spur.{SimEvent, Simulator, HasClock, HasPauses}
use spur_api.Runs.{find_run}
use spur_api.Worker.Runner.{build_model, target_of}
use spur_api.Worker.Tasks.{event_rows, spec_of, runner_of, run_simulation}
use spur_api.Worker.Tasks.Lifecycle.{Survives}
use spur_api.Worker.Tasks.Storage.{KeepsEvents, stored}
use spur_api.Worker.Tasks.Accounts.{Ran, not_yet, further}
use spur_api.Worker.Tasks.Reports.{Told, job_stores}

module _ (sim : Simulator) (clock : HasClock sim) (pauses : HasPauses sim) where
  module _ (u chunk : ℤ) (start : sim.Model) where
    -- No chunk was run, or the chunks are one run to the time that they have come to, which is not
    -- beyond the target.
    abbrev InOne : sim.Model → List SimEvent → Type 0
    InOne m events =
        ((m ≡ start) × (events ≡ []))
        ⊎ ((sim.run (sim.now m) start ≡ ok (m, events)) × (sim.now m ≤ℤ u))

    one_more :
        (m m' : sim.Model) (past events : List SimEvent)
        → sim.run (min_ℤ (sim.now m +ℤ chunk) u) m ≡ ok (m', events)
        → InOne m past
        → InOne m' (past ++ events)
    one_more m m' past events ran one =
        let next = min_ℤ (sim.now m +ℤ chunk) u in
        let arrived : sim.now m' ≡ next = clock.run_until next m m' events ran in
        let bounded : next ≤ℤ u = ground arith in
        elim one [
          | inl (same, nothing) ↦ inr (rw (arrived, nothing, ← same) ran, rw arrived bounded)
          | inr (before, low) ↦ elim (Bool-cases (ltb_ℤ (sim.now m) next)) [
            | inl ahead ↦ inr (
              rw arrived
                  (pauses.resume (sim.now m) next start m m' past events (ground arith) before ran),
              rw arrived bounded,
            )
            | inr late ↦
                let (e, raised) = clock.run_past next m (ground arith) in absurd (cc (ran, raised))
          ]
        ]

    Ran-InOne :
        (m : sim.Model) (events : List SimEvent) → Ran sim u chunk start m events → InOne m events
    Ran-InOne m events not_yet = inl (refl, refl)
    Ran-InOne m all (further {m = m₀} {past} {events} before ran same) =
        rw same (one_more m₀ m past events ran (Ran-InOne m₀ past before))

    Ran-one :
        (m : sim.Model) (events : List SimEvent)
        → Ran sim u chunk start m events
        → sim.now start <ℤ u
        → ltb_ℤ (sim.now m) u ≡ false
        → sim.run u start ≡ ok (m, events)
    Ran-one m events ran early reached = elim (Ran-InOne m events ran) [
      | inl (same, nothing) ↦
          let late : ltb_ℤ (sim.now start) u ≡ false = rw same at reached in absurd (ground arith)
      | inr (before, low) ↦
          let there : sim.now m ≡ u = eq_of_parts (sim.now m) u (ground arith) in rw there at before
    ]

  -- For a run that a job completes, the events that are stored are those of the model's start, of
  -- one run of it to the target, and of its last state, if the target is ahead of the clock at
  -- the start, whatever the chunk size is and if the clock does as documented and pausing a model
  -- does not change what it does; the requests served meanwhile neither delete the run nor touch
  -- its events.
  pub chunks_as_one :
      (settings : Settings) (i : ℕ) (started finished : ℕ) (meanwhile : List (State → State))
      (s : State) (r : SimulationRunRow) (spec : Fields)
      → find_run i s ≡ some r
      → spec_of r s ≡ some spec
      → All (Survives i) meanwhile
      → All (KeepsEvents i) meanwhile
      → stored i s ≡ []
      → (t : State) × (row : SimulationRunRow) × (run_simulation sim settings i started finished
            meanwhile s
          ≡ some (ok tt, t))
        × (find_run i t ≡ some row)
        × (row.status ≡ D.completed
            → (model last : sim.Model) × (events : List SimEvent) × (u : ℤ) × (build_model sim
                  (runner_of r spec)
                ≡ ok model)
              × (target_of settings (runner_of r spec) ≡ ok u)
              × (sim.now (sim.start model).0 <ℤ u
                  → sim.run u (sim.start model).0 ≡ ok (last, events))
              × (end : sim.Model × List SimEvent) × (sim.log_current_state last ≡ ok end)
              × (stored i t ≡ event_rows i 0 ((sim.start model).1 ++ events ++ end.1)))
  chunks_as_one settings i started finished meanwhile s r spec found has_spec spared untouched
        fresh =
      let (t, ran, (row, there, ended, told)) =
        job_stores sim clock settings i started finished meanwhile s r spec found has_spec spared
          untouched fresh in
      (
        t,
        row,
        ran,
        there,
        λ completed.
            let (c, reached, (end, logged), rows) : Told sim settings i (runner_of r spec)
                D.completed t =
              rw completed at told in
            (
              c.model,
              c.last,
              c.events,
              c.until_target,
              c.was_built,
              c.target,
              λ early.
                  Ran-one c.until_target c.chunk (sim.start c.model).0 c.last c.events c.ran early
                    reached,
              end,
              logged,
              rw logged at rows,
            ),
      )
