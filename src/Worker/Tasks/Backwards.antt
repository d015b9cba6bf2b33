-- ===== src/Worker/Tasks/Backwards.antt =====
-- A run with a negative chunk_size, which spur_api/schemas/run.py lets through, in a job of
-- spur_api/worker/tasks.py: its first checkpoint lies in the past.
use spur_api.Base.{ℕ, suc, ◌≡◌, refl, some, List, [], true, false, arith}
use spur_api.Base.Int.{ℤ, negsuc, ◌≤ℤ◌, ◌<ℤ◌, ltb_ℤ, min_ℤ, ◌+ℤ◌, +ℤ_parts}
use spur_api.Json.{Fields}
use spur_api.Database.{SimulationRunRow, RunStatus, State}
use spur_api.Database as D
use spur_api.Action.{Error, ok, err}
use spur_api.Settings.{Settings}
use spur_api.Spur.{SimEvent, Simulator, HasClock}
use spur_api.Runs.{find_run, save_run}
use spur_api.Worker.Runner.{
  SpurRunner, Callbacks, build_model, target_of, chunk_of, distance, round, loop, run_loop,
  with_chunk, with_target, with_model, run, after_ask, after_run,
}
use spur_api.Worker.Tasks.{
  Session, callbacks, is_cancelled, settle, set_running, set_failed, spec_of, runner_of, run_job,
  run_simulation,
}
use spur_api.Worker.Tasks.Lifecycle.{update_run-found, conclude-whole}

-- A step back leads to no later time, and neither does the target.
steps_back : (now until_target : ℤ) (n : ℕ) → min_ℤ (now +ℤ negsuc n) until_target ≤ℤ now
steps_back now until_target n = ground (arith, +ℤ_parts now (negsuc n))

module _ (sim : Simulator) (clock : HasClock sim) (settings : Settings) where
  module _ {W : Type 0} (cb : Callbacks W) (until_target : ℤ) (n : ℕ) where
    -- Before anything is handed on, the run to the first checkpoint raises.
    first_round :
        (fuel : ℕ) (m : sim.Model) (b : List SimEvent) (w w₁ : W)
        → sim.now m <ℤ until_target
        → cb.is_cancelled w ≡ (ok false, w₁)
        → (e : Error) × (loop sim cb until_target (negsuc n) (suc fuel) m b w ≡ some (err e, w₁))
    unfolding loop round after_ask after_run
    first_round fuel m b w w₁ ahead asked =
        let (e, raised) =
          clock.run_past (min_ℤ (sim.now m +ℤ negsuc n) until_target) m
            (steps_back (sim.now m) until_target n) in
        let early : ltb_ℤ (sim.now m) until_target ≡ true = ground (arith, ahead) in
        (e, rw (early, asked, raised) refl)

    run_raises :
        (r : SpurRunner) (model : sim.Model) (w w₁ : W)
        → build_model sim r ≡ ok model
        → target_of settings r ≡ ok until_target
        → r.chunk_size ≡ some (negsuc n)
        → sim.now (sim.start model).0 <ℤ until_target
        → cb.is_cancelled w ≡ (ok false, w₁)
        → (e : Error) × (run sim cb settings r w ≡ some (err e, w₁))
    unfolding run with_model with_target with_chunk run_loop chunk_of
    run_raises r model w w₁ built target size ahead asked =
        let (e, raised) =
          first_round (distance sim until_target (sim.start model).0) (sim.start model).0
            (sim.start model).1 w w₁ ahead asked in
        (e, rw (built, target, size) raised)

  module _ (i : ℕ) where
    -- A job that nothing interferes with, for a run with a negative chunk_size that was not
    -- cancelled, goes through and leaves the run as failed, with no event stored and its clock
    -- where it was, if the model builds, there is a target, which is ahead of the clock at the
    -- start, and the clock does as documented.
    pub negative_chunk_fails :
        (started finished n : ℕ) (s : State) (r : SimulationRunRow) (spec : Fields)
        (model : sim.Model) (until_target : ℤ)
        → find_run i s ≡ some r
        → spec_of r s ≡ some spec
        → r.chunk_size ≡ some (negsuc n)
        → r.cancel_requested ≡ false
        → build_model sim (runner_of r spec) ≡ ok model
        → target_of settings (runner_of r spec) ≡ ok until_target
        → sim.now (sim.start model).0 <ℤ until_target
        → (t : State) × (row : SimulationRunRow) × (run_simulation sim settings i started finished
              [] s
            ≡ some (ok tt, t))
          × (find_run i t ≡ some row)
          × (row.status ≡ D.failed)
          × (row.sim_time_now ≡ r.sim_time_now)
          × (t.run_events ≡ s.run_events)
    unfolding run_simulation run_job is_cancelled settle
    negative_chunk_fails started finished n s r spec model until_target found has_spec size
          not_cancelled built target ahead =
        let (saved, there) = update_run-found i (set_running started) s r (λ x. refl) found in
        let s₁ = save_run (set_running started r) s in
        let w : Session = record { db = s₁; seq = 0; meanwhile = []; broken = false } in
        let asked : is_cancelled i w ≡ (ok false, w) =
          rw (is_cancelled, there, not_cancelled) refl in
        let (e, raised) =
          run_raises (callbacks i) until_target n (runner_of r spec) model w w built target size
            ahead asked in
        let (failed, in_table) =
          update_run-found i (set_failed finished e) s₁ (set_running started r) (λ x. refl) there in
        (
          save_run (set_failed finished e (set_running started r)) s₁,
          set_failed finished e (set_running started r),
          rw
              (
                run_simulation,
                found,
                has_spec,
                raised,
                conclude-whole i finished (err e) w refl,
                failed,
              )
              refl,
          in_table,
          refl,
          refl,
          refl,
        )
