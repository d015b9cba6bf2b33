-- ===== src/Runs/Submit/Queued.antt =====
-- How a submission that is accepted by `submit_run` of spur_api/services/runs_service.py ends.
use spur_api.Base.{
  if◌then◌else◌, ltb, none, ℕ, suc, ◌+◌, ◌<◌, ◌≡◌, ◌≢◌, refl, ap, ◌∙◌, String, true, ltb, none,
  some, ◌++◌, arith,
}
use spur_api.Base.Int.{ℤ}
use spur_api.Database.{queued, ProjectRow, SimulationRunRow, State}
use spur_api.Action.{ok}
use spur_api.Projects.{find_project}
use spur_api.Runs.{to_schema, find_run}
use spur_api.Runs.Submit.{
  Outside, Submission, first_seed, horizon_of, run_row, add_runs, submit_run,
}
use spur_api.Runs.Submit.Branches.{after_enqueue, submit_run-accepts}
use spur_api.Runs.Submit.Batch.{
  ids_from, rows_from, queued_row, after, enqueue_rows-jobs, first_run-found, after-new, after-old,
}
use spur_api.Consistency.Runs.{HasNewIds}

-- The `k`-th run of a submission, once its job is queued.
pub record IsQueuedRun (o : Outside) (job : ℕ → String) (p : ProjectRow) (body : Submission)
    (until_target : ℤ) (k : ℕ) (r : SimulationRunRow) : Type 0 where
  pub project_id : r.project_id ≡ p.id
  pub status : r.status ≡ queued
  pub seed : r.seed ≡ some (first_seed o body + k)
  pub given_seed : (v : ℕ) → body.seed ≡ some v → r.seed ≡ some (v + k)
  pub spec_snapshot : r.spec_snapshot ≡ some p.spec
  pub project_version : r.project_version ≡ some p.version
  pub until_target_found : r.until_target ≡ some until_target
  pub chunk_size : r.chunk_size ≡ body.chunk_size
  pub name : r.name ≡ body.name
  pub batch_id : r.batch_id ≡ (if ltb 1 body.seeds then some o.batch_id else none)
  pub arq_job_id : r.arq_job_id ≡ some (job k)

queued_row-IsQueuedRun :
    (o : Outside) (job : ℕ → String) (p : ProjectRow) (body : Submission) (until_target : ℤ) (k : ℕ)
    → IsQueuedRun o job p body until_target k
        (queued_row o job p body until_target (first_seed o body) k)
unfolding run_row first_seed
queued_row-IsQueuedRun o job p body until_target k = record {
  project_id = refl;
  status = refl;
  seed = refl;
  given_seed = λ v e. ground (arith, e);
  spec_snapshot = refl;
  project_version = refl;
  until_target_found = refl;
  chunk_size = refl;
  name = refl;
  batch_id = refl;
  arq_job_id = refl;
}

-- A submission of at least one seed for a valid project, with Redis at work and new UUIDs, is
-- answered with its first run; each of its runs is stored as queued with the seed that counts up
-- from the first, the spec, the version, the horizon and its job's id; the jobs are queued in
-- order and no other run and no event is touched.
pub submit_run_queues :
    (o : Outside) (job : ℕ → String) (i : ℕ) (body : Submission) (s : State) (p : ProjectRow)
    (until_target : ℤ) (n : ℕ)
    → find_project i s ≡ some p
    → (o.validate p.spec).valid ≡ true
    → horizon_of o body p.spec ≡ ok until_target
    → body.seeds ≡ suc n
    → HasNewIds o s
    → ((k : ℕ) → o.enqueue (o.run_id k) ≡ some (some (job k)))
    → (t : State) × (first : SimulationRunRow) × (submit_run o i body s ≡ (ok (to_schema first), t))
      × (find_run (o.run_id 0) t ≡ some first)
      × (t.jobs ≡ s.jobs ++ ids_from o 0 body.seeds)
      × (t.run_events ≡ s.run_events)
      × ((k : ℕ)
          → k < body.seeds
          → (r : SimulationRunRow) × (find_run (o.run_id k) t ≡ some r)
            × IsQueuedRun o job p body until_target k r)
      × ((j : ℕ) → ((k : ℕ) → k < body.seeds → o.run_id k ≢ j) → find_run j t ≡ find_run j s)
submit_run_queues o job i body s p until_target n found valid horizon size ids works =
    let first = first_seed o body in
    let t = after o job p body until_target first body.seeds s in
    let rows = rows_from o job p body until_target first 0 body.seeds in
    let accepted = submit_run-accepts o i body s p found until_target valid horizon in
    let enqueued =
      enqueue_rows-jobs o job p body until_target first works 0 body.seeds (add_runs rows s) in
    let at_first = after-new o job p body until_target first body.seeds 0 s ids (omega arith) in
    (
      t,
      queued_row o job p body until_target first 0,
      accepted
          ∙ ap (after_enqueue rows) enqueued
          ∙ first_run-found o job p body until_target first body.seeds n t _ size at_first,
      at_first,
      refl,
      refl,
      λ k below. (
        queued_row o job p body until_target first k,
        after-new o job p body until_target first body.seeds k s ids below,
        queued_row-IsQueuedRun o job p body until_target k,
      ),
      λ j. after-old o job p body until_target first body.seeds j s,
    )
