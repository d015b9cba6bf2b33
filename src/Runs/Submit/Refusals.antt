-- ===== src/Runs/Submit/Refusals.antt =====
-- How `submit_run` of spur_api/services/runs_service.py fails: before its first commit, or while it
-- enqueues.
use mathlib.Core.List.{append_assoc, append-nil}
use spur_api.Base.{
  ℕ, zero, suc, ◌+◌, ◌<◌, ◌≡◌, refl, ap, ◌∙◌, String, true, none, some, List, [], ◌∷◌, ◌++◌, arith,
  inl, inr, Bool-cases, Option-cases,
}
use spur_api.Base.Int.{ℤ}
use spur_api.Database.{ProjectRow, SimulationRunRow, State}
use spur_api.Action.{Result-cases, Error, ok, err, unhandled}
use spur_api.Projects.{find_project}
use spur_api.Runs.{find_run}
use spur_api.Runs.Submit.{
  Outside, Submission, first_seed, horizon_of, run_row, run_rows, add_runs, enqueue_rows,
  submit_run,
}
use spur_api.Runs.Submit.Branches.{
  after_enqueue, rows_of, submit_run-accepts, submit_run-missing, submit_run-invalid,
  submit_run-no_horizon,
}
use spur_api.Runs.Submit.Batch.{ids_from, get-insert_all-new}
use spur_api.Runs.Submit.Queued.{submit_run_queues}
use spur_api.Consistency.Runs.{HasNewIds}

-- With Redis at work and new UUIDs, a submission of at least one seed that ends with an exception
-- has stored nothing and queued nothing.
pub refused_submission_keeps :
    (o : Outside) (job : ℕ → String) (i : ℕ) (body : Submission) (s t : State) (n : ℕ) (e : Error)
    → body.seeds ≡ suc n
    → HasNewIds o s
    → ((k : ℕ) → o.enqueue (o.run_id k) ≡ some (some (job k)))
    → submit_run o i body s ≡ (err e, t)
    → t ≡ s
refused_submission_keeps o job i body s t n e size ids works ended =
    elim (Option-cases (find_project i s)) [
      | inl missing ↦ keeps (submit_run-missing o i body s missing)
      | inr (p, found) ↦ elim (Bool-cases (o.validate p.spec).valid) [
        | inr invalid ↦ keeps (submit_run-invalid o i body s p found invalid)
        | inl valid ↦ elim (Result-cases (horizon_of o body p.spec)) [
          | inl (x, raised) ↦ keeps (submit_run-no_horizon o i body s p found valid raised)
          | inr (u, horizon) ↦
              let (t', first, accepted, at_first, queued, untouched, stored, others) =
                submit_run_queues o job i body s p u n found valid horizon size ids works in
              absurd (cc (accepted, ended))
        ]
      ]
    ]
  where
    keeps : {x : Error} → submit_run o i body s ≡ (err x, s) → t ≡ s
    keeps same = cc (same, ended)

module _ (o : Outside) (job : ℕ → String) (p : ProjectRow) (body : Submission)
    (until_target : ℤ) where
  abbrev rows_from : ℕ → ℕ → List SimulationRunRow
  rows_from = run_rows o p body until_target (first_seed o body)

  -- The jobs before the one that fails are queued.
  enqueue_rows-breaks :
      (i n d c : ℕ) (s : State)
      → c ≡ i + d
      → d < n
      → ((k : ℕ) → k < c → o.enqueue (o.run_id k) ≡ some (some (job k)))
      → o.enqueue (o.run_id c) ≡ none
      → enqueue_rows o (rows_from i n) s
        ≡ (err (unhandled "RedisError"), record s { jobs = s.jobs ++ ids_from o i d })
  unfolding run_rows run_row enqueue_rows ids_from
  enqueue_rows-breaks i zero d c s at below works broken = absurd (omega arith)
  enqueue_rows-breaks i (suc n) zero c s at below works broken =
      let here : c ≡ i = omega arith in
      let fails : o.enqueue (o.run_id i) ≡ none = rw here at broken in
      ground (arith, fails, append-nil s.jobs)
  enqueue_rows-breaks i (suc n) (suc d) c s at below works broken =
      let queued = record s { jobs = s.jobs ++ o.run_id i ∷ [] } in
      ground (
        arith,
        works i (omega arith),
        append_assoc s.jobs (o.run_id i ∷ []) (ids_from o (i + 1) d),
        enqueue_rows-breaks (i + 1) n d c queued (omega arith) (omega arith) works broken,
      )

-- If Redis fails at one run of a submission that was accepted, the answer is that exception, and
-- yet every run of the submission is stored as queued without a job's id, while only the runs
-- before the one that failed have a job.
pub submit_run_breaks :
    (o : Outside) (job : ℕ → String) (i : ℕ) (body : Submission) (s : State) (p : ProjectRow)
    (until_target : ℤ) (c : ℕ)
    → find_project i s ≡ some p
    → (o.validate p.spec).valid ≡ true
    → horizon_of o body p.spec ≡ ok until_target
    → c < body.seeds
    → HasNewIds o s
    → ((k : ℕ) → k < c → o.enqueue (o.run_id k) ≡ some (some (job k)))
    → o.enqueue (o.run_id c) ≡ none
    → (t : State) × (submit_run o i body s ≡ (err (unhandled "RedisError"), t))
      × (t.jobs ≡ s.jobs ++ ids_from o 0 c)
      × ((k : ℕ)
          → k < body.seeds
          → find_run (o.run_id k) t ≡ some (run_row o p body until_target (first_seed o body) k))
submit_run_breaks o job i body s p until_target c found valid horizon below ids works broken =
    let rows = rows_of o p body until_target in
    let added = add_runs rows s in
    let stopped =
      enqueue_rows-breaks o job p body until_target 0 body.seeds c c added (omega arith) below works
        broken in
    (
      record added { jobs = s.jobs ++ ids_from o 0 c },
      submit_run-accepts o i body s p found until_target valid horizon
          ∙ ap (after_enqueue rows) stopped,
      refl,
      λ k low.
          get-insert_all-new o job p body until_target (first_seed o body) ids.distinct 0 body.seeds
            k s.simulation_runs (omega arith) (omega arith) (ids.unused k),
    )
