-- ===== src/Tests/Submissions.antt =====
-- Submissions of the small project: one that is accepted, one that is refused, and one during which
-- Redis fails.
use spur_api.Base.{
  ℕ, ◌+◌, ◌<◌, ◌≡◌, ◌≢◌, refl, false, none, some, [], ◌++◌, arith, if◌then◌else◌, ◌==◌,
}
use spur_api.Base.Int.{pos}
use spur_api.Database.{State, SimulationRunRow}
use spur_api.Action.{ok, err, unhandled, project_invalid}
use spur_api.Runs.{find_run, to_schema}
use spur_api.Runs.Submit.{Outside, run_row, submit_run}
use spur_api.Runs.Submit.Batch.{ids_from}
use spur_api.Runs.Submit.Queued.{IsQueuedRun, submit_run_queues}
use spur_api.Runs.Submit.Refusals.{refused_submission_keeps, submit_run_breaks}
use spur_api.Consistency.Runs.{HasNewIds}
use spur_api.Tests.Samples.{outside, submission, created, created_row, requests}

abbrev strict : Outside
strict = record outside { validate = λ spec. record { valid = false; issues = [] } }

-- Redis fails at the second run.
abbrev broken : Outside
broken = record outside { enqueue = λ i. if i == 21 then none else some (some "job") }

pub outside-HasNewIds : HasNewIds outside created
unfolding requests
outside-HasNewIds = record { distinct = λ i j e. omega arith; unused = λ i. refl }

strict-HasNewIds : HasNewIds strict created
unfolding requests
strict-HasNewIds = record { distinct = λ i j e. omega arith; unused = λ i. refl }

broken-HasNewIds : HasNewIds broken created
unfolding requests
broken-HasNewIds = record { distinct = λ i j e. omega arith; unused = λ i. refl }

submit_run_queues_example :
    (t : State) × (first : SimulationRunRow) × (submit_run outside 7 submission created
      ≡ (ok (to_schema first), t))
    × (find_run 20 t ≡ some first)
    × (t.jobs ≡ created.jobs ++ ids_from outside 0 2)
    × (t.run_events ≡ created.run_events)
    × ((k : ℕ)
        → k < 2
        → (r : SimulationRunRow) × (find_run (20 + k) t ≡ some r)
          × IsQueuedRun outside (λ k. "job") created_row submission (pos 3600) k r)
    × ((j : ℕ) → ((k : ℕ) → k < 2 → 20 + k ≢ j) → find_run j t ≡ find_run j created)
unfolding requests
submit_run_queues_example =
    submit_run_queues outside (λ k. "job") 7 submission created created_row (pos 3600) 1 refl refl
      refl refl outside-HasNewIds (λ k. refl)

refused_submission_keeps_example : (submit_run strict 7 submission created).1 ≡ created
unfolding requests
refused_submission_keeps_example =
    refused_submission_keeps strict (λ k. "job") 7 submission created _ 1 (project_invalid 7 0 [])
      refl strict-HasNewIds (λ k. refl) refl

submit_run_breaks_example :
    (t : State) × (submit_run broken 7 submission created ≡ (err (unhandled "RedisError"), t))
    × (t.jobs ≡ created.jobs ++ ids_from broken 0 1)
    × ((k : ℕ)
        → k < 2
        → find_run (20 + k) t ≡ some (run_row broken created_row submission (pos 3600) 41 k))
unfolding requests
submit_run_breaks_example =
    submit_run_breaks broken (λ k. "job") 7 submission created created_row (pos 3600) 1 refl refl
      refl (omega arith) broken-HasNewIds (λ k below. ground arith) refl
