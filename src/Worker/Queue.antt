-- ===== src/Worker/Queue.antt =====
-- spur_api/worker/settings.py: the arq worker that is configured there. With `max_jobs = 1` it runs the
-- queued jobs one after another, and a job that raises ends that job alone (arq's documentation).
pub mod Drained
pub mod Requests
use mathlib.Core.Option
use spur_api.Base.{ℕ, String, Option, none, some, List, [], ◌∷◌}
use spur_api.Database.{State}
use spur_api.Action.{Result}
use spur_api.Settings.{Settings}
use spur_api.Spur.{Simulator}
use spur_api.Worker.Tasks.{run_simulation}

pub record WorkerSettings : Type 0 where
  pub redis_settings : String
  pub max_jobs : ℕ

abbrev pub worker_settings : Settings → WorkerSettings
worker_settings settings = record { redis_settings = settings.redis_url; max_jobs = 1 }

-- The times at which a job starts and ends, and what other requests do before each of its checks
pub record Visit : Type 0 where
  pub started : ℕ
  pub finished : ℕ
  pub meanwhile : List (State → State)

module _ (sim : Simulator) (settings : Settings) where
  abbrev pub after_job : Option (Result (Unit {0}) × State) → Option State
  after_job none = none
  after_job (some (result, s)) = some s

  -- One job, if one waits; `none` would mean that it did not end.
  abbrev pub take_job : Visit → List ℕ → State → Option State
  take_job v [] s = some s
  take_job v (i ∷ jobs) s =
      after_job
        (run_simulation sim settings i v.started v.finished v.meanwhile (record s { jobs = jobs }))

  unfoldable pub work_off : List Visit → State → Option State
  work_off [] s = some s
  work_off (v ∷ visits) s = elim (take_job v s.jobs s) [ none ↦ none | some t ↦ work_off visits t ]
