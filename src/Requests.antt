-- ===== src/Requests.antt =====
-- What changes the stored state, one after another: the requests that the routes of
-- spur_api/routers/projects.py and runs.py hand to the services, and the commits of the jobs of
-- spur_api/worker/tasks.py.
pub mod Promises
pub mod Frame
pub mod Locking
use spur_api.Base.{ℕ, ◌≡◌, String, Bool, Option, none, some, List, [], ◌∷◌}
use spur_api.Base.Int.{ℤ}
use spur_api.Action.{Result}
use spur_api.Json.Equality.{IsDictFields}
use spur_api.Database.{State, empty}
use spur_api.Projects.{ProjectCreate, find_project, create_project, update_project, delete_project}
use spur_api.Runs.{rename_run, delete_run, request_cancel}
use spur_api.Runs.Submit.{Outside, Submission, submit_run}
use spur_api.Consistency.{IsConsistent}
use spur_api.Consistency.Runs.{HasNewIds}
use spur_api.Spur.{SimEvent}
use spur_api.Worker.Runner.{Outcome}
use spur_api.Worker.Tasks.{update_run, set_running, on_chunk, conclude}
use spur_api.Consistency.Work.{start_work-Keeps, on_chunk-Keeps, end_work-Keeps}
use spur_api.Consistency.Operations.{
  create_project-IsConsistent, update_project-IsConsistent, delete_project-IsConsistent,
  submit_run-IsConsistent, rename_run-IsConsistent, request_cancel-IsConsistent,
  delete_run-IsConsistent,
}

-- A request, whether it is answered or refused, or a commit of a job: its start, a chunk, or its end.
-- Of what comes from outside, a spec has dicts with
-- distinct keys, and a UUID is new.
pub data Step (s : State) : State → Type 0 where
  create :
      (id now : ℕ) (spec : ProjectCreate) (owner : Option String) (base : Option ℕ)
      → IsDictFields spec.dump
      → find_project id s ≡ none
      → Step s (create_project id now spec owner base s).1
  update :
      (now i : ℕ) (spec : ProjectCreate) (expected : Option ℤ)
      → IsDictFields spec.dump
      → Step s (update_project now i spec expected s).1
  delete : (i : ℕ) → Step s (delete_project i s).1
  submit :
      (o : Outside) (i : ℕ) (body : Submission) → HasNewIds o s → Step s (submit_run o i body s).1
  rename : (i : ℕ) (name : Option String) → Step s (rename_run i name s).1
  cancel : (i : ℕ) → Step s (request_cancel i s).1
  delete_one : (i : ℕ) → Step s (delete_run i s).1
  start_work : (i now : ℕ) → Step s (update_run i (set_running now) s).1
  work :
      (i seq : ℕ) (meanwhile : List (State → State)) (broken : Bool) (time : ℤ)
      (events : List SimEvent)
      → Step s
          (on_chunk i time events
            (record { db = s; seq = seq; meanwhile = meanwhile; broken = broken })).1.db
  end_work :
      (i now seq : ℕ) (meanwhile : List (State → State)) (broken : Bool) (x : Result Outcome)
      → Step s
          (conclude i now
            (x, record { db = s; seq = seq; meanwhile = meanwhile; broken = broken })).1

pub data Reach (s : State) : State → Type 0 where
  here : Reach s s
  next : {t u : State} → Reach s t → Step t u → Reach s u

-- Every request and every commit of a job keeps the state consistent.
pub Step-IsConsistent : {s t : State} → Step s t → IsConsistent s → IsConsistent t
Step-IsConsistent {s} (create id now spec owner base dict fresh) h =
    create_project-IsConsistent s h id now spec owner base dict fresh
Step-IsConsistent {s} (update now i spec expected dict) h =
    update_project-IsConsistent s h now i spec expected dict
Step-IsConsistent {s} (delete i) h = delete_project-IsConsistent s h i
Step-IsConsistent {s} (submit o i body ids) h = submit_run-IsConsistent s h o i body ids
Step-IsConsistent {s} (rename i name) h = rename_run-IsConsistent s h i name
Step-IsConsistent {s} (cancel i) h = request_cancel-IsConsistent s h i
Step-IsConsistent {s} (delete_one i) h = delete_run-IsConsistent s h i
Step-IsConsistent {s} (start_work i now) h = (start_work-Keeps i now s).0 h
Step-IsConsistent {s} (work i seq meanwhile broken time events) h =
    (on_chunk-Keeps i time events
        (record { db = s; seq = seq; meanwhile = meanwhile; broken = broken })).0
      h
Step-IsConsistent {s} (end_work i now seq meanwhile broken x) h =
    (end_work-Keeps i now x
        (record { db = s; seq = seq; meanwhile = meanwhile; broken = broken })).0
      h

-- After any requests, from a consistent state, the state is consistent.
pub Reach-IsConsistent : {s t : State} → IsConsistent s → Reach s t → IsConsistent t
Reach-IsConsistent h here = h
Reach-IsConsistent h (next r step) = Step-IsConsistent step (Reach-IsConsistent h r)

pub empty-IsConsistent : IsConsistent empty
empty-IsConsistent = record {
  projects_keyed = tt;
  runs_keyed = tt;
  versions = tt;
  families = tt;
  runs = tt;
}
