-- ===== src/Worker/Tasks/Stopped/Meanwhile.antt =====
-- The requests that edit a run, beside a job of spur_api/worker/tasks.py that arq stops and beside its next.
use spur_api.Base.{ℕ, ◌∙◌}
use spur_api.Database.{State}
use spur_api.Worker.Tasks.Meanwhile.{IsEdit, edited_run, edited_events}
use spur_api.Worker.Tasks.Rerun.{KeepsHalfway}
use spur_api.Worker.Tasks.Stopped.Progress.{KeepsMarked}

module _ (i : ℕ) (request : State → State) (edit : IsEdit request) where
  pub edit-KeepsMarked : KeepsMarked i request
  edit-KeepsMarked s (x, there, running, (spec, has)) =
      let (y, still, snapshot, status) = edited_run i request edit s x there in
      (y, still, status ∙ running, (spec, snapshot ∙ has))

  pub edit-KeepsHalfway : KeepsHalfway i request
  edit-KeepsHalfway s (x, there, running, first) =
      let (y, still, snapshot, status) = edited_run i request edit s x there in
      (y, still, status ∙ running, rw (edited_events request edit s) first)
