-- ===== src/Runs/Submit/Branches.antt =====
-- How `submit_run` of spur_api/services/runs_service.py ends, branch by branch.
use spur_api.Base.{ℕ, ◌≡◌, refl, String, false, true, Option, none, some, List, [], ◌∷◌, arith}
use spur_api.Base.Int.{ℤ}
use spur_api.Database.{ProjectRow, SimulationRunRow, State}
use spur_api.Action.{Result, Error, ok, err, not_found, project, project_invalid}
use spur_api.Projects
use spur_api.Projects.{find_project}
use spur_api.Runs.{Run, get_row}
use spur_api.Runs.Submit.{
  Outside, Submission, count_errors, first_seed, horizon_of, run_rows, add_runs, enqueue_rows,
  save_jobs, first_run, submit_run,
}

-- Reading the first run again changes nothing.
pub first_run-keeps : (rows : List SimulationRunRow) (s : State) → (first_run rows s).1 ≡ s
unfolding get_row
first_run-keeps [] s = refl
first_run-keeps (r ∷ rows) s = ground arith

-- What follows the loop that enqueues: the second commit and the answer, or the exception.
abbrev pub after_enqueue :
    List SimulationRunRow → Result (List (ℕ × Option String)) × State → Result Run × State
after_enqueue rows (ok jobs, s) = first_run rows (save_jobs jobs s)
after_enqueue rows (err e, s) = (err e, s)

-- The rows of a submission that is accepted.
abbrev pub rows_of : Outside → ProjectRow → Submission → ℤ → List SimulationRunRow
rows_of o p body until_target = run_rows o p body until_target (first_seed o body) 0 body.seeds

module _ (o : Outside) (i : ℕ) (body : Submission) (s : State) where
  pub submit_run-missing :
      find_project i s ≡ none → submit_run o i body s ≡ (err (not_found project i), s)
  unfolding submit_run Projects.get_row
  submit_run-missing missing = ground arith

  module _ (p : ProjectRow) (found : find_project i s ≡ some p) where
    -- A project with errors: none is stored and none is queued.
    pub submit_run-invalid :
        (o.validate p.spec).valid ≡ false
        → let issues = (o.validate p.spec).issues in
          submit_run o i body s ≡ (err (project_invalid i (count_errors issues) issues), s)
    unfolding submit_run Projects.get_row
    submit_run-invalid invalid = ground arith

    pub submit_run-no_horizon :
        {e : Error}
        → (o.validate p.spec).valid ≡ true
        → horizon_of o body p.spec ≡ err e
        → submit_run o i body s ≡ (err e, s)
    unfolding submit_run Projects.get_row
    submit_run-no_horizon valid horizon = ground arith

    pub submit_run-accepts :
        (until_target : ℤ)
        → (o.validate p.spec).valid ≡ true
        → horizon_of o body p.spec ≡ ok until_target
        → let rows = rows_of o p body until_target in
          submit_run o i body s ≡ after_enqueue rows (enqueue_rows o rows (add_runs rows s))
    unfolding submit_run Projects.get_row
    submit_run-accepts until_target valid horizon =
        let row : Projects.get_row i s ≡ (ok p, s) = ground arith in ground arith
