-- ===== src/Requests/Frame.antt =====
-- What the requests of spur_api/services/runs_service.py do to the projects.
use spur_api.Base.{
  ℕ, ◌≡◌, refl, String, true, Option, some, List, Option-cases, Bool-cases, inl, inr, ◌∙◌,
}
use spur_api.Database.{ProjectRow, SimulationRunRow, State}
use spur_api.Base.Int.{ℤ}
use spur_api.Action.{Result, ok, err}
use spur_api.Projects.{find_project}
use spur_api.Runs.{find_run, rename_run, delete_run, request_cancel}
use spur_api.Runs.Branches as R
use spur_api.Runs.Submit.{
  Outside, Submission, horizon_of, add_runs, save_jobs, enqueue_rows, submit_run,
}
use spur_api.Runs.Submit.Branches as S
use spur_api.Runs.Submit.Branches.{rows_of, after_enqueue}
use spur_api.Consistency.Runs.{enqueue_rows-frame}

after_enqueue-projects :
    (rows : List SimulationRunRow) (result : Result (List (ℕ × Option String)) × State)
    → (after_enqueue rows result).1.projects ≡ result.1.projects
after_enqueue-projects rows (ok jobs, s) = rw (S.first_run-keeps rows (save_jobs jobs s))
after_enqueue-projects rows (err e, s) = refl

module _ (s : State) where
  pub submit_run-projects :
      (o : Outside) (i : ℕ) (body : Submission) → (submit_run o i body s).1.projects ≡ s.projects
  submit_run-projects o i body = elim (Option-cases (find_project i s)) [
    | inl missing ↦ rw (S.submit_run-missing o i body s missing)
    | inr (p, found) ↦ elim (Bool-cases (o.validate p.spec).valid) [
      | inr invalid ↦ rw (S.submit_run-invalid o i body s p found invalid)
      | inl valid ↦ by_horizon p found valid (horizon_of o body p.spec) refl
    ]
  ]
    where
      by_horizon :
          (p : ProjectRow)
          → find_project i s ≡ some p
          → (o.validate p.spec).valid ≡ true
          → (t : Result ℤ) → horizon_of o body p.spec ≡ t
          → (submit_run o i body s).1.projects ≡ s.projects
      by_horizon p found valid (err e) broken =
          rw (S.submit_run-no_horizon o i body s p found valid broken)
      by_horizon p found valid (ok t) horizon =
          let rows = rows_of o p body t in
          let frame = enqueue_rows-frame o rows (add_runs rows s) in
          rw (S.submit_run-accepts o i body s p found t valid horizon)
            (after_enqueue-projects rows (enqueue_rows o rows (add_runs rows s)) ∙ frame.0)

  pub rename_run-projects :
      (i : ℕ) (name : Option String) → (rename_run i name s).1.projects ≡ s.projects
  rename_run-projects i name = elim (Option-cases (find_run i s)) [
    | inl missing ↦ rw (R.rename_run-missing i s missing name)
    | inr (r, found) ↦ rw (R.rename_run-found i s r found name)
  ]

  pub request_cancel-projects : (i : ℕ) → (request_cancel i s).1.projects ≡ s.projects
  request_cancel-projects i = elim (Option-cases (find_run i s)) [
    | inl missing ↦ rw (R.request_cancel-missing i s missing)
    | inr (r, found) ↦ rw (R.request_cancel-found i s r found)
  ]

  pub delete_run-projects : (i : ℕ) → (delete_run i s).1.projects ≡ s.projects
  delete_run-projects i = elim (Option-cases (find_run i s)) [
    | inl missing ↦ rw (R.delete_run-missing i s missing)
    | inr (r, found) ↦ rw (R.delete_run-found i s r found)
  ]
