-- ===== src/Consistency/Operations.antt =====
-- Every operation of the two services, on each of its branches, and consistency.
use spur_api.Base.{
  ℕ, ◌≡◌, refl, String, true, Option, none, some, List, Option-cases, Bool-cases, inl, inr, sym,
}
use spur_api.Base.Int.{ℤ}
use spur_api.Json.Equality.{IsDictFields}
use spur_api.Database.{ProjectRow, SimulationRunRow, State}
use spur_api.Action.{Result, ok, err}
use spur_api.Projects.{
  ProjectCreate, find_project, family_base, is_stale, create_project, update_project,
  delete_project,
}
use spur_api.Projects.Branches as P
use spur_api.Runs.{find_run, rename_run, delete_run, request_cancel}
use spur_api.Runs.Branches as R
use spur_api.Runs.Submit.{
  Outside, Submission, horizon_of, first_seed, add_runs, save_jobs, enqueue_rows, submit_run,
}
use spur_api.Runs.Submit.Branches as S
use spur_api.Runs.Submit.Branches.{rows_of, after_enqueue}
use spur_api.Consistency.{IsConsistent}
use spur_api.Consistency.Saves.{save-IsConsistent}
use spur_api.Consistency.Creation.{family_base-HasBase, create-IsConsistent}
use spur_api.Consistency.Deletion.{drop-IsConsistent}
use spur_api.Consistency.Runs.{
  HasNewIds, save_run-IsConsistent, drop_run-IsConsistent, IsConsistent-frame,
  add_runs-IsConsistent, save_jobs-IsConsistent, enqueue_rows-frame,
}

after_enqueue-IsConsistent :
    (rows : List SimulationRunRow) (result : Result (List (ℕ × Option String)) × State)
    → IsConsistent result.1
    → IsConsistent (after_enqueue rows result).1
after_enqueue-IsConsistent rows (ok jobs, s) h =
    rw (S.first_run-keeps rows (save_jobs jobs s)) (save_jobs-IsConsistent jobs s h)
after_enqueue-IsConsistent rows (err e, s) h = h

module _ (s : State) (h : IsConsistent s) where
  pub create_project-IsConsistent :
      (id now : ℕ) (spec : ProjectCreate) (owner : Option String) (base : Option ℕ)
      → IsDictFields spec.dump
      → find_project id s ≡ none
      → IsConsistent (create_project id now spec owner base s).1
  create_project-IsConsistent id now spec owner none dict fresh =
      unfold create_project in create-IsConsistent id now spec owner none s dict fresh tt h
  create_project-IsConsistent id now spec owner (some b) dict fresh =
      elim (Option-cases (find_project b s)) [
        | inl missing ↦ rw (P.create_project-missing b s missing id now spec owner) h
        | inr (p, found) ↦ rw (P.create_project-scenario b s p found id now spec owner) (
            create-IsConsistent id now spec owner (some (family_base p)) s dict fresh
              (family_base-HasBase b s h found) h)
      ]

  pub update_project-IsConsistent :
      (now i : ℕ) (spec : ProjectCreate) (expected : Option ℤ)
      → IsDictFields spec.dump
      → IsConsistent (update_project now i spec expected s).1
  update_project-IsConsistent now i spec expected dict = elim (Option-cases (find_project i s)) [
    | inl missing ↦ rw (P.update_project-missing i s missing now spec expected) h
    | inr (p, found) ↦ elim (Bool-cases (is_stale expected p.version)) [
      | inl stale ↦ rw (P.update_project-stale i s p found now spec expected stale) h
      | inr fine ↦
          rw (P.update_project-saves i s p found now spec expected fine)
            (save-IsConsistent now i spec p s dict found h)
    ]
  ]

  pub delete_project-IsConsistent : (i : ℕ) → IsConsistent (delete_project i s).1
  delete_project-IsConsistent i = elim (Option-cases (find_project i s)) [
    | inl missing ↦ rw (P.delete_project-missing i s missing) h
    | inr (p, found) ↦ rw (P.delete_project-found i s p found) (drop-IsConsistent i s h)
  ]

  pub submit_run-IsConsistent :
      (o : Outside) (i : ℕ) (body : Submission)
      → HasNewIds o s
      → IsConsistent (submit_run o i body s).1
  submit_run-IsConsistent o i body ids = elim (Option-cases (find_project i s)) [
    | inl missing ↦ rw (S.submit_run-missing o i body s missing) h
    | inr (p, found) ↦ elim (Bool-cases (o.validate p.spec).valid) [
      | inr invalid ↦ rw (S.submit_run-invalid o i body s p found invalid) h
      | inl valid ↦ by_horizon p found valid (horizon_of o body p.spec) refl
    ]
  ]
    where
      by_horizon :
          (p : ProjectRow)
          → find_project i s ≡ some p
          → (o.validate p.spec).valid ≡ true
          → (t : Result ℤ) → horizon_of o body p.spec ≡ t
          → IsConsistent (submit_run o i body s).1
      by_horizon p found valid (err e) broken =
          rw (S.submit_run-no_horizon o i body s p found valid broken) h
      by_horizon p found valid (ok t) horizon =
          let rows = rows_of o p body t in
          let stored = add_runs rows s in
          let frame = enqueue_rows-frame o rows stored in
          rw (S.submit_run-accepts o i body s p found t valid horizon) (
            after_enqueue-IsConsistent rows (enqueue_rows o rows stored) (
              IsConsistent-frame stored _ (sym frame.0) (sym frame.1)
                (add_runs-IsConsistent o p body t (first_seed o body) i body.seeds s found ids h)))

  pub rename_run-IsConsistent :
      (i : ℕ) (name : Option String) → IsConsistent (rename_run i name s).1
  rename_run-IsConsistent i name = elim (Option-cases (find_run i s)) [
    | inl missing ↦ rw (R.rename_run-missing i s missing name) h
    | inr (r, found) ↦ rw (R.rename_run-found i s r found name) (
        save_run-IsConsistent i r _ s found
          (record { project_id = refl; project_version = refl; spec_snapshot = refl }) h)
  ]

  pub request_cancel-IsConsistent : (i : ℕ) → IsConsistent (request_cancel i s).1
  request_cancel-IsConsistent i = elim (Option-cases (find_run i s)) [
    | inl missing ↦ rw (R.request_cancel-missing i s missing) h
    | inr (r, found) ↦ rw (R.request_cancel-found i s r found) (
        save_run-IsConsistent i r _ s found
          (record { project_id = refl; project_version = refl; spec_snapshot = refl }) h)
  ]

  pub delete_run-IsConsistent : (i : ℕ) → IsConsistent (delete_run i s).1
  delete_run-IsConsistent i = elim (Option-cases (find_run i s)) [
    | inl missing ↦ rw (R.delete_run-missing i s missing) h
    | inr (r, found) ↦ rw (R.delete_run-found i s r found) (drop_run-IsConsistent i s h)
  ]
