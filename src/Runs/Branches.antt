-- ===== src/Runs/Branches.antt =====
-- How the operations on one run of spur_api/services/runs_service.py end, branch by branch.
use spur_api.Base.{ℕ, ◌≡◌, String, true, Option, none, some, arith}
use spur_api.Database.{SimulationRunRow, State}
use spur_api.Action.{ok, err, not_found, run}
use spur_api.Runs.{
  to_schema, find_run, get_row, save_run, drop_run, rename_run, delete_run, request_cancel,
}

module _ (i : ℕ) (s : State) (missing : find_run i s ≡ none) where
  pub get_row-missing : get_row i s ≡ (err (not_found run i), s)
  unfolding get_row
  get_row-missing = ground arith

  pub rename_run-missing : (name : Option String) → rename_run i name s ≡ (err (not_found run i), s)
  unfolding rename_run
  rename_run-missing name = ground arith

  pub request_cancel-missing : request_cancel i s ≡ (err (not_found run i), s)
  unfolding request_cancel
  request_cancel-missing = ground arith

  pub delete_run-missing : delete_run i s ≡ (err (not_found run i), s)
  unfolding delete_run
  delete_run-missing = ground arith

module _ (i : ℕ) (s : State) (r : SimulationRunRow) (found : find_run i s ≡ some r) where
  pub get_row-found : get_row i s ≡ (ok r, s)
  unfolding get_row
  get_row-found = ground arith

  pub rename_run-found :
      (name : Option String)
      → let row = record r { name = name } in
        rename_run i name s ≡ (ok (to_schema row), save_run row s)
  unfolding rename_run
  rename_run-found name = ground arith

  pub request_cancel-found :
      let row = record r { cancel_requested = true } in
      request_cancel i s ≡ (ok (to_schema row), save_run row s)
  unfolding request_cancel
  request_cancel-found = ground arith

  pub delete_run-found : delete_run i s ≡ (ok tt, drop_run i s)
  unfolding delete_run
  delete_run-found = ground arith
