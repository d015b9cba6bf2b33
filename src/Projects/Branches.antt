-- ===== src/Projects/Branches.antt =====
-- How each operation of spur_api/services/projects_service.py ends, branch by branch.
use spur_api.Base.{ℕ, ◌≡◌, String, false, true, Option, none, some, arith}
use spur_api.Base.Int.{ℤ}
use spur_api.Database.{ProjectRow, State}
use spur_api.Action.{ok, err, not_found, project}
use spur_api.Projects.{
  ProjectCreate, to_schema, find_project, get_row, family_base, new_row, add_project, saved_row,
  save_project, is_stale, stale_error, drop_project, create_project, get_project, update_project,
  delete_project,
}

module _ (i : ℕ) (s : State) (missing : find_project i s ≡ none) where
  pub get_row-missing : get_row i s ≡ (err (not_found project i), s)
  unfolding get_row
  get_row-missing = ground arith

  pub get_project-missing : get_project i s ≡ (err (not_found project i), s)
  unfolding get_project
  get_project-missing = ground arith

  pub update_project-missing :
      (now : ℕ) (spec : ProjectCreate) (expected : Option ℤ)
      → update_project now i spec expected s ≡ (err (not_found project i), s)
  unfolding update_project
  update_project-missing now spec expected = ground arith

  pub delete_project-missing : delete_project i s ≡ (err (not_found project i), s)
  unfolding delete_project
  delete_project-missing = ground arith

  pub create_project-missing :
      (id now : ℕ) (spec : ProjectCreate) (owner : Option String)
      → create_project id now spec owner (some i) s ≡ (err (not_found project i), s)
  unfolding create_project
  create_project-missing id now spec owner = ground arith

module _ (i : ℕ) (s : State) (p : ProjectRow) (found : find_project i s ≡ some p) where
  pub get_row-found : get_row i s ≡ (ok p, s)
  unfolding get_row
  get_row-found = ground arith

  pub get_project-found : get_project i s ≡ (ok (to_schema p), s)
  unfolding get_project
  get_project-found = ground arith

  pub update_project-stale :
      (now : ℕ) (spec : ProjectCreate) (expected : Option ℤ)
      → is_stale expected p.version ≡ true
      → update_project now i spec expected s ≡ (err (stale_error i p.version expected), s)
  unfolding update_project
  update_project-stale now spec expected stale = ground arith

  pub update_project-saves :
      (now : ℕ) (spec : ProjectCreate) (expected : Option ℤ)
      → is_stale expected p.version ≡ false
      → let row = saved_row now spec p in
        update_project now i spec expected s ≡ (ok (to_schema row), save_project row s)
  unfolding update_project
  update_project-saves now spec expected fine = ground arith

  pub delete_project-found : delete_project i s ≡ (ok tt, drop_project i s)
  unfolding delete_project
  delete_project-found = ground arith

  pub create_project-scenario :
      (id now : ℕ) (spec : ProjectCreate) (owner : Option String)
      → let row = new_row id now spec owner (some (family_base p)) in
        create_project id now spec owner (some i) s ≡ (ok (to_schema row), add_project row s)
  unfolding create_project
  create_project-scenario id now spec owner = ground arith
