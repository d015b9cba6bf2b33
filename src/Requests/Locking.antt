-- ===== src/Requests/Locking.antt =====
-- The `If-Match` precondition of `update_project` (spur_api/services/projects_service.py) over any
-- sequence of requests and commits of jobs.
use spur_api.Base.{
  ℕ, ◌+◌, ◌≤◌, ◌≡◌, refl, ap, ◌≢◌, String, false, Option, none, some, arith, Option-cases,
  Bool-cases, inl, inr, ◌==◌,
}
use spur_api.Base.Int.{ℤ}
use spur_api.Database.{ProjectRow, State}
use spur_api.Action.{ok}
use spur_api.Projects.{
  ProjectCreate, Project, project_key, find_project, new_row, add_project, saved_row, save_project,
  is_stale, forget_base, family_base, create_project, update_project, delete_project,
}
use spur_api.Projects.Branches as P
use spur_api.Requests.{
  Step, create, update, delete, submit, rename, cancel, delete_one, start_work, work, end_work,
}
use spur_api.Consistency.Work.{start_work-Keeps, on_chunk-Keeps, end_work-Keeps}
use spur_api.Requests.Frame.{
  submit_run-projects, rename_run-projects, request_cancel-projects, delete_run-projects,
}
use spur_api.Table
use spur_api.Table.Laws.{key-get, get-insert, get-save, get-remove, get-map}

-- The project is gone, or at version `v` or later.
abbrev pub HasVersion : ℕ → Option ProjectRow → Type 0
HasVersion v none = Unit
HasVersion v (some p) = v ≤ p.version

-- The request does not create a project with this id: a UUID is not drawn twice.
abbrev pub Spares : {s t : State} → ℕ → Step s t → Type 0
Spares i (create id now spec owner base dict fresh) = id ≢ i
Spares i _ = Unit

-- A sequence of requests that do not create a project with this id.
pub data Later (i : ℕ) (s : State) : State → Type 0 where
  at_once : Later i s s
  after : {t u : State} → Later i s t → (step : Step t u) → Spares i step → Later i s u

module _ (i v : ℕ) (s : State) (h : HasVersion v (find_project i s)) where
  add-HasVersion :
      (row : ProjectRow) → row.id ≢ i → HasVersion v (find_project i (add_project row s))
  add-HasVersion row ne = ground (arith, get-insert project_key i row s.projects)

  create-HasVersion :
      (id now : ℕ) (spec : ProjectCreate) (owner : Option String) (base : Option ℕ)
      → id ≢ i
      → HasVersion v (find_project i (create_project id now spec owner base s).1)
  create-HasVersion id now spec owner none ne =
      unfold create_project in add-HasVersion (new_row id now spec owner none) ne
  create-HasVersion id now spec owner (some b) ne = elim (Option-cases (find_project b s)) [
    | inl missing ↦ rw (P.create_project-missing b s missing id now spec owner) h
    | inr (p, found) ↦
        rw (P.create_project-scenario b s p found id now spec owner)
          (add-HasVersion (new_row id now spec owner (some (family_base p))) ne)
  ]

  save-HasVersion :
      (now j : ℕ) (spec : ProjectCreate) (p : ProjectRow)
      → find_project j s ≡ some p
      → HasVersion v (find_project i (save_project (saved_row now spec p) s))
  save-HasVersion now j spec p found = elim (Option-cases (find_project i s)) [
    | inl missing ↦ ground (arith, get-save project_key i (saved_row now spec p) s.projects)
    | inr (q, e) ↦
        let at_i : q.id ≡ i = key-get project_key i s.projects e in
        let at_j : p.id ≡ j = key-get project_key j s.projects found in
        elim (Bool-cases (q.id == p.id)) [
          | inl same ↦
              let here : i ≡ j = ground arith in
              ground (
                arith,
                get-save project_key i (saved_row now spec p) s.projects,
                ap (λ k. find_project k s) here,
              )
          | inr other ↦ ground (arith, get-save project_key i (saved_row now spec p) s.projects)
        ]
  ]

  update-HasVersion :
      (now j : ℕ) (spec : ProjectCreate) (expected : Option ℤ)
      → HasVersion v (find_project i (update_project now j spec expected s).1)
  update-HasVersion now j spec expected = elim (Option-cases (find_project j s)) [
    | inl missing ↦ rw (P.update_project-missing j s missing now spec expected) h
    | inr (p, found) ↦ elim (Bool-cases (is_stale expected p.version)) [
      | inl stale ↦ rw (P.update_project-stale j s p found now spec expected stale) h
      | inr fine ↦
          rw (P.update_project-saves j s p found now spec expected fine)
            (save-HasVersion now j spec p found)
    ]
  ]

  delete-HasVersion : (j : ℕ) → HasVersion v (find_project i (delete_project j s).1)
  delete-HasVersion j = elim (Option-cases (find_project j s)) [
    | inl missing ↦ rw (P.delete_project-missing j s missing) h
    | inr (p, found) ↦ rw (P.delete_project-found j s p found) (
        ground (
          arith,
          get-map project_key (forget_base j) i (Table.remove project_key j s.projects) (λ x. refl),
          get-remove project_key j i s.projects,
        ))
  ]

-- A request does not take a project back to an earlier version.
Step-HasVersion :
    (i v : ℕ) {s t : State} (step : Step s t)
    → Spares i step
    → HasVersion v (find_project i s)
    → HasVersion v (find_project i t)
Step-HasVersion i v {s} (create id now spec owner base dict fresh) ne h =
    create-HasVersion i v s h id now spec owner base ne
Step-HasVersion i v {s} (update now j spec expected dict) ne h =
    update-HasVersion i v s h now j spec expected
Step-HasVersion i v {s} (delete j) ne h = delete-HasVersion i v s h j
Step-HasVersion i v {s} (submit o j body ids) ne h = rw (submit_run-projects s o j body) h
Step-HasVersion i v {s} (rename j name) ne h = rw (rename_run-projects s j name) h
Step-HasVersion i v {s} (cancel j) ne h = rw (request_cancel-projects s j) h
Step-HasVersion i v {s} (delete_one j) ne h = rw (delete_run-projects s j) h
Step-HasVersion i v {s} (start_work j now) ne h = rw (start_work-Keeps j now s).1 h
Step-HasVersion i v {s} (work j seq meanwhile broken time events) ne h =
    rw
      (on_chunk-Keeps j time events
        (record { db = s; seq = seq; meanwhile = meanwhile; broken = broken })).1
      h
Step-HasVersion i v {s} (end_work j now seq meanwhile broken x) ne h =
    rw
      (end_work-Keeps j now x
        (record { db = s; seq = seq; meanwhile = meanwhile; broken = broken })).1
      h

Later-HasVersion :
    (i v : ℕ) {s t : State}
    → Later i s t
    → HasVersion v (find_project i s)
    → HasVersion v (find_project i t)
Later-HasVersion i v at_once h = h
Later-HasVersion i v (after before step ne) h =
    Step-HasVersion i v step ne (Later-HasVersion i v before h)

-- A save is accepted exactly where the project is there and the precondition holds.
accepted_at :
    (now i : ℕ) (spec : ProjectCreate) (expected : Option ℤ) (s : State) {a : Project}
    → (update_project now i spec expected s).0 ≡ ok a
    → (p : ProjectRow) × (find_project i s ≡ some p) × (is_stale expected p.version ≡ false)
accepted_at now i spec expected s e = elim (Option-cases (find_project i s)) [
  | inl missing ↦ cc (e, P.update_project-missing i s missing now spec expected)
  | inr (p, found) ↦ elim (Bool-cases (is_stale expected p.version)) [
    | inl stale ↦ cc (e, P.update_project-stale i s p found now spec expected stale)
    | inr fine ↦ (p, found, fine)
  ]
]

-- After an accepted save the project is past the version that was expected.
save-raises :
    (now i : ℕ) (spec : ProjectCreate) (expected : Option ℤ) (s : State) (p : ProjectRow)
    → find_project i s ≡ some p
    → is_stale expected p.version ≡ false
    → HasVersion (p.version + 1) (find_project i (update_project now i spec expected s).1)
save-raises now i spec expected s p found fine =
    rw (P.update_project-saves i s p found now spec expected fine)
      (ground (arith, get-save project_key i (saved_row now spec p) s.projects))

-- Of two saves that send the same version of a project, at most one is accepted, whatever
-- requests and commits of jobs come between that do not create a project with the same UUID.
pub save_once :
    (now now' i : ℕ) (spec spec' : ProjectCreate) (expected : ℤ) (s u : State) (a b : Project)
    → (update_project now i spec (some expected) s).0 ≡ ok a
    → Later i (update_project now i spec (some expected) s).1 u
    → (update_project now' i spec' (some expected) u).0 ≢ ok b
save_once now now' i spec spec' expected s u a b first between second =
    let (p, found, fine) = accepted_at now i spec (some expected) s first in
    let (q, found', fine') = accepted_at now' i spec' (some expected) u second in
    let raised = save-raises now i spec (some expected) s p found fine in
    let past : p.version + 1 ≤ q.version =
      rw found' at (Later-HasVersion i (p.version + 1) between raised) in
    ground arith
