-- ===== src/Projects/Effects.antt =====
-- What a caller of spur_api/services/projects_service.py sees after a save, a creation or a deletion.
use spur_api.Base.{
  ℕ, ◌+◌, ◌≡◌, ◌≢◌, refl, String, false, true, not, Option, none, some, map, List, arith,
  Option-cases, Bool-cases, inl, inr, ◌==◌, All, All-map, All-weaken, All-intro, keep_if-All,
}
use spur_api.Base.Int.{ℤ}
use spur_api.Inputs.{inputs_differ}
use spur_api.Database.{ProjectRow, SimulationRunRow, RunEventRow, State}
use spur_api.Action.{Error, ok, err, not_found, project}
use spur_api.Projects.{
  ProjectCreate, Project, to_schema, project_key, run_key, has_run, find_project, family_base,
  new_row, add_project, saved_row, save_project, is_stale, forget_base, drop_project,
  runs_without_project, create_project, get_project, update_project, delete_project,
}
use spur_api.Projects.Branches as P
use spur_api.Table
use spur_api.Table.Laws.{key-get, get-save, get-insert, get-remove, get-map}

module _ (now i : ℕ) (spec : ProjectCreate) (expected : Option ℤ) (s : State) where
  -- An accepted save, with the row that it found.
  saved :
      {a : Project}
      → (update_project now i spec expected s).0 ≡ ok a
      → (p : ProjectRow) × (find_project i s ≡ some p)
        × (is_stale expected p.version ≡ false)
        × (a ≡ to_schema (saved_row now spec p))
        × ((update_project now i spec expected s).1 ≡ save_project (saved_row now spec p) s)
  saved e = elim (Option-cases (find_project i s)) [
    | inl missing ↦ cc (e, P.update_project-missing i s missing now spec expected)
    | inr (p, found) ↦ elim (Bool-cases (is_stale expected p.version)) [
      | inl stale ↦ cc (e, P.update_project-stale i s p found now spec expected stale)
      | inr fine ↦
          let saves = P.update_project-saves i s p found now spec expected fine in
          (p, found, fine, cc (e, saves), rw saves)
    ]
  ]

  -- An accepted save raises the version by one, stores the spec, sets updated_at, moves
  -- inputs_version to the new version exactly where the inputs differ, and keeps owner, base and
  -- created_at; the next read of the project gives what the save returned, and no run and no
  -- event is touched.
  pub save_lem :
      (a : Project)
      → (update_project now i spec expected s).0 ≡ ok a
      → let t = (update_project now i spec expected s).1 in
        (p : ProjectRow) × (find_project i s ≡ some p)
        × (get_project i t ≡ (ok a, t))
        × (a.version ≡ p.version + 1)
        × (a.spec ≡ spec.dump)
        × (a.updated_at ≡ now)
        × (inputs_differ p.spec spec.dump ≡ true → a.inputs_version ≡ a.version)
        × (inputs_differ p.spec spec.dump ≡ false → a.inputs_version ≡ p.inputs_version)
        × (a.owner ≡ p.owner)
        × (a.base_project_id ≡ p.base_project_id)
        × (a.created_at ≡ p.created_at)
        × (t.simulation_runs ≡ s.simulation_runs)
        × (t.run_events ≡ s.run_events)
  save_lem a e =
      let (p, found, fine, same, state) = saved e in
      let row = saved_row now spec p in
      let stored : find_project i (save_project row s) ≡ some row =
        ground
          (arith, key-get project_key i s.projects found, get-save project_key i row s.projects) in
      let read : get_project i (save_project row s) ≡ (ok a, save_project row s) =
        rw (P.get_project-found i (save_project row s) row stored, same) refl in
      (
        p,
        found,
        rw state read,
        ground arith,
        ground arith,
        ground arith,
        λ differ. ground arith,
        λ alike. ground arith,
        ground arith,
        ground arith,
        ground arith,
        rw state refl,
        rw state refl,
      )

  -- What an accepted save returned is what the next read of the project returns.
  pub get-save_self :
      (a : Project)
      → (update_project now i spec expected s).0 ≡ ok a
      → (get_project i (update_project now i spec expected s).1).0 ≡ ok a
  unfolding get_project
  get-save_self a e =
      let (p, found, fine, same, state) = saved e in
      rw state (ground (arith, get-save project_key i (saved_row now spec p) s.projects))

  -- A save of one project, accepted or refused, leaves what a read of another returns.
  pub get-save_ne :
      (j : ℕ)
      → j ≢ i
      → (get_project j (update_project now i spec expected s).1).0 ≡ (get_project j s).0
  unfolding get_project
  get-save_ne j ne = elim (Option-cases (find_project i s)) [
    | inl missing ↦ rw (P.update_project-missing i s missing now spec expected)
    | inr (p, found) ↦
        let at : p.id ≡ i = key-get project_key i s.projects found in
        elim (Bool-cases (is_stale expected p.version)) [
          | inl stale ↦ rw (P.update_project-stale i s p found now spec expected stale)
          | inr fine ↦
              rw (P.update_project-saves i s p found now spec expected fine)
                (elim (Option-cases (find_project j s)) [
                  | inl none_there ↦
                      ground (arith, get-save project_key j (saved_row now spec p) s.projects)
                  | inr (q, there) ↦
                      let at_j : q.id ≡ j = key-get project_key j s.projects there in
                      ground (arith, get-save project_key j (saved_row now spec p) s.projects)
                ])
        ]
  ]

  -- A save that is refused changes nothing.
  pub refused_save_keeps :
      (e : Error)
      → (update_project now i spec expected s).0 ≡ err e
      → (update_project now i spec expected s).1 ≡ s
  refused_save_keeps e h = elim (Option-cases (find_project i s)) [
    | inl missing ↦ rw (P.update_project-missing i s missing now spec expected)
    | inr (p, found) ↦ elim (Bool-cases (is_stale expected p.version)) [
      | inl stale ↦ rw (P.update_project-stale i s p found now spec expected stale)
      | inr fine ↦ cc (h, P.update_project-saves i s p found now spec expected fine)
    ]
  ]

-- The two ON DELETE rules, on what is left.
forget_base-ne : (i : ℕ) (p : ProjectRow) → (forget_base i p).base_project_id ≢ some i
forget_base-ne i p e = elim (Option-cases p.base_project_id) [
  | inl alone ↦ ground arith
  | inr (b, of) ↦ ground arith
]

no_base_left :
    (i : ℕ) (projects : List ProjectRow)
    → All (λ p. p.base_project_id ≢ some i) (map (forget_base i) projects)
no_base_left i projects =
    All-map (λ p. Unit {0}) (λ p. p.base_project_id ≢ some i) (forget_base i) projects
      (λ p _. forget_base-ne i p) (All-intro _ projects (λ p. tt))

no_run_left :
    (i : ℕ) (runs : List SimulationRunRow)
    → All (λ r. r.project_id ≢ i) (runs_without_project i runs)
no_run_left i runs =
    All-weaken _ _ (runs_without_project i runs)
      (λ r (kept : not (r.project_id == i) ≡ true). λ same. ground arith)
      (keep_if-All (λ r. not (r.project_id == i)) runs)

abbrev pub HasRun : State → RunEventRow → Type 0
HasRun s e = Table.get run_key e.run_id s.simulation_runs ≢ none

-- After an accepted deletion the project is gone, no run is left that belonged to it, no event is
-- left without its run, and no project is left as a scenario of it.
pub delete_lem :
    (i : ℕ) (s : State)
    → (delete_project i s).0 ≡ ok tt
    → let t = (delete_project i s).1 in
      (get_project i t ≡ (err (not_found project i), t))
      × All (λ r. r.project_id ≢ i) t.simulation_runs
      × All (HasRun t) t.run_events
      × All (λ p. p.base_project_id ≢ some i) t.projects
delete_lem i s e = elim (Option-cases (find_project i s)) [
  | inl missing ↦ cc (e, P.delete_project-missing i s missing)
  | inr (p, found) ↦ rw (P.delete_project-found i s p found) (
    P.get_project-missing i (drop_project i s) (
        ground (
          arith,
          get-map project_key (forget_base i) i (Table.remove project_key i s.projects) (λ x. refl),
          get-remove project_key i i s.projects,
        )),
    no_run_left i s.simulation_runs,
    All-weaken _ _ _
        (λ e (kept : has_run (runs_without_project i s.simulation_runs) e ≡ true).
          λ gone. ground arith)
        (keep_if-All (has_run (runs_without_project i s.simulation_runs)) s.run_events),
    no_base_left i (Table.remove project_key i s.projects),
  )
]

-- The project that a scenario of the row is stored under: its own base if it has one, and else itself
abbrev pub IsUnder : ProjectRow → Option ℕ → Type 0
IsUnder p base =
    (p.base_project_id ≡ none → base ≡ some p.id)
    × ((b : ℕ) → p.base_project_id ≡ some b → base ≡ some b)

-- A project that was created from a request
abbrev pub IsCreatedFrom : ProjectCreate → Option String → ProjectRow → Type 0
IsCreatedFrom spec owner a =
    (a.spec ≡ spec.dump)
    × (a.name ≡ spec.name)
    × (a.owner ≡ owner)
    × (a.version ≡ 1)
    × (a.inputs_version ≡ 1)

family_base-IsUnder : (p : ProjectRow) → IsUnder p (some (family_base p))
family_base-IsUnder p = (λ alone. ground (arith, alone), λ b of. ground (arith, of))

-- A scenario of a stored project, and then a scenario of that scenario, both with new UUIDs, are
-- read back with the base of the project if it has one and else the project itself as the base of
-- both, and each with the owner, spec and name of its request at version 1; the project stays as
-- it was.
pub create_scenario :
    (id id₁ now now₁ i : ℕ) (spec spec₁ : ProjectCreate) (owner owner₁ : Option String) (s : State)
    (p : ProjectRow)
    → find_project i s ≡ some p
    → find_project id s ≡ none
    → find_project id₁ s ≡ none
    → id ≢ id₁
    → let t = (create_project id now spec owner (some i) s).1 in
      let u = (create_project id₁ now₁ spec₁ owner₁ (some id) t).1 in
      (a b : ProjectRow) × (find_project id u ≡ some a)
      × (find_project id₁ u ≡ some b)
      × (get_project id u ≡ (ok (to_schema a), u))
      × (get_project id₁ u ≡ (ok (to_schema b), u))
      × IsUnder p a.base_project_id
      × (b.base_project_id ≡ a.base_project_id)
      × IsCreatedFrom spec owner a
      × IsCreatedFrom spec₁ owner₁ b
      × (find_project i u ≡ some p)
create_scenario id id₁ now now₁ i spec spec₁ owner owner₁ s p found fresh fresh₁ apart =
    let row = new_row id now spec owner (some (family_base p)) in
    let t = add_project row s in
    let row₁ = new_row id₁ now₁ spec₁ owner₁ (some (family_base p)) in
    let u = add_project row₁ t in
    let first : find_project id t ≡ some row =
      ground (arith, get-insert project_key id row s.projects) in
    let base_there : find_project i t ≡ some p =
      ground (arith, found, fresh, get-insert project_key i row s.projects) in
    let in_u : find_project id u ≡ some row =
      ground (arith, apart, first, get-insert project_key id row₁ t.projects) in
    let new : find_project id₁ t ≡ none =
      ground (arith, fresh₁, apart, get-insert project_key id₁ row s.projects) in
    let second : find_project id₁ u ≡ some row₁ =
      ground (arith, new, get-insert project_key id₁ row₁ t.projects) in
    let still : find_project i u ≡ some p =
      ground (arith, found, fresh₁, base_there, get-insert project_key i row₁ t.projects) in
    rw
      (
        P.create_project-scenario i s p found id now spec owner,
        P.create_project-scenario id t row first id₁ now₁ spec₁ owner₁,
      )
      (
        row,
        row₁,
        in_u,
        second,
        P.get_project-found id u row in_u,
        P.get_project-found id₁ u row₁ second,
        family_base-IsUnder p,
        refl,
        (refl, refl, refl, refl, refl),
        (refl, refl, refl, refl, refl),
        still,
      )
