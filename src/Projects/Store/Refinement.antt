-- ===== src/Projects/Store/Refinement.antt =====
-- spur_api/services/projects_service.py keeps its promises: its operations on the tables are those on
-- the store that the tables stand for.
use mathlib.Core.Option
use mathlib.Core.Path.{fun_ext, subst, ap₂}
use spur_api.Base.{
  ℕ, ◌≡◌, ap, ◌∙◌, refl, sym, none, some, List, [], ◌∷◌, arith, Option-cases, Bool-cases, inl, inr,
}
use spur_api.Database.{ProjectRow, State}
use spur_api.Table.Laws.{key-get, get-save, get-insert, get-remove, get-map}
use spur_api.Table
use spur_api.Projects.{
  to_schema, find_project, create_project, is_stale, project_key, add_project, save_project,
  drop_project, new_row, saved_row, forget_base, family_base,
}
use spur_api.Projects.Branches.{
  get_project-missing, get_project-found, update_project-missing, update_project-stale,
  update_project-saves, delete_project-missing, delete_project-found, create_project-missing,
  create_project-scenario,
}
use spur_api.Projects.Store.{
  view, Operation, create, read, update, delete, perform, promised, put, without, IsFor,
  perform_all, promised_all, AreFor,
}

view-add :
    (p : ProjectRow) (s : State)
    → find_project p.id s ≡ none
    → (j : ℕ) → view (add_project p s) j ≡ put p.id (to_schema p) (view s) j
view-add p s new j = ground (arith, get-insert project_key j p s.projects, new)

view-save :
    (p p' : ProjectRow) (s : State)
    → find_project p.id s ≡ some p
    → p'.id ≡ p.id
    → (j : ℕ) → view (save_project p' s) j ≡ put p.id (to_schema p') (view s) j
view-save p p' s found same j = elim (Option-cases (find_project j s)) [
  | inl missing ↦ ground (arith, get-save project_key j p' s.projects, found, same, missing)
  | inr (x, there) ↦
      let key : x.id ≡ j = key-get project_key j s.projects there in
      ground (arith, get-save project_key j p' s.projects, same, there)
]

view-drop : (i : ℕ) (s : State) (j : ℕ) → view (drop_project i s) j ≡ without i (view s) j
view-drop i s j = ground (
  arith,
  get-map project_key (forget_base i) j (Table.remove project_key i s.projects) (λ x. refl),
  get-remove project_key i j s.projects,
)

module _ (i : ℕ) (s : State) where
  view-missing : find_project i s ≡ none → view s i ≡ none
  view-missing missing = ap (Option.map to_schema) missing

  view-found : (p : ProjectRow) → find_project i s ≡ some p → view s i ≡ some (to_schema p)
  view-found p found = ap (Option.map to_schema) found

  missing-view : view s i ≡ none → find_project i s ≡ none
  missing-view h = ground arith

-- One operation on the tables answers, and leaves the store standing, as the store of projects promises.
pub store_refines :
    (op : Operation) (s : State)
    → IsFor op (view s)
    → ((perform op s).0 ≡ (promised op (view s)).0)
      × (view (perform op s).1 ≡ (promised op (view s)).1)
unfolding create_project
store_refines (create id now body owner none) s new =
    (refl, fun_ext (view-add (new_row id now body owner none) s (missing-view id s new)))
store_refines (create id now body owner (some b)) s new = elim (Option-cases (find_project b s)) [
  | inl missing ↦
      rw (create_project-missing b s missing id now body owner, promised, view-missing b s missing)
        (refl, refl)
  | inr (p, found) ↦
      let row = new_row id now body owner (some (family_base p)) in
      rw (create_project-scenario b s p found id now body owner, promised, view-found b s p found)
        (refl, fun_ext (view-add row s (missing-view id s new)))
]
store_refines (read i) s fits = elim (Option-cases (find_project i s)) [
  | inl missing ↦
      rw (get_project-missing i s missing, promised, view-missing i s missing) (refl, refl)
  | inr (p, found) ↦
      rw (get_project-found i s p found, promised, view-found i s p found) (refl, refl)
]
store_refines (update now i body expected) s fits = elim (Option-cases (find_project i s)) [
  | inl missing ↦
      rw (update_project-missing i s missing now body expected, promised, view-missing i s missing)
        (refl, refl)
  | inr (p, found) ↦
      let at : p.id ≡ i = key-get project_key i s.projects found in
      elim (Bool-cases (is_stale expected p.version)) [
        | inl stale ↦
            rw
              (
                update_project-stale i s p found now body expected stale,
                promised,
                view-found i s p found,
                stale,
                at,
              )
              (refl, refl)
        | inr fine ↦
            rw
              (
                update_project-saves i s p found now body expected fine,
                promised,
                view-found i s p found,
                fine,
              )
              (
                refl,
                fun_ext (
                    view-save p (saved_row now body p) s (ap (λ k. find_project k s) at ∙ found)
                      refl),
              )
      ]
]
store_refines (delete i) s fits = elim (Option-cases (find_project i s)) [
  | inl missing ↦
      rw (delete_project-missing i s missing, promised, view-missing i s missing) (refl, refl)
  | inr (p, found) ↦
      rw (delete_project-found i s p found, promised, view-found i s p found)
        (refl, fun_ext (view-drop i s))
]

-- Creating, reading, saving and deleting projects on the tables, in any order, give the answers
-- of a store of versioned projects and leave the tables standing for that store: rows, their
-- order and the columns that repeat the spec make no difference, if each new project has an id
-- that none has.
pub operations_refine :
    (ops : List Operation) (s : State)
    → AreFor ops (view s)
    → ((perform_all ops s).0 ≡ (promised_all ops (view s)).0)
      × (view (perform_all ops s).1 ≡ (promised_all ops (view s)).1)
unfolding perform_all promised_all
operations_refine [] s fit = (refl, refl)
operations_refine (op ∷ ops) s fit =
    let (same, holds) = store_refines op s fit.0 in
    let later = operations_refine ops (perform op s).1 (subst (AreFor ops) (sym holds) fit.1) in
    let moved = ap (promised_all ops) holds in
    (ap₂ (λ a l. a ∷ l) same (later.0 ∙ ap (λ x. x.0) moved), later.1 ∙ ap (λ x. x.1) moved)
