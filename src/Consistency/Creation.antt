-- ===== src/Consistency/Creation.antt =====
-- Creating a project (spur_api/services/projects_service.py), and consistency.
use spur_api.Base.{
  ℕ, ◌≡◌, String, Option, none, some, List, arith, All-weaken, Option-cases, inl, inr,
}
use spur_api.Json.Equality.{IsDictFields}
use spur_api.Database.{ProjectRow, SimulationRunRow, State}
use spur_api.Projects.{ProjectCreate, project_key, new_row, add_project, family_base}
use spur_api.Consistency.{HasVersions, HasBase, IsFamilyMember, IsRunOf, IsConsistent}
use spur_api.Table
use spur_api.Table.Laws.{key-get, All-get, get-insert, All-insert, IsKeyed-insert}

-- The base of a family that has a member: the base of that member, or the member itself.
pub family_base-HasBase :
    (i : ℕ) {p : ProjectRow} (s : State)
    → IsConsistent s
    → Table.get project_key i s.projects ≡ some p
    → HasBase s.projects (some (family_base p))
family_base-HasBase i {p} s h found = elim (Option-cases p.base_project_id) [
  | inl alone ↦
      let here : p.id ≡ i = key-get project_key i s.projects found in
      rw alone (rw here (rw found alone))
  | inr (b, e) ↦
      let member = All-get project_key (IsFamilyMember s.projects) i s.projects h.families found in
      rw e (rw e at member)
]

module _ (row : ProjectRow) (projects : List ProjectRow) where
  insert-found :
      (j : ℕ) {q : ProjectRow}
      → Table.get project_key j projects ≡ some q
      → Table.get project_key j (Table.insert project_key row projects) ≡ some q
  insert-found j e = ground (arith, get-insert project_key j row projects)

  insert-HasBase :
      (b : Option ℕ) → HasBase projects b → HasBase (Table.insert project_key row projects) b
  insert-HasBase none h = tt
  insert-HasBase (some b) h = elim (Option-cases (Table.get project_key b projects)) [
    | inl missing ↦ absurd (rw missing at h)
    | inr (q, e) ↦ rw (insert-found b e) (rw e at h)
  ]

  insert-IsRunOf :
      (r : SimulationRunRow)
      → IsRunOf projects r
      → IsRunOf (Table.insert project_key row projects) r
  insert-IsRunOf r h = elim (Option-cases (Table.get project_key r.project_id projects)) [
    | inl missing ↦ absurd (rw missing at h)
    | inr (q, e) ↦ rw (insert-found r.project_id e) (rw e at h)
  ]

-- The row that `create_project` adds, at a new id and under a base that is none's scenario.
pub create-IsConsistent :
    (id now : ℕ) (spec : ProjectCreate) (owner : Option String) (base_id : Option ℕ) (s : State)
    → IsDictFields spec.dump
    → Table.get project_key id s.projects ≡ none
    → HasBase s.projects base_id
    → IsConsistent s
    → IsConsistent (add_project (new_row id now spec owner base_id) s)
create-IsConsistent id now spec owner base_id s dict fresh base h =
    let row = new_row id now spec owner base_id in
    let kept = insert-HasBase row s.projects in
    record {
      projects_keyed = IsKeyed-insert project_key row s.projects fresh h.projects_keyed;
      runs_keyed = h.runs_keyed;
      versions =
          All-insert project_key HasVersions row s.projects
            (record { counted = omega arith; bounded = omega arith; dict = dict }) h.versions;
      families =
          All-insert project_key _ row s.projects (kept base_id base)
            (All-weaken _ _ s.projects (λ q member. kept q.base_project_id member) h.families);
      runs = All-weaken _ _ s.simulation_runs (λ r. insert-IsRunOf row s.projects r) h.runs;
    }
