-- ===== src/Consistency/Saves.antt =====
-- Saving a project (spur_api/services/projects_service.py), and consistency.
use spur_api.Base.{
  ℕ, ◌≡◌, Option, none, some, List, arith, All-weaken, Option-cases, Bool-cases, inl, inr, ◌==◌, ap,
  if◌then◌else◌,
}
use spur_api.Json.Equality.{IsDictFields}
use spur_api.Json.{Fields}
use spur_api.Inputs.{inputs_differ_trans}
use spur_api.Database.{ProjectRow, SimulationRunRow, State}
use spur_api.Projects.{ProjectCreate, project_key, saved_row, save_project}
use spur_api.Consistency.{HasVersions, HasBase, IsFamilyMember, IsCurrent, IsRunOf, IsConsistent}
use spur_api.Table
use spur_api.Table.Laws.{key-get, All-get, get-save, All-save, IsKeyed-save}

module _ (now : ℕ) (spec : ProjectCreate) (dict : IsDictFields spec.dump) where
  saved_row-HasVersions : (p : ProjectRow) → HasVersions p → HasVersions (saved_row now spec p)
  saved_row-HasVersions p h = record {
    counted = ground (arith, h.counted);
    bounded = ground (arith, h.bounded);
    dict = dict;
  }

  -- The save that changes the inputs makes every run so far out of date; one that does not hands the
  -- equality on.
  saved_row-IsCurrent :
      (v : Option ℕ) (snapshot : Option Fields) (p : ProjectRow)
      → HasVersions p
      → IsCurrent v snapshot p
      → IsCurrent v snapshot (saved_row now spec p)
  saved_row-IsCurrent none snapshot p versions h = tt
  saved_row-IsCurrent (some v) none p versions h = (omega arith, λ _. tt)
  saved_row-IsCurrent (some v) (some snap) p versions h =
      (omega arith, λ old. ground (arith, inputs_differ_trans snap p.spec spec.dump, h.1))

  module _ (i : ℕ) (p : ProjectRow) (projects : List ProjectRow)
      (found : Table.get project_key i projects ≡ some p) where
    replaced :
        (q : ProjectRow) (j : ℕ) → Table.get project_key j projects ≡ some q → q.id ≡ p.id → q ≡ p
    replaced q j e same =
        let at_j : q.id ≡ j = key-get project_key j projects e in
        let at_i : p.id ≡ i = key-get project_key i projects found in
        let here : j ≡ i = omega arith in
        ground (arith, ap (λ k. Table.get project_key k projects) here)

    -- What a lookup finds after the save, where it found `q`.
    save-found :
        (j : ℕ) {q : ProjectRow}
        → Table.get project_key j projects ≡ some q
        → Table.get project_key j (Table.save project_key (saved_row now spec p) projects)
          ≡ some (if q.id == p.id then saved_row now spec p else q)
    save-found j e = ground (arith, get-save project_key j (saved_row now spec p) projects)

    save-HasBase :
        (b : Option ℕ)
        → HasBase projects b
        → HasBase (Table.save project_key (saved_row now spec p) projects) b
    save-HasBase none h = tt
    save-HasBase (some b) h = elim (Option-cases (Table.get project_key b projects)) [
      | inl missing ↦ absurd (rw missing at h)
      | inr (q, e) ↦
          let base : q.base_project_id ≡ none = rw e at h in
          rw (save-found b e) (ground (arith, replaced q b e))
    ]

    save-IsRunOf :
        (r : SimulationRunRow)
        → HasVersions p
        → IsRunOf projects r
        → IsRunOf (Table.save project_key (saved_row now spec p) projects) r
    save-IsRunOf r versions h = elim (Option-cases (Table.get project_key r.project_id projects)) [
      | inl missing ↦ absurd (rw missing at h)
      | inr (q, e) ↦
          let current : IsCurrent r.project_version r.spec_snapshot q = rw e at h in
          rw (save-found r.project_id e) (elim (Bool-cases (q.id == p.id)) [
            | inl same ↦
                let here : q ≡ p = replaced q r.project_id e (ground arith) in
                rw same (
                  saved_row-IsCurrent r.project_version r.spec_snapshot p versions
                    (rw here at current))
            | inr other ↦ rw other current
          ])
    ]

-- A save, with an accepted spec, of a project that was found.
pub save-IsConsistent :
    (now i : ℕ) (spec : ProjectCreate) (p : ProjectRow) (s : State)
    → IsDictFields spec.dump
    → Table.get project_key i s.projects ≡ some p
    → IsConsistent s
    → IsConsistent (save_project (saved_row now spec p) s)
save-IsConsistent now i spec p s dict found h =
    let row = saved_row now spec p in
    let versions = All-get project_key HasVersions i s.projects h.versions found in
    let family = All-get project_key (IsFamilyMember s.projects) i s.projects h.families found in
    let kept = save-HasBase now spec dict i p s.projects found in
    record {
      projects_keyed = IsKeyed-save project_key row s.projects h.projects_keyed;
      runs_keyed = h.runs_keyed;
      versions =
          All-save project_key HasVersions row s.projects
            (saved_row-HasVersions now spec dict p versions) h.versions;
      families =
          All-save project_key _ row s.projects (kept p.base_project_id family)
            (All-weaken _ _ s.projects (λ q member. kept q.base_project_id member) h.families);
      runs =
          All-weaken _ _ s.simulation_runs
            (λ r. save-IsRunOf now spec dict i p s.projects found r versions) h.runs;
    }
