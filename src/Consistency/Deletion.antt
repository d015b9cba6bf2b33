-- ===== src/Consistency/Deletion.antt =====
-- Deleting a project (spur_api/services/projects_service.py), and consistency.
use spur_api.Base.{
  ℕ, ◌≡◌, refl, false, Option, none, some, List, [], ◌∷◌, map, arith, All, All-map, All-keep_if,
  Option-cases, Bool-cases, inl, inr, ◌==◌,
}
use spur_api.Json.{Fields}
use spur_api.Database.{ProjectRow, SimulationRunRow, State}
use spur_api.Projects.{project_key, run_key, forget_base, drop_project, runs_without_project}
use spur_api.Consistency.{HasVersions, HasBase, IsFamilyMember, IsCurrent, IsRunOf, IsConsistent}
use spur_api.Table
use spur_api.Table.Laws.{get-remove, get-map, IsKeyed-map, IsKeyed-keep_if}

-- The projects that are left.
abbrev remaining : ℕ → List ProjectRow → List ProjectRow
remaining i projects = map (forget_base i) (Table.remove project_key i projects)

remaining-found :
    (i j : ℕ) (projects : List ProjectRow) {q : ProjectRow}
    → (j == i) ≡ false
    → Table.get project_key j projects ≡ some q
    → Table.get project_key j (remaining i projects) ≡ some (forget_base i q)
remaining-found i j projects other e = ground (
  arith,
  get-map project_key (forget_base i) j (Table.remove project_key i projects) (λ x. refl),
  get-remove project_key i j projects,
)

forget_base-member :
    (i : ℕ) (projects : List ProjectRow) (q : ProjectRow)
    → IsFamilyMember projects q
    → IsFamilyMember (remaining i projects) (forget_base i q)
forget_base-member i projects q h = elim (Option-cases q.base_project_id) [
  | inl alone ↦ rw alone tt
  | inr (b, e) ↦
      let member : HasBase projects (some b) = rw e at h in
      rw e (elim (Bool-cases (b == i)) [
        | inl gone ↦ rw gone tt
        | inr stays ↦ rw stays (elim (Option-cases (Table.get project_key b projects)) [
          | inl missing ↦ absurd (rw missing at member)
          | inr (base, found) ↦
              let top : base.base_project_id ≡ none = rw found at member in
              rw (remaining-found i b projects stays found) (rw top)
        ])
      ])
]

-- Only the base is forgotten.
forget_base-IsCurrent :
    (i : ℕ) (v : Option ℕ) (snapshot : Option Fields) (q : ProjectRow)
    → IsCurrent v snapshot q
    → IsCurrent v snapshot (forget_base i q)
forget_base-IsCurrent i none snapshot q h = tt
forget_base-IsCurrent i (some v) snapshot q h = h

remaining-IsRunOf :
    (i : ℕ) (projects : List ProjectRow) (r : SimulationRunRow)
    → (r.project_id == i) ≡ false
    → IsRunOf projects r
    → IsRunOf (remaining i projects) r
remaining-IsRunOf i projects r other h =
    elim (Option-cases (Table.get project_key r.project_id projects)) [
      | inl missing ↦ absurd (rw missing at h)
      | inr (q, e) ↦
          rw (remaining-found i r.project_id projects other e)
            (forget_base-IsCurrent i r.project_version r.spec_snapshot q (rw e at h))
    ]

-- Each run that is left is a run of a project that is left.
runs-IsRunOf :
    (i : ℕ) (projects : List ProjectRow) (runs : List SimulationRunRow)
    → All (IsRunOf projects) runs
    → All (IsRunOf (remaining i projects)) (runs_without_project i runs)
runs-IsRunOf i projects [] h = tt
runs-IsRunOf i projects (r ∷ runs) h = elim (Bool-cases (r.project_id == i)) [
  | inl gone ↦ rw gone (runs-IsRunOf i projects runs h.1)
  | inr stays ↦
      rw stays (remaining-IsRunOf i projects r stays h.0, runs-IsRunOf i projects runs h.1)
]

pub drop-IsConsistent : (i : ℕ) (s : State) → IsConsistent s → IsConsistent (drop_project i s)
unfolding Table.remove
drop-IsConsistent i s h = record {
  projects_keyed =
      IsKeyed-map project_key (forget_base i) _ (λ x. refl)
        (IsKeyed-keep_if project_key _ s.projects h.projects_keyed);
  runs_keyed = IsKeyed-keep_if run_key _ s.simulation_runs h.runs_keyed;
  versions =
      All-map HasVersions HasVersions (forget_base i) _
        (λ p v. record { counted = v.counted; bounded = v.bounded; dict = v.dict })
        (All-keep_if HasVersions _ s.projects h.versions);
  families =
      All-map (IsFamilyMember s.projects) _ (forget_base i) _
        (λ q member. forget_base-member i s.projects q member)
        (All-keep_if (IsFamilyMember s.projects) _ s.projects h.families);
  runs = runs-IsRunOf i s.projects s.simulation_runs h.runs;
}
