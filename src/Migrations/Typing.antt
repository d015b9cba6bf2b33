-- ===== src/Migrations/Typing.antt =====
-- alembic/versions: the rows stay rows of their tables, with a value of its type in each column, and
-- null only where the column is nullable.
use spur_api.Base.{
  ◌≡◌, refl, sym, ap, ◌∙◌, ℕ, String, Bool, true, false, not, ◌&&◌, Option, none, some, List, [],
  ◌∷◌, ◌++◌, All, All-map, All-weaken, str_eq, if◌then◌else◌, arith, Bool-cases, inl, inr, &&-true,
}
use spur_api.Base.Int.{pos}
use spur_api.Migrations.{Value, Column, ColumnType, Row, Schema}
use spur_api.Migrations.Lookups.{value, set, has_name}
use spur_api.Migrations.Revisions.{first_projects, first_simulation_runs}
use spur_api.Migrations.Environment.{do_run_migrations}
use spur_api.Migrations.Shapes.{
  IsFree, database, runs_with, projects_with, first_indexes, seed_column, spec_snapshot_column,
  until_target_column, name_column, project_version_column, batch_id_column, base_column,
  version_column, inputs_version_column, runs_at_seed, runs_at_snapshot, runs_at_target,
  runs_at_name, runs_at_version, runs_at_batch, projects_at_version, projects_at_inputs,
  projects_at_base, all_indexes, with_null, Lacks,
}
use spur_api.Migrations.Head.{with_versions, with_nulls, upgrade_from_first}

abbrev pub HasType : ColumnType → Value → Type 0
HasType ColumnType.uuid (Value.uuid n) = Unit
HasType ColumnType.string (Value.text t) = Unit
HasType ColumnType.integer (Value.integer n) = Unit
HasType ColumnType.big_integer (Value.integer n) = Unit
HasType ColumnType.boolean (Value.boolean b) = Unit
HasType ColumnType.jsonb (Value.jsonb d) = Unit
HasType ColumnType.utc_date_time (Value.timestamp t) = Unit
HasType (ColumnType.enum n labels) (Value.label l) = has_name l labels ≡ true
HasType _ _ = ⊥

abbrev pub FitsColumn : Column → Value → Type 0
FitsColumn c Value.null = c.nullable ≡ true
FitsColumn c v = HasType c.column_type v

abbrev pub Fits : List Column → Row → Type 0
Fits [] [] = Unit
Fits [] (x ∷ r) = ⊥
Fits (c ∷ cs) [] = ⊥
Fits (c ∷ cs) ((n, v) ∷ r) = (n ≡ c.name) × FitsColumn c v × Fits cs r

abbrev column? : String → List Column → Option Column
column? c [] = none
column? c (k ∷ cs) = if str_eq c k.name then some k else column? c cs

Fits-append :
    (cs : List Column) (r : Row) (c : Column) (v : Value)
    → Fits cs r
    → FitsColumn c v
    → Fits (cs ++ c ∷ []) (r ++ (c.name, v) ∷ [])
Fits-append [] [] c v h fits = (refl, fits, tt)
Fits-append [] (x ∷ r) c v h fits = absurd h
Fits-append (k ∷ cs) [] c v h fits = absurd h
Fits-append (k ∷ cs) ((n, w) ∷ r) c v h fits = (h.0, h.1, Fits-append cs r c v h.2 fits)

-- The value of a row in a column of its table
value-FitsColumn :
    (cs : List Column) (r : Row) (c : String) (k : Column)
    → Fits cs r
    → column? c cs ≡ some k
    → FitsColumn k (value c r)
value-FitsColumn [] r c k h found = absurd (cc found)
value-FitsColumn (l ∷ cs) [] c k h found = absurd h
value-FitsColumn (l ∷ cs) ((n, w) ∷ r) c k h found = elim (Bool-cases (str_eq c l.name)) [
  | inl here ↦
      let own : str_eq c n ≡ true = ap (str_eq c) h.0 ∙ here in
      let same : l ≡ k = ground (arith, here, found) in rw (own, ← same) h.1
  | inr other ↦
      let others : str_eq c n ≡ false = ap (str_eq c) h.0 ∙ other in
      rw others (value-FitsColumn cs r c k h.2 (ground (arith, other, found)))
]

set-Fits :
    (cs : List Column) (r : Row) (c : String) (v : Value)
    → Fits cs r
    → All (λ (k : Column). str_eq c k.name ≡ true → FitsColumn k v) cs
    → Fits cs (set c v r)
set-Fits [] [] c v h fits = h
set-Fits [] (x ∷ r) c v h fits = absurd h
set-Fits (k ∷ cs) [] c v h fits = h
set-Fits (k ∷ cs) ((n, w) ∷ r) c v h fits = elim (Bool-cases (str_eq c n)) [
  | inl own ↦ rw own (h.0, fits.0 (ap (str_eq c) (sym h.0) ∙ own), set-Fits cs r c v h.2 fits.1)
  | inr other ↦ rw other (h.0, h.1, set-Fits cs r c v h.2 fits.1)
]

abbrev lacks_column : String → List Column → Bool
lacks_column c [] = true
lacks_column c (k ∷ cs) = not (str_eq c k.name) && lacks_column c cs

Fits-Lacks :
    (cs : List Column) (r : Row) (c : String) → Fits cs r → lacks_column c cs ≡ true → Lacks c r
Fits-Lacks [] [] c h free = refl
Fits-Lacks [] (x ∷ r) c h free = absurd h
Fits-Lacks (k ∷ cs) [] c h free = absurd h
Fits-Lacks (k ∷ cs) ((n, w) ∷ r) c h free =
    let parts = &&-true (not (str_eq c k.name)) (lacks_column c cs) free in
    let first : not (str_eq c n) ≡ true = ap (λ s. not (str_eq c s)) h.0 ∙ parts.0 in
    rw first (Fits-Lacks cs r c h.2 parts.1)

with_null-Fits :
    (cs : List Column) (rows : List Row) (c : Column)
    → c.nullable ≡ true
    → All (Fits cs) rows
    → All (Fits (cs ++ c ∷ [])) (with_null c.name rows)
with_null-Fits cs rows c nullable h =
    All-map (Fits cs) (Fits (cs ++ c ∷ [])) (λ r. r ++ (c.name, Value.null) ∷ []) rows
      (λ r fits. Fits-append cs r c Value.null fits nullable) h

versioned-Fits :
    (r : Row)
    → Fits first_projects.columns r
    → Fits projects_at_inputs.columns (
        let r' =
          (r ++ ("version", Value.integer (pos 1)) ∷ [])
          ++ ("inputs_version", Value.integer (pos 1)) ∷ [] in
        set "inputs_version" (value "version" r') r')
versioned-Fits r h =
    let r₁ = r ++ ("version", Value.integer (pos 1)) ∷ [] in
    let r₂ = r₁ ++ ("inputs_version", Value.integer (pos 1)) ∷ [] in
    let h₁ = Fits-append first_projects.columns r version_column (Value.integer (pos 1)) h tt in
    let h₂ : Fits projects_at_inputs.columns r₂ =
      Fits-append projects_at_version.columns r₁ inputs_version_column (Value.integer (pos 1)) h₁
        tt in
    let version = value-FitsColumn projects_at_inputs.columns r₂ "version" version_column h₂ refl in
    set-Fits projects_at_inputs.columns r₂ "inputs_version" (value "version" r₂) h₂ (
      (λ e. absurd (cc e)),
      (
        (λ e. absurd (cc e)),
        (
          (λ e. absurd (cc e)),
          (
            (λ e. absurd (cc e)),
            (
              (λ e. absurd (cc e)),
              (
                (λ e. absurd (cc e)),
                ((λ e. absurd (cc e)), ((λ e. absurd (cc e)), ((λ e. version), tt))),
              ),
            ),
          ),
        ),
      ),
    )

with_versions-Fits :
    (ps : List Row)
    → All (Fits first_projects.columns) ps
    → All (Fits projects_at_inputs.columns) (with_versions ps)
with_versions-Fits [] h = tt
with_versions-Fits (r ∷ ps) h = (versioned-Fits r h.0, with_versions-Fits ps h.1)

-- If the rows of the first revision's projects and runs have a value of its type in each column,
-- and null only where the column is nullable, then the upgrades go through and the rows have one
-- in each column of the upgraded tables; if the names of the later indexes are free.
pub rows_stay_typed :
    (time : ℕ) (db : Schema) (es rs ps : List Row)
    → IsFree db "ix_simulation_runs_batch_id"
    → IsFree db "ix_projects_base_project_id"
    → All (Fits first_simulation_runs.columns) rs
    → All (Fits first_projects.columns) ps
    → (rr pr : List Row) × (do_run_migrations time (
      some "695c06727c20",
      database db (runs_with []) (projects_with [] []) first_indexes (es, rs, ps),
    )
        ≡ (
          true,
          some "a4c1e9b27d36",
          database db runs_at_batch projects_at_base all_indexes (es, rr, pr),
        ))
      × All (Fits runs_at_batch.columns) rr
      × All (Fits projects_at_base.columns) pr
unfolding do_run_migrations
rows_stay_typed time db es rs ps batch base typed_runs typed_projects =
    let ps' = with_versions ps in
    let fits = with_versions-Fits ps typed_projects in
    let lack : All (Lacks "base_project_id") ps' =
      All-weaken (Fits projects_at_inputs.columns) (Lacks "base_project_id") ps'
        (λ r h. Fits-Lacks projects_at_inputs.columns r "base_project_id" h refl) fits in
    let h1 = with_null-Fits first_simulation_runs.columns rs seed_column refl typed_runs in
    let h2 = with_null-Fits runs_at_seed.columns _ spec_snapshot_column refl h1 in
    let h3 = with_null-Fits runs_at_snapshot.columns _ until_target_column refl h2 in
    let h4 = with_null-Fits runs_at_target.columns _ name_column refl h3 in
    let h5 = with_null-Fits runs_at_name.columns _ project_version_column refl h4 in
    (
      with_null "batch_id" (with_nulls rs),
      with_null "base_project_id" ps',
      rw (do_run_migrations, upgrade_from_first time db es rs ps (batch, base, lack)) refl,
      with_null-Fits runs_at_version.columns (with_nulls rs) batch_id_column refl h5,
      with_null-Fits projects_at_inputs.columns ps' base_column refl fits,
    )
